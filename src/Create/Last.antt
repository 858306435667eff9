-- ===== src/Create/Last.antt =====
-- cont.c: the loop of `chunkfs_create_continuation`, which walks to the last continuation.
use chunkfs.Base.{
  ℕ, zero, suc, ◌+◌, ◌<◌, ◌≡◌, refl, ap, ◌∙◌, Option, none, some, List, [], ◌∷◌, ◌++◌, arith,
  length,
}
use chunkfs.Kernel.{ok}
use chunkfs.Client.{Client}
use chunkfs.Cont.{Continuation, Head, World}
use chunkfs.Walk.{get_next_cont}
use chunkfs.Walk.Path.{
  ContPath, last, step, HasMemory, stepped, get_next_cont-Follows, get_next_cont-Ends,
}
use chunkfs.Create.{last_cont}

module _ (c : Client) (head : Head) (fuel : ℕ) (prev : Option Continuation)
    (w w' : World c.State) where
  last_cont_step :
      (n : Continuation)
      → get_next_cont c head prev w ≡ (ok (some n), w')
      → last_cont c head (suc fuel) prev w ≡ last_cont c head fuel (some n) w'
  unfolding last_cont
  last_cont_step n e = rw (ap (λ x. x.0) e, last_cont, ap (λ x. x.1) e)

  last_cont_end :
      get_next_cont c head prev w ≡ (ok none, w')
      → last_cont c head (suc fuel) prev w ≡ (ok prev, w')
  unfolding last_cont
  last_cont_end e = rw (ap (λ x. x.0) e, last_cont, ap (λ x. x.1) e)

-- The walk to the last continuation.
pub last_cont_found :
    (c : Client) (memory : HasMemory c) (head : Head) (fuel : ℕ) (before : List Continuation)
    (prev : Option Continuation) (p : Continuation) (w : World c.State)
    → ContPath c w.fs head prev (before ++ p ∷ [])
    → length before + 1 < fuel
    → (w' : World c.State) × (last_cont c head fuel prev w ≡ (ok (some p), w')) × (w'.fs ≡ w.fs)
last_cont_found c memory head zero before prev p w path h = absurd (omega arith)
last_cont_found c memory head (suc zero) before prev p w path h = absurd (omega arith)
last_cont_found c memory head (suc (suc fuel)) [] prev p w (step f (last e)) h = (
  stepped prev w,
  last_cont_step c head (suc fuel) prev w (stepped prev w) p
        (get_next_cont-Follows c memory head prev p w f)
      ∙ last_cont_end c head fuel (some p) (stepped prev w) (stepped prev w)
          (get_next_cont-Ends c memory head p (stepped prev w) e),
  refl,
)
last_cont_found c memory head (suc (suc fuel)) (b ∷ before) prev p w (step f rest) h =
    let (w', found, same) =
      last_cont_found c memory head (suc fuel) before (some b) p (stepped prev w) rest
        (omega arith) in
    (
      w',
      last_cont_step c head (suc fuel) prev w (stepped prev w) b
            (get_next_cont-Follows c memory head prev b w f)
          ∙ found,
      same,
    )
