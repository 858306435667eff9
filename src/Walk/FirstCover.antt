-- ===== src/Walk/FirstCover.antt =====
-- cont.c: the walk of `chunkfs_get_cont_at_offset` along a file's list of continuations.
use chunkfs.Base.{
  ℕ, zero, suc, ◌+◌, ◌<◌, ◌≡◌, refl, ap, inl, inr, true, false, Option, none, some, List, [], ◌∷◌,
  arith, if◌then◌else◌, length, Bool-cases,
}
use chunkfs.Kernel.{Ret, ok, err, enoent}
use chunkfs.Client.{Client}
use chunkfs.Cont.{Continuation, Head, World}
use chunkfs.Walk.{covers, get_next_cont, find_at, get_cont_at_offset}
use chunkfs.Walk.Path.{
  ContPath, last, step, HasMemory, stepped, get_next_cont-Follows, get_next_cont-Ends,
}

-- The first continuation of the list that covers the offset, and the number of those passed.
unfoldable pub first_cover : ℕ → List Continuation → Ret Continuation × ℕ
first_cover offset [] = (err enoent, 0)
first_cover offset (n ∷ ns) =
    let (r, passed) = first_cover offset ns in
    if covers offset n.co_cd then (ok n, 1) else (r, passed + 1)

-- The walk ends as `first_cover` does, leaves the clients alone, and leaves each continuation that it
-- passed allocated.
abbrev pub EndsAs :
    {S : Type 0} → World S → Ret Continuation × ℕ → Ret Continuation × World S → Type 0
EndsAs w (r, passed) (r', w') = (r' ≡ r) × (w'.fs ≡ w.fs) × (w'.conts ≡ w.conts + passed)

ret_of : {A B : Type 0} {p q : A × B} → p ≡ q → p.0 ≡ q.0
ret_of e = ap (λ p. p.0) e

world_of : {A B : Type 0} {p q : A × B} → p ≡ q → p.1 ≡ q.1
world_of e = ap (λ p. p.1) e

module _ (c : Client) (head : Head) (offset fuel : ℕ) (prev : Option Continuation)
    (w w' : World c.State) where
  find_at_hit :
      (n : Continuation)
      → get_next_cont c head prev w ≡ (ok (some n), w')
      → covers offset n.co_cd ≡ true
      → find_at c head offset (suc fuel) prev w ≡ (ok n, w')
  unfolding find_at
  find_at_hit n e here = rw (ret_of e, find_at, here, world_of e)

  find_at_miss :
      (n : Continuation)
      → get_next_cont c head prev w ≡ (ok (some n), w')
      → covers offset n.co_cd ≡ false
      → find_at c head offset (suc fuel) prev w ≡ find_at c head offset fuel (some n) w'
  unfolding find_at
  find_at_miss n e later = rw (ret_of e, find_at, later, world_of e)

  find_at_end :
      get_next_cont c head prev w ≡ (ok none, w')
      → find_at c head offset (suc fuel) prev w ≡ (err enoent, w')
  unfolding find_at
  find_at_end e = rw (ret_of e, world_of e, find_at)

module _ (c : Client) (memory : HasMemory c) (head : Head) where
  find_at-first_cover :
      (offset fuel : ℕ) (w : World c.State) {prev : Option Continuation} {ns : List Continuation}
      → ContPath c w.fs head prev ns
      → length ns < fuel
      → EndsAs w (first_cover offset ns) (find_at c head offset fuel prev w)
  unfolding first_cover
  find_at-first_cover offset zero w path h = absurd (omega arith)
  find_at-first_cover offset (suc fuel) w (last {p} e) h =
      rw (find_at_end c head offset fuel (some p) w w (get_next_cont-Ends c memory head p w e))
        (refl, refl, omega arith)
  find_at-first_cover offset (suc fuel) w (step {prev} {n} {ns} f path) h =
      let moves = get_next_cont-Follows c memory head prev n w f in
      elim (Bool-cases (covers offset n.co_cd)) [
        | inl here ↦
            rw (here, find_at_hit c head offset fuel prev w (stepped prev w) n moves here)
              (refl, refl, refl)
        | inr later ↦
            rw (later, find_at_miss c head offset fuel prev w (stepped prev w) n moves later)
              (let (r, s, t) =
                  find_at-first_cover offset fuel (stepped prev w) path (omega arith) in
                (r, s, omega arith))
      ]

  -- On a file whose continuations are `ns`, with memory and more fuel than continuations,
  -- `chunkfs_get_cont_at_offset` ends as the search through the list `ns` for the first that covers
  -- the offset does, whether or not their ranges adjoin; the clients are as before, and each
  -- continuation that it passed is still allocated.
  pub get_cont_at_offset-first_cover :
      (offset fuel : ℕ) (w : World c.State) {ns : List Continuation}
      → ContPath c w.fs head none ns
      → length ns < fuel
      → EndsAs w (first_cover offset ns) (get_cont_at_offset c fuel head offset w)
  unfolding get_cont_at_offset
  get_cont_at_offset-first_cover offset fuel w path h = find_at-first_cover offset fuel w path h
