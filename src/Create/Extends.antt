-- ===== src/Create/Extends.antt =====
-- cont.c: `chunkfs_create_continuation` as a whole, on a file's list of continuations.
use chunkfs.Base.{
  ℕ, ◌+◌, ◌^◌, ◌<◌, ◌≡◌, refl, sym, ap, none, List, [], ◌∷◌, ◌++◌, arith, length, add64, sub64,
}
use mathlib.Core.Path.{subst}
use chunkfs.Uino.{make_uino}
use chunkfs.Kernel.{ok}
use chunkfs.Client.{ClientFile, opened, Client, XattrLaws}
use chunkfs.Cont.{Continuation, Head, World}
use chunkfs.Cont.Attributes.{Settable}
use chunkfs.Walk.Path.{ContPath, HasMemory}
use chunkfs.Walk.Search.{Adjoin, end_from}
use chunkfs.Create.{OpenCont, create_continuation, from_last}
use chunkfs.Create.Kept.{with_next}
use chunkfs.Create.Last.{last_cont_found}
use chunkfs.Create.Behind.{extended, continued, new_open, loaded_world, dentry_kept}
use chunkfs.Create.Opens.{OpenLaws, New, new_path}

pub Adjoin-extended :
    (s : ℕ) (before : List Continuation) (p n : Continuation) (next : ℕ)
    → Adjoin s (before ++ p ∷ [])
    → end_from s (before ++ p ∷ []) < 2 ^ 64
    → n.co_cd.cd_start ≡ add64 p.co_cd.cd_start p.co_cd.cd_len
    → Adjoin s (before ++ with_next p next ∷ (n ∷ []))
Adjoin-extended s [] p n next adj small e = (adj.0, (omega (arith, adj.0), tt))
Adjoin-extended s (b ∷ before) p n next adj small e =
    (adj.0, Adjoin-extended (s + b.co_cd.cd_len) before p n next adj.1 small e)

-- The outcome in the worlds of the steps.
pub create_done :
    (c : Client) (head : Head) (fuel ppos : ℕ) (before : List Continuation) (p : Continuation)
    (w : World c.State) (f : ClientFile) (s : c.State) (laws : XattrLaws c) (open_laws : OpenLaws c)
    (memory : HasMemory c) (settable : Settable c)
    (there : ContPath c w.fs head none (before ++ p ∷ []))
    → length before + 1 < fuel
    → (e : c.filp_open w.fs (new_path p) ≡ (opened f, s)) → (new : New c head s f p before)
    → (v : World c.State) × (at_s : v.fs ≡ s) × (create_continuation c fuel head ppos w ≡ (
      ok (new_open c laws open_laws memory settable head before p w f s e new there v at_s ppos),
      loaded_world c laws open_laws memory settable head before p w f s e new there v at_s,
    ))
unfolding create_continuation from_last
create_done c head fuel ppos before p w f s laws open_laws memory settable there h e new =
    let (v₀, found, same) = last_cont_found c memory head fuel before none p w there h in
    (
      record v₀ { fs = s; calls = v₀.calls + 1 },
      refl,
      rw found
          (continued c laws open_laws memory settable head before p w f s e new there ppos v₀ same),
    )

-- `create_continuation` on a file whose last continuation is `p`, where the file that it opens is
-- new (`New`), memory does not run out, no attribute is refused and the fuel exceeds the number of
-- continuations, succeeds. The file then has its continuations as before, `p` pointing to the new
-- one, and the new one as the last; it starts where `p` ends. The ranges, which adjoin from byte 0
-- on and end below `2 ^ 64`, still adjoin. `*ppos` is made relative to the new one's start.
pub create_continuation-ContPath :
    (c : Client) (head : Head) (fuel ppos : ℕ) (before : List Continuation) (p : Continuation)
    (w : World c.State) (f : ClientFile) (s : c.State)
    → XattrLaws c
    → OpenLaws c
    → HasMemory c
    → Settable c
    → ContPath c w.fs head none (before ++ p ∷ [])
    → Adjoin 0 (before ++ p ∷ [])
    → end_from 0 (before ++ p ∷ []) < 2 ^ 64
    → length before + 1 < fuel
    → c.filp_open w.fs (new_path p) ≡ (opened f, s)
    → New c head s f p before
    → (o : OpenCont) × (w' : World c.State) × (create_continuation c fuel head ppos w ≡ (ok o, w'))
      × ContPath c w'.fs head none (before ++ with_next p o.cont.co_uino ∷ (o.cont ∷ []))
      × Adjoin 0 (before ++ with_next p o.cont.co_uino ∷ (o.cont ∷ []))
      × (o.cont.co_cd.cd_start ≡ add64 p.co_cd.cd_start p.co_cd.cd_len)
      × (o.ppos ≡ sub64 ppos o.cont.co_cd.cd_start)
unfolding create_continuation from_last
create_continuation-ContPath c head fuel ppos before p w f s laws open_laws memory settable there
      adj small h e new =
    let (v₀, found, same) = last_cont_found c memory head fuel before none p w there h in
    let v : World c.State = record v₀ { fs = s; calls = v₀.calls + 1 } in
    let o = new_open c laws open_laws memory settable head before p w f s e new there v refl ppos in
    let uino : o.cont.co_uino ≡ make_uino (p.co_chunk_id + 1) (c.i_ino (c.d_inode s f.f_dentry)) =
      ap (λ i. make_uino (p.co_chunk_id + 1) (c.i_ino i))
        (dentry_kept c laws open_laws memory settable head before p w f s e new there v refl
          f.f_dentry) in
    (
      o,
      loaded_world c laws open_laws memory settable head before p w f s e new there v refl,
      rw found
          (continued c laws open_laws memory settable head before p w f s e new there ppos v₀ same),
      subst
          (λ u.
            ContPath c
              (loaded_world c laws open_laws memory settable head before p w f s e new there v
                refl).fs
              head none (before ++ with_next p u ∷ (o.cont ∷ [])))
          (sym uino)
          (extended c laws open_laws memory settable head before p w f s e new there v refl),
      Adjoin-extended 0 before p o.cont o.cont.co_uino adj small refl,
      refl,
      refl,
    )
