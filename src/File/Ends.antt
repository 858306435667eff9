-- ===== src/File/Ends.antt =====
-- file.c: reads and writes at the end of a file and behind it, and the positions that a read leaves.
use chunkfs.Base.{
  ℕ, ◌+◌, ◌-◌, ◌^◌, ◌≤◌, ◌<◌, ◌≡◌, refl, sym, ap, ◌∙◌, none, List, [], ◌∷◌, ◌++◌, arith, length,
  length-append,
}
use mathlib.Core.Path.{subst}
use chunkfs.Kernel.{ok, err, enoent}
use chunkfs.Client.{Transfer, refused_io, ClientFile, opened, moved, Client, XattrLaws}
use chunkfs.Cont.{Continuation, Head, World}
use chunkfs.Cont.Attributes.{Settable}
use chunkfs.Walk.{get_cont_at_offset}
use chunkfs.Walk.Path.{ContPath, HasMemory}
use chunkfs.Walk.Search.{Adjoin, end_from, Holder, get_cont_at_offset-cases}
use chunkfs.Create.{OpenCont}
use chunkfs.Create.Kept.{with_next}
use chunkfs.Create.Opens.{OpenLaws, New, new_path}
use chunkfs.Create.Extends.{create_continuation-ContPath}
use chunkfs.File.{OpenFile, Returned, open_cont_file, chunkfs_read, write_at_cont, chunkfs_write}
use chunkfs.File.Reading.{read_inside}
use chunkfs.File.Opening.{IsFile, ReadKeeps, at_offset}

-- The search that finds nothing makes the opening fail.
pub open_past :
    (c : Client) (head : Head) (fuel ppos : ℕ) (w : World c.State) (ns : List Continuation)
    → HasMemory c
    → ContPath c w.fs head none ns
    → Adjoin 0 ns
    → end_from 0 ns < 2 ^ 64
    → length ns < fuel
    → end_from 0 ns ≤ ppos
    → (w' : World c.State) × (w'.fs ≡ w.fs) × (open_cont_file c fuel head ppos w ≡ (err enoent, w'))
unfolding open_cont_file
open_past c head fuel ppos w ns memory path adj small rounds past =
    let (fs, found, missed) =
      get_cont_at_offset-cases c head ppos fuel w ns memory path adj small rounds in
    ((get_cont_at_offset c fuel head ppos w).1, fs, rw (missed past))

-- A read at the end of a file or behind it reads nothing and is no error. The file, `*ppos` and the
-- clients are as before. The file's ranges adjoin and end below `2 ^ 64`, there is memory, and the
-- fuel exceeds the number of continuations.
pub chunkfs_read_past :
    (c : Client) (head : Head) (fuel : ℕ) (file : OpenFile) (len ppos : ℕ) (w : World c.State)
    (ns : List Continuation)
    → HasMemory c
    → ContPath c w.fs head none ns
    → Adjoin 0 ns
    → end_from 0 ns < 2 ^ 64
    → length ns < fuel
    → end_from 0 ns ≤ ppos
    → let (r, w') = chunkfs_read c fuel head file len ppos w in
      (r ≡ ok (record { result = moved []; ppos = ppos; file = file })) × (w'.fs ≡ w.fs)
unfolding chunkfs_read
chunkfs_read_past c head fuel file len ppos w ns memory path adj small rounds past =
    let (w', fs, e) = open_past c head fuel ppos w ns memory path adj small rounds past in
    rw (ap (λ x. x.0) e, chunkfs_read, ap (λ x. x.1) e) (refl, fs)

-- The number of bytes that a read moved.
abbrev pub count : Transfer (List ℕ) → ℕ
count (moved bs) = length bs
count (refused_io e) = 0

-- A client's `read` leaves its file's position alone and moves `*ppos` by what it read.
pub record ReadLaws (c : Client) : Type 0 where
  pub file : (s : c.State) (f : ClientFile) (len pos : ℕ) → (c.read s f len pos).file ≡ f
  pub moves :
      (s : c.State) (f : ClientFile) (len pos : ℕ)
      → let a = c.read s f len pos in a.ppos ≡ pos + count a.result

-- After a read inside a file, where the client's `read` leaves its file's position alone and moves
-- `*ppos` by what it read, the position of the file is the offset as it was, and `*ppos` has moved
-- by the bytes read, but counts from the start of the continuation that was read. The client's
-- `read` changes no name, inode or attribute. There is memory, `dentry_open` succeeds, the ranges
-- adjoin from byte 0 on and end below `2 ^ 64`, the inodes can be had, and the fuel exceeds the
-- numbers of continuations and inodes (`IsFile`).
pub chunkfs_read_positions :
    (c : Client) (head : Head) (fuel : ℕ) (file : OpenFile) (len ppos : ℕ) (w : World c.State)
    (ns : List Continuation) (is : List ℕ)
    → IsFile c head fuel w.fs ns is
    → ReadKeeps c
    → ReadLaws c
    → ppos < end_from 0 ns
    → (n : Continuation) × Holder ppos ns n
      × (r : Returned (List ℕ)) × ((chunkfs_read c fuel head file len ppos w).0 ≡ ok r)
      × (r.file.f_pos ≡ ppos)
      × (r.ppos + n.co_cd.cd_start
          ≡ ppos + count (c.read w.fs (at_offset n ppos) len (ppos - n.co_cd.cd_start)).result)
chunkfs_read_positions c head fuel file len ppos w ns is f keeps laws inside =
    let (n, holds, w', fs, e) = read_inside c head fuel file len ppos w ns is f keeps inside in
    (
      n,
      holds,
      _,
      ap (λ x. x.0) e,
      rw (laws.file w.fs (at_offset n ppos) len (ppos - n.co_cd.cd_start))
          (omega (arith, holds.from, f.size)),
      omega (arith, laws.moves w.fs (at_offset n ppos) len (ppos - n.co_cd.cd_start), holds.from),
    )

pub end_from_last :
    (s : ℕ) (before : List Continuation) (p : Continuation)
    → Adjoin s (before ++ p ∷ [])
    → end_from s (before ++ p ∷ []) ≡ p.co_cd.cd_start + p.co_cd.cd_len
end_from_last s [] p adj = omega (arith, adj.0)
end_from_last s (b ∷ before) p adj = end_from_last (s + b.co_cd.cd_len) before p adj.1

-- A write at the very end of a file whose ranges adjoin, under the conditions on which a
-- continuation is created, makes one that starts there, behind the last one, and goes on as a write
-- to it at its byte 0. The file's ranges still adjoin.
pub chunkfs_write_end :
    (c : Client) (head : Head) (fuel : ℕ) (file : OpenFile) (bs : List ℕ)
    (before : List Continuation) (p : Continuation) (w : World c.State) (f : ClientFile)
    (s : c.State)
    → XattrLaws c
    → OpenLaws c
    → HasMemory c
    → Settable c
    → ContPath c w.fs head none (before ++ p ∷ [])
    → Adjoin 0 (before ++ p ∷ [])
    → end_from 0 (before ++ p ∷ []) < 2 ^ 64
    → length before + 1 < fuel
    → c.filp_open w.fs (new_path p) ≡ (opened f, s)
    → New c head s f p before
    → let end_ = end_from 0 (before ++ p ∷ []) in
      (o : OpenCont) × (w' : World c.State) × (chunkfs_write c fuel head file bs end_ w
        ≡ write_at_cont c fuel head file bs o w')
      × ContPath c w'.fs head none (before ++ with_next p o.cont.co_uino ∷ (o.cont ∷ []))
      × Adjoin 0 (before ++ with_next p o.cont.co_uino ∷ (o.cont ∷ []))
      × (o.cont.co_cd.cd_start ≡ end_)
      × (o.ppos ≡ 0)
unfolding chunkfs_write
chunkfs_write_end c head fuel file bs before p w f s laws open_laws memory settable path adj small
      rounds e new =
    let ns = before ++ p ∷ [] in
    let (v, fs, missed) =
      open_past c head fuel (end_from 0 ns) w ns memory path adj small
        (omega (arith, length-append before (p ∷ []))) (omega arith) in
    let (o, w', made, there, adjoins, start, pos) =
      create_continuation-ContPath c head fuel (end_from 0 ns) before p v f s laws open_laws memory
        settable (subst (λ x. ContPath c x head none ns) (sym fs) path) adj small rounds
        (ap (λ x. c.filp_open x (new_path p)) fs ∙ e) new in
    let start : o.cont.co_cd.cd_start ≡ end_from 0 ns =
      omega (arith, start, end_from_last 0 before p adj) in
    (o, w', rw (missed, made), there, adjoins, start, pos ∙ omega (arith, start))
