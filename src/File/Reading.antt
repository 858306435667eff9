-- ===== src/File/Reading.antt =====
-- file.c: `chunkfs_read` and `chunkfs_write` at an offset inside a file.
use chunkfs.Base.{
  ℕ, ◌-◌, ◌<◌, ◌≡◌, ◌≢◌, ◌⊎◌, ◌==◌, inl, inr, refl, sym, ap, ◌∙◌, none, List, [], arith, Bool-cases,
}
use mathlib.Core.Path.{subst}
use chunkfs.Kernel.{ok}
use chunkfs.Client.{Inode, Transfer, moved, refused_io, Client}
use chunkfs.Cont.{Continuation, Head, World}
use chunkfs.Walk.Search.{end_from, Holder}
use chunkfs.File.{OpenFile, Returned, no_problemo, chunkfs_read, chunkfs_write}
use chunkfs.File.Sizes.{InodePath}
use chunkfs.File.Opening.{
  ReadKeeps, WriteKeeps, at_offset, read_result, write_result, read_at_cont_lem, write_at_cont_lem,
  read_opened, write_opened, IsFile, opened_at, closed,
}

-- The whole outcome of a read inside a file: the result, and the clients' state.
pub read_inside :
    (c : Client) (head : Head) (fuel : ℕ) (file : OpenFile) (len : ℕ) (ppos : ℕ) (w : World c.State)
    (ns : List Continuation) (is : List Inode)
    → IsFile c head fuel w.fs ns is
    → ReadKeeps c
    → ppos < end_from 0 ns
    → (n : Continuation) × Holder ppos ns n
      × (w' : World c.State) × (w'.fs
          ≡ (c.read w.fs (at_offset n ppos) len (ppos - n.co_cd.cd_start)).fs)
      × (chunkfs_read c fuel head file len ppos w
          ≡ (ok (read_result c head fuel file w.fs is len ppos n), w'))
read_inside c head fuel file len ppos w ns is f keeps inside =
    let (n, holds, w', same, e) = opened_at c head fuel file ppos w ns is f inside in
    let path = subst (λ s. InodePath c s head none is) (sym same) f.inodes in
    let a = λ (s : c.State). c.read s (at_offset n ppos) len (ppos - n.co_cd.cd_start) in
    let w'' : World c.State = record w' { fs = (a w'.fs).fs; conts = w'.conts - 1 } in
    (
      n,
      holds,
      w'',
      ap (λ s. (a s).fs) same,
      read_opened c head fuel file len ppos w w' _ e
          ∙ read_at_cont_lem c head fuel file n ppos w' is path f.inode_rounds len keeps
          ∙ ap (λ s. (ok (read_result c head fuel file s is len ppos n), w'')) same,
    )

-- What the caller is to get of a client's answer: 61 is `ENODATA`.
abbrev pub Told : Transfer (List ℕ) → Transfer (List ℕ) → Type 0
Told (moved bs) result = result ≡ moved bs
Told (refused_io e) result = ((e ≡ 61) × (result ≡ moved [])) ⊎ ((e ≢ 61) × (result ≡ refused_io e))

no_problemo-Told : (c : Client) (a : Transfer (List ℕ)) → Told a (no_problemo c a)
no_problemo-Told c (moved bs) = refl
no_problemo-Told c (refused_io e) = elim (Bool-cases (e == 61)) [
  | inl is ↦ inl (ground (arith, is), rw is refl)
  | inr not ↦ inr (ground (arith, not), rw not refl)
]

-- A read inside a file returns what the client's `read` does of the one continuation that holds the
-- offset, at the offset's place in it, but for the error 61 (`ENODATA`), which counts as nothing
-- read. The file's size and attributes are then taken from the clients, its position is the client
-- file's with the continuation's start added, and `*ppos` is the client's. The client's `read`
-- changes no name, inode or attribute; there is memory, `dentry_open` succeeds, the ranges adjoin
-- from byte 0 on and end below `2 ^ 64`, the inodes can be had, and the fuel exceeds the numbers of
-- continuations and inodes (`IsFile`).
pub chunkfs_read_inside :
    (c : Client) (head : Head) (fuel : ℕ) (file : OpenFile) (len ppos : ℕ) (w : World c.State)
    (ns : List Continuation) (is : List Inode)
    → IsFile c head fuel w.fs ns is
    → ReadKeeps c
    → ppos < end_from 0 ns
    → (n : Continuation) × Holder ppos ns n
      × (x : Returned (List ℕ)) × ((chunkfs_read c fuel head file len ppos w).0 ≡ ok x)
      × (let a = c.read w.fs (at_offset n ppos) len (ppos - n.co_cd.cd_start) in
          Told a.result x.result × (x.ppos ≡ a.ppos) × (x.file ≡ closed c a.fs is a.file n))
chunkfs_read_inside c head fuel file len ppos w ns is f keeps inside =
    let (n, holds, w', fs, e) = read_inside c head fuel file len ppos w ns is f keeps inside in
    (
      n,
      holds,
      read_result c head fuel file w.fs is len ppos n,
      ap (λ x. x.0) e,
      (no_problemo-Told c _, refl, refl),
    )

-- The whole outcome of a write inside a file: the result, and the clients' state.
pub write_inside :
    (c : Client) (head : Head) (fuel : ℕ) (file : OpenFile) (bs : List ℕ) (ppos : ℕ)
    (w : World c.State) (ns : List Continuation) (is : List Inode)
    → IsFile c head fuel w.fs ns is
    → WriteKeeps c
    → ppos < end_from 0 ns
    → (n : Continuation) × Holder ppos ns n
      × (w' : World c.State) × (w'.fs
          ≡ (c.write w.fs (at_offset n ppos) bs (ppos - n.co_cd.cd_start)).fs)
      × (chunkfs_write c fuel head file bs ppos w
          ≡ (ok (write_result c head fuel file w.fs is bs ppos n), w'))
write_inside c head fuel file bs ppos w ns is f keeps inside =
    let (n, holds, w', same, e) = opened_at c head fuel file ppos w ns is f inside in
    let path = subst (λ s. InodePath c s head none is) (sym same) f.inodes in
    let a = λ (s : c.State). c.write s (at_offset n ppos) bs (ppos - n.co_cd.cd_start) in
    let w'' : World c.State = record w' { fs = (a w'.fs).fs; conts = w'.conts - 1 } in
    (
      n,
      holds,
      w'',
      ap (λ s. (a s).fs) same,
      write_opened c head fuel file bs ppos w w' _ e
          ∙ write_at_cont_lem c head fuel file n ppos w' is path f.inode_rounds bs keeps
          ∙ ap (λ s. (ok (write_result c head fuel file s is bs ppos n), w'')) same,
    )

-- A write inside a file, where the client's `write` changes no name, inode or attribute, is the
-- client's `write` to the one continuation that holds the offset, at the offset's place in it. The
-- file's size and attributes are then taken from the clients, its position is the client file's
-- with the continuation's start added, and `*ppos` is the client's. There is memory, `dentry_open`
-- succeeds, the ranges adjoin from byte 0 on and end below `2 ^ 64`, the inodes can be had, and the
-- fuel exceeds the numbers of continuations and inodes (`IsFile`).
pub chunkfs_write_inside :
    (c : Client) (head : Head) (fuel : ℕ) (file : OpenFile) (bs : List ℕ) (ppos : ℕ)
    (w : World c.State) (ns : List Continuation) (is : List Inode)
    → IsFile c head fuel w.fs ns is
    → WriteKeeps c
    → ppos < end_from 0 ns
    → (n : Continuation) × Holder ppos ns n
      × ((chunkfs_write c fuel head file bs ppos w).0
          ≡ ok (write_result c head fuel file w.fs is bs ppos n))
chunkfs_write_inside c head fuel file bs ppos w ns is f keeps inside =
    let (n, holds, w', fs, e) = write_inside c head fuel file bs ppos w ns is f keeps inside in
    (n, holds, ap (λ x. x.0) e)
