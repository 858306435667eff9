-- ===== src/Directory/Listing.antt =====
-- dir.c: `chunkfs_iterate` and `chunkfs_dir_llseek` at a position inside the directory.
use chunkfs.Base.{
  ℕ, ◌-◌, ◌^◌, ◌<◌, ◌≡◌, ◌≢◌, ◌⊎◌, ◌↔◌, ◌==◌, inl, inr, refl, Bool-cases, sym, ap, ◌∙◌, none, List,
  arith,
}
use mathlib.Core.Path.{subst}
use chunkfs.Kernel.{Ret, ok}
use chunkfs.Client.{ClientFile, Inode, Status, success, failure, Transfer, moved, Client}
use chunkfs.Cont.{Continuation, Head, World}
use chunkfs.Walk.Same.{Same}
use chunkfs.Walk.Search.{end_from, Holder}
use chunkfs.File.{OpenFile}
use chunkfs.File.View.{Holder-unique, range-le-end}
use chunkfs.File.Sizes.{InodePath}
use chunkfs.File.Opening.{IsFile, InodePath-Same, at_offset, closed, opened_at, close_cont_file_lem}
use chunkfs.Directory.{
  DirOps, as_int, Listed, Emitted, listed, chunkfs_iterate, iterate_at_cont, chunkfs_dir_llseek,
  seek_at_cont, seek_with,
}

-- A client's `iterate` changes no name, inode or attribute.
abbrev pub IterateKeeps : (c : Client) → DirOps c → Type 0
IterateKeeps c ops =
    (s : c.State) (f : ClientFile) (ctx_pos : ℕ) → Same c s (ops.iterate s f ctx_pos).fs

-- What the caller is to get of a client's status: 61 is `ENODATA`.
abbrev pub Told : Status → Status → Type 0
Told success status = status ≡ success
Told (failure e) status = ((e ≡ 61) × (status ≡ success)) ⊎ ((e ≢ 61) × (status ≡ failure e))

listed-Told : (c : Client) (ops : DirOps c) (a : Status) → Told a (listed c ops a)
listed-Told c ops success = refl
listed-Told c ops (failure e) = elim (Bool-cases (e == 61)) [
  | inl is ↦ inl (ground (arith, is), rw is refl)
  | inr not ↦ inr (ground (arith, not), rw not refl)
]

-- `chunkfs_iterate` at a position inside a directory, where the client's `iterate` changes no name,
-- inode or attribute, calls it on the file of the continuation that holds the position, with
-- `ctx->pos` as it was given, not made relative to the continuation. It emits what the client does,
-- leaves `ctx->pos` as the client does, and returns the client's status, but for the error 61
-- (`ENODATA`), which counts as success. The directory's position is then the client file's with the
-- continuation's start added, and its size and attributes are taken from the clients. There is
-- memory, `dentry_open` succeeds, the ranges adjoin from byte 0 on and end below `2 ^ 64`, the
-- inodes can be had, and the fuel exceeds the numbers of continuations and inodes (`IsFile`).
pub chunkfs_iterate_lem :
    (c : Client) (ops : DirOps c) (head : Head) (fuel : ℕ) (file : OpenFile) (ctx_pos : ℕ)
    (w : World c.State) (ns : List Continuation) (is : List Inode)
    → IsFile c head fuel w.fs ns is
    → IterateKeeps c ops
    → file.f_pos < end_from 0 ns
    → (n : Continuation) × Holder file.f_pos ns n
      × (x : Listed Emitted) × ((chunkfs_iterate c ops fuel head file ctx_pos w).0 ≡ ok x)
      × (let a = ops.iterate w.fs (at_offset n file.f_pos) ctx_pos in
          Told a.status x.result.status
          × (x.result.entries ≡ a.entries)
          × (x.result.ctx_pos ≡ a.ctx_pos)
          × (x.file ≡ closed c a.fs is a.file n))
unfolding chunkfs_iterate iterate_at_cont
chunkfs_iterate_lem c ops head fuel file ctx_pos w ns is f keeps inside =
    let (n, holds, w', same, e) = opened_at c head fuel file file.f_pos w ns is f inside in
    let at = at_offset n file.f_pos in
    let a = λ (s : c.State). ops.iterate s at ctx_pos in
    let path : InodePath c (a w'.fs).fs head none is =
      InodePath-Same c w'.fs (a w'.fs).fs head (keeps w'.fs at ctx_pos)
        (subst (λ s. InodePath c s head none is) (sym same) f.inodes) in
    let x : Listed Emitted = record {
      result = record {
        status = listed c ops (a w.fs).status;
        entries = (a w.fs).entries;
        ctx_pos = (a w.fs).ctx_pos;
      };
      file = closed c (a w.fs).fs is (a w.fs).file n;
    } in
    (
      n,
      holds,
      x,
      rw (
        e,
        close_cont_file_lem c head fuel file (a w'.fs).file n (record w' { fs = (a w'.fs).fs }) is
            path f.inode_rounds,
        same,
      ),
      (listed-Told c ops (a w.fs).status, refl, refl, refl),
    )

as_int_iff : (pos : ℕ) → (as_int (moved pos) ≡ moved pos) ↔ (pos < 2 ^ 31)
unfolding as_int
as_int_iff pos = ground arith

-- The answer of a client that found the position `pos` is told to the caller.
abbrev pub Tells : Ret (Listed (Transfer ℕ)) → ℕ → Type 0
Tells r pos = (f : OpenFile) × (r ≡ ok (record { result = moved pos; file = f }))

-- Where the client's `llseek` in a directory finds a position, `chunkfs_dir_llseek` returns that
-- position exactly if it is below `2 ^ 31`. The offset lies in a continuation of the directory, and
-- the conditions of `IsFile` hold: memory, `dentry_open`, ranges that adjoin, and fuel.
pub chunkfs_dir_llseek_iff :
    (c : Client) (ops : DirOps c) (head : Head) (fuel : ℕ) (file : OpenFile) (offset origin pos : ℕ)
    (w : World c.State) (ns : List Continuation) (is : List Inode) (n : Continuation)
    → IsFile c head fuel w.fs ns is
    → Holder offset ns n
    → (seek_with c ops ops.llseek (at_offset n offset) (offset - n.co_cd.cd_start) origin).result
      ≡ moved pos
    → Tells (chunkfs_dir_llseek c ops fuel head file offset origin w).0 pos ↔ (pos < 2 ^ 31)
unfolding chunkfs_dir_llseek seek_at_cont
chunkfs_dir_llseek_iff c ops head fuel file offset origin pos w ns is m f holder answer =
    let inside : offset < end_from 0 ns =
      omega (arith, holder.to, range-le-end 0 ns m f.adjoin holder.member) in
    let (n, holds, w', same, e) = opened_at c head fuel file offset w ns is f inside in
    let own = Holder-unique 0 offset ns n m f.adjoin holds holder in
    let path : InodePath c w'.fs head none is =
      subst (λ s. InodePath c s head none is) (sym same) f.inodes in
    let at = λ (x : Continuation).
      seek_with c ops ops.llseek (at_offset x offset) (offset - x.co_cd.cd_start) origin in
    let a = at n in
    let told : a.result ≡ moved pos = ap (λ (x : Continuation). (at x).result) own ∙ answer in
    let returns : (chunkfs_dir_llseek c ops fuel head file offset origin w).0
        ≡ ok (record { result = as_int (moved pos); file = closed c w'.fs is a.file n }) =
      rw (e, close_cont_file_lem c head fuel file a.file n w' is path f.inode_rounds, told) in
    (
      λ (g, tells). (as_int_iff pos).0 (cc (returns, tells)),
      λ small. (
        closed c w'.fs is a.file n,
        returns
            ∙ ap (λ r. ok (record { result = r; file = closed c w'.fs is a.file n }))
                ((as_int_iff pos).1 small),
      ),
    )
