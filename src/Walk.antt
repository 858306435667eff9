-- ===== src/Walk.antt =====
-- cont.c, the walk along the continuations of a file: one step, the search for an offset, and the
-- step by inodes that inode.c sums sizes with. Loops take fuel, one unit a continuation.
pub mod Path
pub mod Unique
pub mod FirstCover
pub mod Search
pub mod Same
use chunkfs.Base.{
  ℕ, zero, suc, Bool, true, false, ◌&&◌, Option, none, some, List, [], ◌∷◌, ◌++◌, ltb, leb, ◌==◌,
  if◌then◌else◌, add64, ◌+◌,
}
use chunkfs.Decimal.{print_u64}
use chunkfs.Uino.{uino_to_chunk_id, uino_to_ino}
use chunkfs.Kernel.{Ret, ok, err, bug, out_of_fuel, enoent, eio}
use chunkfs.Mount.{ChunkInfo, mount_path, find_chunk}
use chunkfs.Client.{Inode, Dentry, Client}
use chunkfs.Cont.{
  ContData, Continuation, Head, World, C, pure, raise, crash, starved, ◌>>=◌, ◌>>◌, get_cont_data,
  load_continuation,
}

-- "/chunk%llu/%llu/%llu": the file in chunk `to` that continues inode `ino` of chunk `from`.
unfoldable pub cont_path : ℕ → ℕ → ℕ → List ℕ
unfolding mount_path
cont_path to from ino = mount_path to ++ (b'/' ∷ (print_u64 from ++ (b'/' ∷ print_u64 ino)))

-- The test of `chunkfs_get_cont_at_offset`.
unfoldable pub covers : ℕ → ContData → Bool
covers offset cd = leb cd.cd_start offset && ltb offset (add64 cd.cd_start cd.cd_len)

module _ (c : Client) where
  -- `__getname` returns NULL when it fails, which the test for an error pointer lets pass.
  abbrev pub getname : C c.State (Unit {0})
  getname w = if c.getname w.calls then (ok tt, record w { calls = w.calls + 1 }) else (bug, w)

  abbrev or_enoent : Option Dentry → C c.State Dentry
  or_enoent none = raise enoent
  or_enoent (some d) = pure d

  abbrev lookup_path : List ℕ → C c.State Dentry
  lookup_path path w = or_enoent (c.kern_path w.fs path) w

  unfoldable pub follow : Continuation → C c.State (Option Continuation)
  follow prev = do
    getname
    d ← lookup_path (
        cont_path (uino_to_chunk_id prev.co_cd.cd_next) prev.co_chunk_id (uino_to_ino prev.co_uino))
    cont ← load_continuation c d (uino_to_chunk_id prev.co_cd.cd_next)
    pure (some cont)

  -- `none` as the result is the end of the list.
  unfoldable pub get_next_cont : Head → Option Continuation → C c.State (Option Continuation)
  get_next_cont head none = do
    cont ← load_continuation c head.client_dentry (uino_to_chunk_id head.i_ino)
    pure (some cont)
  get_next_cont head (some prev) =
      if prev.co_cd.cd_next == head.i_ino
      then pure none
      else if prev.co_cd.cd_next == 0
      then pure none
      else follow prev

  -- An error in the first round leaves `next_cont` unwritten, and the code behind the loop reads it.
  abbrev pub broken_off : Option Continuation → ℕ → C c.State Continuation
  broken_off none e = crash
  broken_off (some prev) e = raise e

  unfoldable pub find_at : Head → ℕ → ℕ → Option Continuation → C c.State Continuation
  find_at head offset zero prev w = (out_of_fuel, w)
  find_at head offset (suc fuel) prev w =
      let (r, w') = get_next_cont head prev w in
      elim r [
        | ok next ↦ elim next [
          | none ↦ (err enoent, w')
          | some n ↦ elim (covers offset n.co_cd) [
            | true ↦ (ok n, w')
            | false ↦ find_at head offset fuel (some n) w'
          ]
        ]
        | err e ↦ broken_off prev e w'
        | bug ↦ (bug, w')
        | out_of_fuel ↦ (out_of_fuel, w')
      ]

  unfoldable pub get_cont_at_offset : ℕ → Head → ℕ → C c.State Continuation
  get_cont_at_offset fuel head offset = find_at head offset fuel none

  abbrev iget_or_bug : Option Inode → C c.State Inode
  iget_or_bug none = crash
  iget_or_bug (some i) = if c.is_bad i then raise eio else pure i

  abbrev in_chunk : Option ChunkInfo → ℕ → C c.State (Option Inode)
  in_chunk none ino = crash
  in_chunk (some ci) ino = do i ← iget_or_bug (c.iget ci.ci_mnt.mnt_sb ino); pure (some i)

  unfoldable pub get_next_inode : Head → Option Inode → C c.State (Option Inode)
  get_next_inode head none = do
    i ← iget_or_bug (c.iget (c.i_sb head.client_inode) (c.i_ino head.client_inode))
    pure (some i)
  get_next_inode head (some prev) = do
    cd ← get_cont_data c prev
    if cd.cd_next == 0
        then pure none
        else in_chunk (find_chunk c.pool (uino_to_chunk_id cd.cd_next)) (uino_to_ino cd.cd_next)
