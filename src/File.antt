-- ===== src/File.antt =====
-- file.c and inode.c: a file of chunkfs is read and written through the client file of the
-- continuation at the offset. Positions are `u64`; counts are assumed to fit an `int`. References to
-- inodes and dentries are not counted.
pub mod Sizes
pub mod Syncing
pub mod Opening
pub mod Reading
pub mod AtStart
pub mod Ends
pub mod Overwriting
pub mod View
pub mod Refines
pub mod Written
pub mod Session
pub mod Longer
pub mod Grows
pub mod Growing
pub mod Untouched
pub mod Appended
pub mod Appending
pub mod Bystander
pub mod Life
pub mod Isolated
pub mod Interleaved
use chunkfs.Base.{
  ℕ, zero, suc, ◌+◌, Option, none, some, List, [], ◌∷◌, ◌==◌, if◌then◌else◌, add64, sub64, Bool,
  true, false,
}
use chunkfs.Uino.{uino_to_ino, make_uino}
use chunkfs.Kernel.{Ret, ok, err, bug, out_of_fuel, enoent, eio}
use chunkfs.Client.{
  Inode, Dentry, Status, success, failure, ClientFile, Opened, opened, unopened, Transfer, moved,
  refused_io, After, Client,
}
use chunkfs.Cont.{
  ContData, Continuation, Head, World, C, pure, raise, crash, starved, after, ◌>>=◌, ◌>>◌,
  put_continuation, load_continuation, set_cont_data,
}
use chunkfs.Create.{OpenCont, copy_down_file, or_unopened, create_continuation}
use chunkfs.Walk.{cont_path, getname, get_next_cont, get_cont_at_offset, get_next_inode}

abbrev pub enodata : ℕ
enodata = 61

-- The position of an open file of chunkfs, and what its inode shows: the size, and the attributes that
-- are copied from the client.
pub record OpenFile : Type 0 where
  pub f_pos : ℕ
  pub i_size : ℕ
  pub i_attrs : ℕ

unfoldable pub copy_up_file : OpenFile → ClientFile → ℕ → OpenFile
copy_up_file file client_file client_start = record file {
  f_pos = add64 client_file.f_pos client_start;
}

-- What a call returns to the VFS, with `*ppos` and the file as it leaves them.
pub record Returned (A : Type 0) : Type 0 where
  pub result : Transfer A
  pub ppos : ℕ
  pub file : OpenFile

module _ (c : Client) where
  -- The loop of `chunkfs_copy_up_inode`: an error ends it as the end of the list does.
  unfoldable pub total_size : Head → ℕ → Option Inode → ℕ → C c.State ℕ
  total_size head zero prev total w = (out_of_fuel, w)
  total_size head (suc fuel) prev total w =
      let (r, w') = get_next_inode c head prev w in
      elim r [
        | ok next ↦ elim next [
          | none ↦ (ok total, w')
          | some i ↦ total_size head fuel (some i) (add64 total (c.i_size w'.fs i)) w'
        ]
        | err e ↦ (ok total, w')
        | bug ↦ (bug, w')
        | out_of_fuel ↦ (out_of_fuel, w')
      ]

  unfoldable pub copy_up_inode : ℕ → Head → Inode → OpenFile → C c.State OpenFile
  unfolding total_size
  copy_up_inode fuel head client_inode file w =
      (do
        total ← total_size head fuel none 0
        pure (record file { i_size = total; i_attrs = c.attrs w.fs client_inode }))
        w

  abbrev dentry_open : Dentry → C c.State ClientFile
  dentry_open d w = or_unopened c (c.dentry_open w.fs d) w

  unfoldable pub open_cont_file : ℕ → Head → ℕ → C c.State OpenCont
  unfolding copy_down_file
  open_cont_file fuel head ppos = do
    cont ← get_cont_at_offset c fuel head ppos
    new_file ← dentry_open cont.co_dentry
    let (client_file, pos) = copy_down_file ppos new_file cont.co_cd.cd_start
    pure (record { client_file = client_file; cont = cont; ppos = pos })

  unfoldable pub close_cont_file :
      ℕ → Head → OpenFile → ClientFile → Continuation → C c.State OpenFile
  unfolding copy_up_file copy_up_inode
  close_cont_file fuel head file client_file cont w =
      (do
        file ←
            copy_up_inode fuel head (c.d_inode w.fs client_file.f_dentry)
              (copy_up_file file client_file cont.co_cd.cd_start)
        put_continuation c
        pure file)
        w

  -- `-ENODATA` counts as the end of the file.
  abbrev pub no_problemo : Transfer (List ℕ) → Transfer (List ℕ)
  no_problemo (moved bs) = moved bs
  no_problemo (refused_io e) = if e == enodata then moved [] else refused_io e

  unfoldable pub read_at_cont : ℕ → Head → OpenFile → ℕ → OpenCont → C c.State (Returned (List ℕ))
  unfolding close_cont_file
  read_at_cont fuel head file len o w =
      let a = c.read w.fs o.client_file len o.ppos in
      (do
        file ← close_cont_file fuel head file a.file o.cont
        pure (record { result = no_problemo a.result; ppos = a.ppos; file = file }))
        (record w { fs = a.fs })

  -- Behind the end of the file nothing is read, and that is no error.
  unfoldable pub chunkfs_read : ℕ → Head → OpenFile → ℕ → ℕ → C c.State (Returned (List ℕ))
  unfolding open_cont_file read_at_cont
  chunkfs_read fuel head file len ppos w =
      let (r, w') = open_cont_file fuel head ppos w in
      elim r [
        | ok o ↦ read_at_cont fuel head file len o w'
        | err e ↦ (
          ok (record {
            result = if e == enoent then moved [] else refused_io e;
            ppos = ppos;
            file = file;
          }),
          w',
        )
        | bug ↦ (bug, w')
        | out_of_fuel ↦ (out_of_fuel, w')
      ]

  unfoldable pub chunkfs_open : ℕ → Head → OpenFile → C c.State OpenFile
  unfolding open_cont_file close_cont_file
  chunkfs_open fuel head file = do
    o ← open_cont_file fuel head 0
    close_cont_file fuel head file o.client_file o.cont

  -- What `fsync` of the last client returned is overwritten by the result of the next step of the walk.
  unfoldable pub fsync_from : Head → ℕ → Option Continuation → C c.State (Unit {0})
  fsync_from head zero prev w = (out_of_fuel, w)
  fsync_from head (suc fuel) prev w =
      let (r, w') = get_next_cont c head prev w in
      elim r [
        | ok next ↦ elim next [
          | none ↦ (ok tt, w')
          | some n ↦
              let (status, fs') = c.fsync w'.fs n.co_dentry in
              fsync_from head fuel (some n) (record w' { fs = fs' })
        ]
        | err e ↦ (err e, w')
        | bug ↦ (bug, w')
        | out_of_fuel ↦ (out_of_fuel, w')
      ]

  unfoldable pub chunkfs_fsync_file : ℕ → Head → C c.State (Unit {0})
  unfolding fsync_from
  chunkfs_fsync_file fuel head = fsync_from head fuel none

  unfoldable pub write_at_cont : ℕ → Head → OpenFile → List ℕ → OpenCont → C c.State (Returned ℕ)
  unfolding close_cont_file
  write_at_cont fuel head file bs o w =
      let a = c.write w.fs o.client_file bs o.ppos in
      (do
        file ← close_cont_file fuel head file a.file o.cont
        pure (record { result = a.result; ppos = a.ppos; file = file }))
        (record w { fs = a.fs })

  -- Behind the end of the file a continuation is made.
  abbrev pub or_created : ℕ → Head → ℕ → Ret OpenCont → C c.State OpenCont
  or_created fuel head ppos (ok o) = pure o
  or_created fuel head ppos (err e) =
      if e == enoent then create_continuation c fuel head ppos else raise e
  or_created fuel head ppos bug = crash
  or_created fuel head ppos out_of_fuel = starved

  abbrev pub finish_write : ℕ → Head → OpenFile → List ℕ → ℕ → Ret OpenCont → C c.State (Returned ℕ)
  finish_write fuel head file bs ppos (ok o) = write_at_cont fuel head file bs o
  finish_write fuel head file bs ppos (err e) =
      pure (record { result = refused_io e; ppos = ppos; file = file })
  finish_write fuel head file bs ppos bug = crash
  finish_write fuel head file bs ppos out_of_fuel = starved

  unfoldable pub chunkfs_write : ℕ → Head → OpenFile → List ℕ → ℕ → C c.State (Returned ℕ)
  chunkfs_write fuel head file bs ppos w =
      let (r, w') = open_cont_file fuel head ppos w in
      let (r', w'') = or_created fuel head ppos r w' in finish_write fuel head file bs ppos r' w''
