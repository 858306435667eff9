-- ===== src/Create.antt =====
-- cont.c, the creation of a continuation: behind the last one of the file, in the next chunk.
pub mod Kept
pub mod Last
pub mod Opens
pub mod Behind
pub mod Extends
pub mod Restart
use chunkfs.Base.{
  ℕ, zero, suc, ◌+◌, ◌*◌, Option, none, some, List, [], ◌∷◌, ◌==◌, if◌then◌else◌, add64, sub64,
  Bool, true, false,
}
use chunkfs.Uino.{uino_to_ino, make_uino}
use chunkfs.Kernel.{Ret, ok, err, bug, out_of_fuel, enoent, eio}
use chunkfs.Client.{
  Inode, Dentry, Status, success, failure, ClientFile, Opened, opened, unopened, Transfer, moved,
  refused_io, After, Client,
}
use chunkfs.Cont.{
  ContData, Continuation, Head, World, C, pure, raise, crash, starved, after, ◌>>=◌, ◌>>◌,
  put_continuation, load_continuation, set_cont_data,
}
use chunkfs.Walk.{cont_path, getname, get_next_cont, get_cont_at_offset, get_next_inode}

-- A continuation that is open: its client's file, itself, and `*ppos`.
pub record OpenCont : Type 0 where
  pub client_file : ClientFile
  pub cont : Continuation
  pub ppos : ℕ

-- `chunkfs_copy_down_file`: the client's file, and `*ppos`.
unfoldable pub copy_down_file : ℕ → ClientFile → ℕ → ClientFile × ℕ
copy_down_file ppos client_file client_start =
    let pos = sub64 ppos client_start in (record client_file { f_pos = pos }, pos)

module _ (c : Client) where
  abbrev pub or_unopened : Opened → C c.State ClientFile
  or_unopened (opened f) = pure f
  or_unopened (unopened e) = raise e

  -- The last continuation of the file; `none` when the list is empty, which it never is.
  unfoldable pub last_cont : Head → ℕ → Option Continuation → C c.State (Option Continuation)
  last_cont head zero prev w = (out_of_fuel, w)
  last_cont head (suc fuel) prev w =
      let (r, w') = get_next_cont c head prev w in
      elim r [
        | ok next ↦ elim next [ none ↦ (ok prev, w') | some n ↦ last_cont head fuel (some n) w' ]
        | err e ↦ (err e, w')
        | bug ↦ (bug, w')
        | out_of_fuel ↦ (out_of_fuel, w')
      ]

  -- The errors of `set_cont_data` are not looked at.
  abbrev ignored : {A : Type 0} → C c.State A → C c.State (Unit {0})
  ignored m w = (ok tt, (m w).1)

  abbrev filp_open : List ℕ → C c.State ClientFile
  filp_open path w = let (r, fs') = c.filp_open w.fs path in or_unopened r (record w { fs = fs' })

  -- On an error the previous continuation is put.
  abbrev put_on_error : {A : Type 0} → Ret A → C c.State A
  put_on_error (ok a) = pure a
  put_on_error (err e) = put_continuation c >> raise e
  put_on_error bug = crash
  put_on_error out_of_fuel = starved

  abbrev or_put : {A : Type 0} → C c.State A → C c.State A
  or_put m w = let (r, w') = m w in put_on_error r w'

  -- An error of `load_continuation` leaves `new_cont` unwritten, and the next line reads it.
  abbrev must : {A : Type 0} → Ret A → C c.State A
  must (ok a) = pure a
  must (err e) = crash
  must bug = crash
  must out_of_fuel = starved

  abbrev written : {A : Type 0} → C c.State A → C c.State A
  written m w = let (r, w') = m w in must r w'

  abbrev pub d_inode : Dentry → C c.State Inode
  d_inode d w = (ok (c.d_inode w.fs d), w)

  -- What is done once the last continuation is known.
  unfoldable pub continue_from : Continuation → ℕ → C c.State OpenCont
  unfolding copy_down_file
  continue_from prev ppos = do
    let to_chunk_id = add64 prev.co_chunk_id 1
    getname c
    new_file ←
        or_put (filp_open (cont_path to_chunk_id prev.co_chunk_id (uino_to_ino prev.co_uino)))
    inode ← d_inode new_file.f_dentry
    ignored (
        set_cont_data c inode (record {
          cd_next = 0;
          cd_prev = prev.co_uino;
          cd_start = add64 prev.co_cd.cd_start prev.co_cd.cd_len;
          cd_len = 10 * 4096;
        }))
    prev_inode ← d_inode prev.co_dentry
    ignored (
        set_cont_data c prev_inode
          (record (prev.co_cd) { cd_next = make_uino to_chunk_id (c.i_ino inode) }))
    new_cont ← written (load_continuation c new_file.f_dentry to_chunk_id)
    let (client_file, pos) = copy_down_file ppos new_file new_cont.co_cd.cd_start
    pure (record { client_file = client_file; cont = new_cont; ppos = pos })

  abbrev pub from_last : ℕ → Option Continuation → C c.State OpenCont
  unfolding continue_from
  from_last ppos none = crash
  from_last ppos (some prev) = continue_from prev ppos

  unfoldable pub create_continuation : ℕ → Head → ℕ → C c.State OpenCont
  unfolding last_cont
  create_continuation fuel head ppos = do prev ← last_cont head fuel none; from_last ppos prev

  unfoldable pub init_cont_data : Dentry → C c.State (Unit {0})
  init_cont_data d = do
    inode ← d_inode d
    set_cont_data c inode (record { cd_next = 0; cd_prev = 0; cd_start = 0; cd_len = 10 * 4096 })
