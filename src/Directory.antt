-- ===== src/Directory.antt =====
-- dir.c: a directory is listed and sought in through the client file of the continuation at the
-- position.
pub mod Listing
use chunkfs.Base.{
  ℕ, ◌+◌, ◌-◌, ◌%◌, ◌^◌, Bool, true, false, Option, none, some, List, [], ltb, ◌==◌, if◌then◌else◌,
}
use chunkfs.Kernel.{Ret, ok, err, bug, out_of_fuel}
use chunkfs.Client.{ClientFile, Status, success, failure, Transfer, moved, refused_io, Client}
use chunkfs.Cont.{Head, World, C, pure, ◌>>=◌, ◌>>◌}
use chunkfs.Create.{OpenCont}
use chunkfs.File.{OpenFile, enodata, open_cont_file, close_cont_file}

-- What a client's `iterate` leaves: its status, the entries that it emitted, `ctx->pos`, the file, and the
-- state.
pub record Iterated (S : Type 0) : Type 0 where
  pub status : Status
  pub entries : List ℕ
  pub ctx_pos : ℕ
  pub file : ClientFile
  pub fs : S

-- What a client's `llseek` returns, a position or `-e`, and the file.
pub record Sought : Type 0 where
  pub result : Transfer ℕ
  pub file : ClientFile

-- The calls on a client's directories; `llseek` may be missing. `iterate` is given `ctx->pos`, from which it
-- lists.
pub record DirOps (c : Client) : Type 0 where
  pub llseek : Option (ClientFile → ℕ → ℕ → Sought)
  pub default_llseek : ClientFile → ℕ → ℕ → Sought
  pub iterate : c.State → ClientFile → ℕ → Iterated c.State

-- An `int` that is given a `loff_t`, read as a position or as `-e`.
abbrev pub signed : ℕ → Transfer ℕ
signed x = if ltb x (2 ^ 31) then moved x else refused_io (2 ^ 32 - x)

unfoldable pub as_int : Transfer ℕ → Transfer ℕ
as_int (moved pos) = signed (pos % 2 ^ 32)
as_int (refused_io e) = refused_io e

-- What a call returns to the VFS, and the directory as it leaves it.
pub record Listed (A : Type 0) : Type 0 where
  pub result : A
  pub file : OpenFile

-- What a listing has returned, emitted, and left in `ctx->pos`.
pub record Emitted : Type 0 where
  pub status : Status
  pub entries : List ℕ
  pub ctx_pos : ℕ

module _ (c : Client) (ops : DirOps c) where
  abbrev pub seek_with : Option (ClientFile → ℕ → ℕ → Sought) → ClientFile → ℕ → ℕ → Sought
  seek_with (some llseek) = llseek
  seek_with none = ops.default_llseek

  unfoldable pub seek_at_cont : ℕ → Head → OpenFile → ℕ → OpenCont → C c.State (Listed (Transfer ℕ))
  unfolding close_cont_file as_int
  seek_at_cont fuel head file origin o =
      let a = seek_with ops.llseek o.client_file o.ppos origin in
      do
        file ← close_cont_file c fuel head file a.file o.cont
        pure (record { result = as_int a.result; file = file })

  abbrev pub or_refused :
      {A : Type 0}
      → (ℕ → A)
      → OpenFile
      → Ret OpenCont
      → (OpenCont → C c.State (Listed A))
      → C c.State (Listed A)
  or_refused refused file (ok o) f w = f o w
  or_refused refused file (err e) f w = (ok (record { result = refused e; file = file }), w)
  or_refused refused file bug f w = (bug, w)
  or_refused refused file out_of_fuel f w = (out_of_fuel, w)

  -- The offset is made relative to the continuation that holds it.
  unfoldable pub chunkfs_dir_llseek : ℕ → Head → OpenFile → ℕ → ℕ → C c.State (Listed (Transfer ℕ))
  unfolding open_cont_file seek_at_cont
  chunkfs_dir_llseek fuel head file offset origin w =
      let (r, w') = open_cont_file c fuel head offset w in
      or_refused refused_io file r (seek_at_cont fuel head file origin) w'

  -- `-ENODATA` counts as the end of the directory.
  abbrev pub listed : Status → Status
  listed success = success
  listed (failure e) = if e == enodata then success else failure e

  -- `ctx->pos` is not made relative to the continuation.
  unfoldable pub iterate_at_cont : ℕ → Head → OpenFile → ℕ → OpenCont → C c.State (Listed Emitted)
  unfolding close_cont_file
  iterate_at_cont fuel head file ctx_pos o w =
      let a = ops.iterate w.fs o.client_file ctx_pos in
      (do
        file ← close_cont_file c fuel head file a.file o.cont
        pure (record {
          result = record { status = listed a.status; entries = a.entries; ctx_pos = a.ctx_pos };
          file = file;
        }))
        (record w { fs = a.fs })

  unfoldable pub chunkfs_iterate : ℕ → Head → OpenFile → ℕ → C c.State (Listed Emitted)
  unfolding open_cont_file iterate_at_cont
  chunkfs_iterate fuel head file ctx_pos w =
      let (r, w') = open_cont_file c fuel head file.f_pos w in
      or_refused (λ e. record { status = failure e; entries = []; ctx_pos = ctx_pos }) file r
        (iterate_at_cont fuel head file ctx_pos) w'
