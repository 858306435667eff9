-- ===== src/Cont.antt =====
-- cont.c: continuation data in extended attributes, and continuations in memory. The list lock is not
-- modelled: one operation runs at a time.
pub mod Attributes
use chunkfs.Base.{
  ℕ, zero, suc, ◌+◌, ◌-◌, ◌*◌, Bool, true, false, ◌&&◌, Option, none, some, List, [], ◌∷◌, ◌++◌,
  ltb, leb, ◌==◌, if◌then◌else◌, add64, sub64, length,
}
use chunkfs.Decimal.{print_u64, simple_strtoull}
use chunkfs.Uino.{uino_to_chunk_id, uino_to_ino, make_uino}
use chunkfs.Kernel.{Ret, ok, err, bug, out_of_fuel, enoent, enomem, eio}
use chunkfs.Mount.{ChunkInfo, find_chunk}
use chunkfs.Client.{
  Inode, Dentry, Xattr, value, no_value, Status, success, failure, Opened, opened, unopened, Client,
}

pub record ContData : Type 0 where
  pub cd_next : ℕ
  pub cd_prev : ℕ
  pub cd_start : ℕ
  pub cd_len : ℕ

pub record Continuation : Type 0 where
  pub co_inode : Inode
  pub co_dentry : Dentry
  pub co_mnt : ℕ
  pub co_cd : ContData
  pub co_chunk_id : ℕ
  pub co_uino : ℕ

-- A file as the continuation code sees it: the inode number in the whole file system, and the
-- client's dentry of the head.
pub record Head : Type 0 where
  pub i_ino : ℕ
  pub client_dentry : Dentry
  pub client_inode : Inode

-- The clients' state, how many continuations are allocated, how many new inodes of
-- chunkfs are held, and how many allocations were tried.
pub record World (S : Type 0) : Type 0 where
  pub fs : S
  pub conts : ℕ
  pub inodes : ℕ
  pub calls : ℕ

abbrev pub C : Type 0 → Type 0 → Type 0
C S A = World S → Ret A × World S

module _ {S A : Type 0} where
  abbrev pub pure : A → C S A
  pure a w = (ok a, w)

  abbrev pub raise : ℕ → C S A
  raise e w = (err e, w)

  abbrev pub crash : C S A
  crash w = (bug, w)

  abbrev pub starved : C S A
  starved w = (out_of_fuel, w)

module _ {S A B : Type 0} where
  abbrev pub after : Ret A → (A → C S B) → C S B
  after (ok a) f w = f a w
  after (err e) f w = (err e, w)
  after bug f w = (bug, w)
  after out_of_fuel f w = (out_of_fuel, w)

  infixl 5 ◌>>=◌ ◌>>◌
  abbrev pub ◌>>=◌ : C S A → (A → C S B) → C S B
  ◌>>=◌ m f w = let (r, w') = m w in after r f w'

  abbrev pub ◌>>◌ : C S A → C S B → C S B
  m >> n = m >>= λ _. n

-- Names of attributes, in the "user" name space.
abbrev pub user_name : List ℕ → List ℕ
user_name name = b'u' ∷ (b's' ∷ (b'e' ∷ (b'r' ∷ (b'.' ∷ name))))

abbrev pub next_name : List ℕ
next_name = b'n' ∷ (b'e' ∷ (b'x' ∷ (b't' ∷ [])))

abbrev pub prev_name : List ℕ
prev_name = b'p' ∷ (b'r' ∷ (b'e' ∷ (b'v' ∷ [])))

abbrev pub start_name : List ℕ
start_name = b's' ∷ (b't' ∷ (b'a' ∷ (b'r' ∷ (b't' ∷ []))))

abbrev pub len_name : List ℕ
len_name = b'l' ∷ (b'e' ∷ (b'n' ∷ []))

-- `sizeof(value_str)`.
abbrev pub value_size : ℕ
value_size = 50

-- The value of an attribute: its bytes with a NUL behind them, which must fit the buffer too.
unfoldable pub parse_value : Xattr → Ret ℕ
parse_value (value bytes) =
    if ltb (length bytes) value_size then ok (simple_strtoull (bytes ++ 0 ∷ [])) else bug
parse_value (no_value e) = err e

abbrev pub status_ret : Status → Ret (Unit {0})
status_ret success = ok tt
status_ret (failure e) = err e

module _ (c : Client) where
  -- `get_set_cont_data`, to get and to set.
  unfoldable pub get_cont_value : Inode → List ℕ → C c.State ℕ
  get_cont_value inode name w = (parse_value (c.getxattr w.fs inode (user_name name)), w)

  unfoldable pub set_cont_value : Inode → List ℕ → ℕ → C c.State (Unit {0})
  set_cont_value inode name v w =
      let (status, fs') = c.setxattr w.fs inode (user_name name) (print_u64 v ++ 0 ∷ []) in
      (status_ret status, record w { fs = fs' })

  unfoldable pub set_cont_data : Inode → ContData → C c.State (Unit {0})
  set_cont_data inode cd = do
    set_cont_value inode next_name cd.cd_next
    set_cont_value inode prev_name cd.cd_prev
    set_cont_value inode start_name cd.cd_start
    set_cont_value inode len_name cd.cd_len

  unfoldable pub get_cont_data : Inode → C c.State ContData
  get_cont_data inode = do
    next ← get_cont_value inode next_name
    prev ← get_cont_value inode prev_name
    start ← get_cont_value inode start_name
    len ← get_cont_value inode len_name
    pure (record { cd_next = next; cd_prev = prev; cd_start = start; cd_len = len })

  unfoldable pub put_continuation : C c.State (Unit {0})
  put_continuation w = (ok tt, record w { conts = w.conts - 1 })

  abbrev alloc_cont : C c.State (Unit {0})
  alloc_cont w =
      if c.kzalloc w.calls
      then (ok tt, record w { conts = w.conts + 1; calls = w.calls + 1 })
      else (err enomem, record w { calls = w.calls + 1 })

  abbrev freed_on_error : {A : Type 0} → Ret A → C c.State A
  freed_on_error (ok a) w = (ok a, w)
  freed_on_error (err e) w = (err e, record w { conts = w.conts - 1 })
  freed_on_error bug w = (bug, w)
  freed_on_error out_of_fuel w = (out_of_fuel, w)

  -- `goto out`, where the continuation is freed.
  abbrev or_freed : {A : Type 0} → C c.State A → C c.State A
  or_freed m w = let (r, w') = m w in freed_on_error r w'

  abbrev inode_of : Dentry → C c.State Inode
  inode_of d w = (ok (c.d_inode w.fs d), w)

  abbrev chunk_or_bug : Option ChunkInfo → C c.State ChunkInfo
  chunk_or_bug none = crash
  chunk_or_bug (some ci) = pure ci

  unfoldable pub load_continuation : Dentry → ℕ → C c.State Continuation
  load_continuation client_dentry chunk_id = do
    alloc_cont
    ci ← chunk_or_bug (find_chunk c.pool chunk_id)
    inode ← inode_of client_dentry
    cd ← or_freed (get_cont_data inode)
    pure (record {
      co_inode = inode;
      co_dentry = client_dentry;
      co_mnt = ci.ci_mnt.mnt;
      co_cd = cd;
      co_chunk_id = chunk_id;
      co_uino = make_uino chunk_id (c.i_ino inode);
    })
