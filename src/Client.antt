-- ===== src/Client.antt =====
-- The client file systems inside the chunks, as the continuation code reaches them through the VFS.
-- The operations are a parameter: a record of functions on an abstract state. What the code relies on
-- is the record of laws below it.
use chunkfs.Base.{ℕ, ◌≡◌, ◌≢◌, ◌⊎◌, ◌<◌, Bool, Option, List, length}
use chunkfs.Mount.{PoolInfo}

-- Pointers of the kernel to a client's inode and dentry.
abbrev pub Inode : Type 0
Inode = ℕ

abbrev pub Dentry : Type 0
Dentry = ℕ

-- What `generic_getxattr` returns into a buffer of 50 bytes: the bytes, or `-e`.
pub data Xattr : Type 0 where
  value : List ℕ → Xattr
  no_value : ℕ → Xattr

-- What an operation returns that gives a new state: 0, or `-e`.
pub data Status : Type 0 where
  success : Status
  failure : ℕ → Status

-- A `struct file` of a client.
pub record ClientFile : Type 0 where
  pub f_dentry : Dentry
  pub f_pos : ℕ

-- What `filp_open` and `dentry_open` return: the open file, or `-e`.
pub data Opened : Type 0 where
  opened : ClientFile → Opened
  unopened : ℕ → Opened

-- The bytes or the count that `read` or `write` of a client's file returns, or `-e`.
pub data Transfer (A : Type 0) : Type 0 where
  moved : A → Transfer A
  refused_io : ℕ → Transfer A

-- What a client's `read` or `write` leaves: its result, the file, `*ppos`, and the state.
pub record After (S A : Type 0) : Type 0 where
  pub result : Transfer A
  pub file : ClientFile
  pub ppos : ℕ
  pub fs : S

pub record Client : Type 1 where
  pub State : Type 0
  pub i_ino : Inode → ℕ
  pub d_inode : State → Dentry → Inode
  pub getxattr : State → Inode → List ℕ → Xattr
  pub setxattr : State → Inode → List ℕ → List ℕ → Status × State
  pub kern_path : State → List ℕ → Option Dentry
  pub filp_open : State → List ℕ → Opened × State
  pub dentry_open : State → Dentry → Opened
  pub i_size : State → Inode → ℕ
  pub attrs : State → Inode → ℕ
  pub iget : ℕ → ℕ → Option Inode
  pub is_bad : Inode → Bool
  pub i_sb : Inode → ℕ
  pub read : State → ClientFile → ℕ → ℕ → After State (List ℕ)
  pub write : State → ClientFile → List ℕ → ℕ → After State ℕ
  pub fsync : State → Dentry → Status × State
  pub kzalloc : ℕ → Bool
  pub getname : ℕ → Bool
  pub pool : PoolInfo

-- Documented behaviour of the VFS. An attribute that was set is read back if it fits the buffer, and
-- setting it changes no other attribute, no path and no dentry.
pub record XattrLaws (c : Client) : Type 0 where
  pub get_set :
      (s s' : c.State) (i : Inode) (name v : List ℕ)
      → c.setxattr s i name v ≡ (success, s')
      → length v < 50
      → c.getxattr s' i name ≡ value v
  pub get_set_other :
      (s s' : c.State) (i j : Inode) (name other v : List ℕ) (r : Status)
      → c.setxattr s i name v ≡ (r, s')
      → (i ≢ j) ⊎ (name ≢ other)
      → c.getxattr s' j other ≡ c.getxattr s j other
  pub kern_path_set :
      (s s' : c.State) (i : Inode) (name v path : List ℕ) (r : Status)
      → c.setxattr s i name v ≡ (r, s')
      → c.kern_path s' path ≡ c.kern_path s path
  pub d_inode_set :
      (s s' : c.State) (i : Inode) (name v : List ℕ) (r : Status) (d : Dentry)
      → c.setxattr s i name v ≡ (r, s')
      → c.d_inode s' d ≡ c.d_inode s d
