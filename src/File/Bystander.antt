-- ===== src/File/Bystander.antt =====
-- A file of chunkfs while another one is worked on: what leaves it as it is.
use chunkfs.Base.{
  ℕ, ◌-◌, ◌≤◌, ◌≡◌, ◌≢◌, inl, inr, refl, ◌∙◌, Option, none, some, List, [], ◌∷◌, arith,
}
use mathlib.Core.Path.{fun_ext}
use chunkfs.Client.{Dentry, Inode, ClientFile, Client}
use chunkfs.Cont.{Continuation, Head}
use chunkfs.Walk.Path.{ContPath, last, step}
use chunkfs.Walk.Search.{Has}
use chunkfs.Walk.Same.{Same, HasData-Same}
use chunkfs.Create.Kept.{PathsKept, Follows-Held, Follows-Kept}
use chunkfs.File.Sizes.{InodePath, over, onward}
use chunkfs.File.Overwriting.{Bytes}
use chunkfs.File.View.{ByteLaws, view_other}
use chunkfs.File.Syncing.{synced}
use chunkfs.File.Refines.{Holds, seen}
use chunkfs.File.Longer.{DataKept, Leads-DataKept, inodes_of}

-- From `fs` to `fs'` the paths still lead where they led, and the continuations have their inodes,
-- their data and their bytes; their clients' files have not grown.
pub record Leaves (c : Client) (held : c.State → Dentry → Bytes) (sizes : c.State → Dentry → ℕ)
    (ms : List Continuation) (fs fs' : c.State) : Type 0 where
  pub paths : PathsKept c fs fs'
  pub inodes : (m : Continuation) → Has m ms → c.d_inode fs' m.co_dentry ≡ c.d_inode fs m.co_dentry
  pub attributes : (m : Continuation) → Has m ms → DataKept c fs fs' (some (m.co_inode))
  pub bytes : (m : Continuation) (o : ℕ) → Has m ms → held fs' m.co_dentry o ≡ held fs m.co_dentry o
  pub lengths : (m : Continuation) → Has m ms → sizes fs' m.co_dentry ≤ sizes fs m.co_dentry

module _ (c : Client) (held : c.State → Dentry → Bytes) (sizes : c.State → Dentry → ℕ)
    (ms : List Continuation) where
  pub Leaves-self : (fs : c.State) → Leaves c held sizes ms fs fs
  Leaves-self fs = record {
    paths = λ path d e. e;
    inodes = λ m has. refl;
    attributes = λ m has cd h. h;
    bytes = λ m o has. refl;
    lengths = λ m has. omega arith;
  }

  pub Leaves-trans :
      (fs fs' fs'' : c.State)
      → Leaves c held sizes ms fs fs'
      → Leaves c held sizes ms fs' fs''
      → Leaves c held sizes ms fs fs''
  Leaves-trans fs fs' fs'' a b = record {
    paths = λ path d e. b.paths path d (a.paths path d e);
    inodes = λ m has. b.inodes m has ∙ a.inodes m has;
    attributes = λ m has cd h. b.attributes m has cd (a.attributes m has cd h);
    bytes = λ m o has. b.bytes m o has ∙ a.bytes m o has;
    lengths = λ m has. omega (arith, a.lengths m has, b.lengths m has);
  }

  pub Leaves-Same :
      (fs fs' : c.State)
      → Same c fs fs'
      → ((m : Continuation) (o : ℕ) → Has m ms → held fs' m.co_dentry o ≡ held fs m.co_dentry o)
      → ((m : Continuation) → Has m ms → sizes fs' m.co_dentry ≤ sizes fs m.co_dentry)
      → Leaves c held sizes ms fs fs'
  Leaves-Same fs fs' same bytes lengths = record {
    paths = λ path d e. same.paths path ∙ e;
    inodes = λ m has. same.inodes m.co_dentry;
    attributes = λ m has cd h. HasData-Same c fs fs' same m.co_inode cd h;
    bytes = bytes;
    lengths = lengths;
  }

  -- A read of any client's file, a sync, and a write to a file that is none of these.
  module _ (laws : ByteLaws c held sizes) (fs : c.State) where
    pub read-Leaves :
        (f : ClientFile) (len pos : ℕ) → Leaves c held sizes ms fs (c.read fs f len pos).fs
    read-Leaves f len pos =
        Leaves-Same fs _ (laws.read_same fs f len pos)
          (λ m o has. laws.read_held fs f len pos m.co_dentry o)
          (λ m has. omega (arith, laws.read_sizes fs f len pos m.co_dentry))

    pub write-Leaves :
        (f : ClientFile) (bs : List ℕ) (pos : ℕ)
        → ((m : Continuation) → Has m ms → m.co_dentry ≢ f.f_dentry)
        → Leaves c held sizes ms fs (c.write fs f bs pos).fs
    write-Leaves f bs pos others =
        Leaves-Same fs _ (laws.write_same fs f bs pos)
          (λ m o has. laws.write_other fs f bs pos m.co_dentry o (others m has))
          (λ m has. elim (laws.write_sizes fs f bs pos m.co_dentry) [
            | inl less ↦ less
            | inr (same, most) ↦ absurd (others m has same)
          ])

    sync-Leaves : (d : Dentry) → Leaves c held sizes ms fs (c.fsync fs d).1
    sync-Leaves d =
        Leaves-Same fs _ (laws.fsync_same fs d) (λ m o has. laws.fsync_held fs d m.co_dentry o)
          (λ m has. omega (arith, laws.fsync_sizes fs d m.co_dentry))

  pub synced-Leaves :
      (laws : ByteLaws c held sizes) (ns : List Continuation) (fs : c.State)
      → Leaves c held sizes ms fs (synced c fs ns)
  synced-Leaves laws [] fs = Leaves-self fs
  synced-Leaves laws (n ∷ ns) fs =
      Leaves-trans fs (c.fsync fs n.co_dentry).1 _ (sync-Leaves laws fs n.co_dentry)
        (synced-Leaves laws ns (c.fsync fs n.co_dentry).1)

module _ (c : Client) (held : c.State → Dentry → Bytes) (sizes : c.State → Dentry → ℕ) (head : Head)
    (fs fs' : c.State) where
  ContPath-Leaves :
      (prev : Option Continuation) (ms : List Continuation)
      → Leaves c held sizes ms fs fs'
      → ContPath c fs head prev ms
      → ContPath c fs' head prev ms
  ContPath-Leaves prev [] l (last e) = last e
  ContPath-Leaves prev (m ∷ ms) l (step f rest) =
      step
        (Follows-Kept c fs fs' head prev m m.co_cd l.paths f (record {
          inode = l.inodes m (inl refl);
          has = l.attributes m (inl refl) m.co_cd (Follows-Held c fs head prev m f).1;
        }))
        (ContPath-Leaves (some m) ms
          (record {
            paths = l.paths;
            inodes = λ x has. l.inodes x (inr has);
            attributes = λ x has. l.attributes x (inr has);
            bytes = λ x o has. l.bytes x o (inr has);
            lengths = λ x has. l.lengths x (inr has);
          })
          rest)

  InodePath-Leaves :
      (prev : Option Inode) (ms : List Continuation)
      → DataKept c fs fs' prev
      → ((m : Continuation) → Has m ms → DataKept c fs fs' (some (m.co_inode)))
      → InodePath c fs head prev (inodes_of ms)
      → InodePath c fs' head prev (inodes_of ms)
  InodePath-Leaves prev [] kept all (over {i} cd h e) = over cd (kept cd h) e
  InodePath-Leaves prev (m ∷ ms) kept all (onward l rest) =
      onward (Leads-DataKept c fs fs' head prev m.co_inode kept l)
        (InodePath-Leaves (some (m.co_inode)) ms (all m (inl refl)) (λ x has. all x (inr has)) rest)

  -- Such a file shows the same bytes, and keeps to its ranges.
  pub Holds-Leaves :
      (fuel : ℕ) (ms : List Continuation)
      → Leaves c held sizes ms fs fs'
      → Holds c held sizes head fuel ms (inodes_of ms) fs
      → (seen c held sizes head fuel ms (inodes_of ms) fs'
          ≡ seen c held sizes head fuel ms (inodes_of ms) fs)
        × Holds c held sizes head fuel ms (inodes_of ms) fs'
  Holds-Leaves fuel ms l h = (
    fun_ext (λ o.
        view_other (held fs) (held fs') 0 ms o h.file.adjoin (omega arith)
          (λ m has lo hi. l.bytes m (o - m.co_cd.cd_start) has)),
    record {
      file = record {
        memory = h.file.memory;
        openable = h.file.openable;
        path = ContPath-Leaves none ms l h.file.path;
        adjoin = h.file.adjoin;
        size = h.file.size;
        rounds = h.file.rounds;
        inodes = InodePath-Leaves none ms tt l.attributes h.file.inodes;
        inode_rounds = h.file.inode_rounds;
      };
      laws = h.laws;
      bounded = λ m has. omega (arith, l.lengths m has, h.bounded m has);
      apart = h.apart;
    },
  )
