-- ===== src/Walk/Same.antt =====
-- States of the clients in which names, inodes and attributes are the same.
use chunkfs.Base.{ℕ, ◌≡◌, sym, ◌∙◌, Option, none, some, List}
use mathlib.Core.Path.{subst}
use chunkfs.Client.{Inode, Dentry, Client}
use chunkfs.Cont.{ContData, Continuation, Head}
use chunkfs.Cont.Attributes.{HasData}
use chunkfs.Walk.Path.{Loaded, Follows, ContPath, last, step}

pub record Same (c : Client) (fs fs' : c.State) : Type 0 where
  pub paths : (path : List ℕ) → c.kern_path fs' path ≡ c.kern_path fs path
  pub inodes : (d : Dentry) → c.d_inode fs' d ≡ c.d_inode fs d
  pub attributes : (i : Inode) (name : List ℕ) → c.getxattr fs' i name ≡ c.getxattr fs i name

module _ (c : Client) (fs fs' : c.State) (same : Same c fs fs') where
  pub HasData-Same : (i : Inode) (cd : ContData) → HasData c fs i cd → HasData c fs' i cd
  HasData-Same i cd h = record {
    next = rw (same.attributes i) h.next;
    prev = rw (same.attributes i) h.prev;
    start = rw (same.attributes i) h.start;
    len = rw (same.attributes i) h.len;
  }

  Loaded-Same : (d : Dentry) (id : ℕ) (n : Continuation) → Loaded c fs d id n → Loaded c fs' d id n
  Loaded-Same d id n l = record {
    chunk = l.chunk;
    found = l.found;
    attributes =
        subst (λ i. HasData c fs' i n.co_cd) (sym (same.inodes d))
          (HasData-Same _ n.co_cd l.attributes);
    same = rw (same.inodes d) l.same;
  }

  Follows-Same :
      (head : Head) (prev : Option Continuation) (n : Continuation)
      → Follows c fs head prev n
      → Follows c fs' head prev n
  Follows-Same head none n f = Loaded-Same _ _ n f
  Follows-Same head (some p) n f = record {
    not_head = f.not_head;
    not_zero = f.not_zero;
    dentry = f.dentry;
    path = same.paths _ ∙ f.path;
    loaded = Loaded-Same _ _ n f.loaded;
  }

  pub ContPath-Same :
      (head : Head) {prev : Option Continuation} {ns : List Continuation}
      → ContPath c fs head prev ns
      → ContPath c fs' head prev ns
  ContPath-Same head (last e) = last e
  ContPath-Same head (step {prev} {n} f path) =
      step (Follows-Same head prev n f) (ContPath-Same head path)
