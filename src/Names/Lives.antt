-- ===== src/Names/Lives.antt =====
-- namei.c and file.c together: a file from its creation on.
use chunkfs.Base.{
  ℕ, ◌-◌, ◌<◌, ◌≡◌, refl, sym, ◌∙◌, inl, inr, false, none, some, List, [], ◌∷◌, arith, length,
}
use mathlib.Core.Path.{subst, fun_ext}
use chunkfs.Kernel.{ok}
use chunkfs.Client.{Dentry, Inode, Status, success, Client, XattrLaws}
use chunkfs.Cont.{Continuation, Head, World}
use chunkfs.Cont.Attributes.{Settable, set_cont_data_ok, set_cont_data_keeps}
use chunkfs.Create.Restart.{initial_data}
use chunkfs.Walk.Path.{HasMemory}
use chunkfs.Walk.Search.{end_from}
use chunkfs.File.{OpenFile}
use chunkfs.File.Overwriting.{Bytes}
use chunkfs.File.View.{ByteLaws}
use chunkfs.File.Sizes.{InodePath}
use chunkfs.File.Opening.{Openable}
use chunkfs.File.Grows.{GrowLaws}
use chunkfs.File.Session.{Event}
use chunkfs.File.Life.{AnsweredGrowing, final_size, Life, shown, Kept, Life-refines}
use chunkfs.Names.{Dirs, Node, regular, file_fops, set_inode_ops, chunkfs_mknod}
use chunkfs.Names.Making.{
  Entry, behind_op, made_world, made_first, made_node, made_shown, made_path, made_inodes,
  make_node_done,
}

-- What a file is when the client has just made it: empty, and zeros throughout.
pub record IsNew (c : Client) (held : c.State → Dentry → Bytes) (sizes : c.State → Dentry → ℕ)
    (s : c.State) (d : Dentry) : Type 0 where
  pub memory : HasMemory c
  pub openable : Openable c
  pub bytes : ByteLaws c held sizes
  pub grow : GrowLaws c held sizes
  pub empty : sizes s d ≡ 0
  pub blank : (o : ℕ) → held s d o ≡ 0

-- What the calls since the creation amount to: those on a sequence of 40960 zeros.
abbrev pub FromZero :
    (c : Client)
    → (c.State → Dentry → Bytes)
    → (c.State → Dentry → ℕ)
    → Head
    → ℕ
    → World c.State
    → List Continuation
    → List Event
    → Type 0
FromZero c held sizes head fuel w ns es =
    AnsweredGrowing 40960 (λ o. 0) es (shown c held sizes head fuel w ns)
    × (end_from 0 ns ≡ final_size 40960 es)
    × Kept c held sizes head fuel w ns

module _ (c : Client) (dirs : Dirs c) (held : c.State → Dentry → Bytes)
    (sizes : c.State → Dentry → ℕ) (fuel : ℕ) (dir : Head) (before : OpenFile) (d : Dentry)
    (s : c.State) (w : World c.State) (is : List Inode) (laws : XattrLaws c) (settable : Settable c)
    (entry : Entry c dir s d is (behind_op s w)) (new : IsNew c held sizes s d) where
  abbrev pub made : World c.State
  made = made_world c dirs laws settable dir before d s w is entry

  abbrev pub n : Continuation
  n = made_first c dirs laws settable dir before d s w is entry

  abbrev pub node : Node
  node = made_node c dirs laws settable dir before d s w is entry

  abbrev pub node_dir : OpenFile
  node_dir = made_shown c dirs laws settable dir before d s w is entry

  -- What `setxattr` leaves alone is as the operation left it.
  kept :
      {A : Type 0} (get : c.State → A)
      → ((x x' : c.State) (i : Inode) (name v : List ℕ) (r : Status)
          → c.setxattr x i name v ≡ (r, x')
          → get x' ≡ get x)
      → get made.fs ≡ get s
  kept get k =
      set_cont_data_keeps c get k (c.d_inode s d) initial_data (behind_op s w)
        (set_cont_data_ok c (c.d_inode s d) initial_data (behind_op s w) settable)

  own : c.d_inode made.fs d ≡ c.d_inode s d
  own = kept (λ x. c.d_inode x d) (λ x x' i name v r e. laws.d_inode_set x x' i name v r d e)

  made_empty : sizes made.fs d ≡ 0
  made_empty =
      kept (λ x. sizes x d) (λ x x' i name v r e. new.grow.set_sizes x x' i name v r d e)
      ∙ new.empty

  pub made-Kept : 1 < fuel → Kept c held sizes node.head fuel made (n ∷ [])
  made-Kept one = record {
    file = record {
      memory = new.memory;
      openable = new.openable;
      path = made_path c dirs laws settable dir before d s w is entry;
      adjoin = (refl, tt);
      size = omega arith;
      rounds = omega arith;
      inodes =
          subst (λ i. InodePath c made.fs node.head none (i ∷ [])) (sym own)
            (made_inodes c dirs laws settable dir before d s w is entry);
      inode_rounds = omega arith;
    };
    laws = new.bytes;
    bounded = λ m has. elim has [
      | inl e ↦ rw e (omega (arith, made_empty))
      | inr nothing ↦ absurd nothing
    ];
    apart = λ a b p q same. elim p [
      | inl e ↦ elim q [ inl e' ↦ e ∙ sym e' | inr nothing ↦ absurd nothing ]
      | inr nothing ↦ absurd nothing
    ];
  }

  made_zero : shown c held sizes node.head fuel made (n ∷ []) ≡ (λ o. 0)
  made_zero = fun_ext (λ o.
      let zero : held made.fs d (o - 0) ≡ 0 =
        kept (λ x. held x d (o - 0))
          (λ x x' i name v r e. new.grow.set_held x x' i name v r d (o - 0) e)
        ∙ new.blank (o - 0) in
      ground arith)

  made-Life :
      (w'' : World c.State) (ns : List Continuation) (es : List Event)
      → 1 < fuel
      → Life c held sizes node.head fuel made (n ∷ []) es w'' ns
      → FromZero c held sizes node.head fuel w'' ns es
  made-Life w'' ns es one life =
      let (answered, size, good) =
        Life-refines c held sizes node.head fuel made w'' (n ∷ []) ns es (made-Kept one) life in
      (
        subst (λ f. AnsweredGrowing 40960 f es (shown c held sizes node.head fuel w'' ns)) made_zero
            answered,
        size,
        good,
      )

  -- `chunkfs_mknod`, where `new_inode` and the client's `mknod` succeed, no attribute is refused,
  -- and what the client makes is a regular file, empty and blank (`Entry`, `IsNew`), with fuel
  -- above 1 and above the number of the directory's inodes, returns an inode with the operations of
  -- files. Whatever opens, reads, writes and syncs of the new file return afterwards, it answers
  -- them as one sequence of bytes does that began as 40960 zeros (`Life`, on the conditions of
  -- growth for writes at the end), and it keeps to its ranges.
  pub chunkfs_mknod-Life :
      (mode dev : ℕ) (w'' : World c.State) (ns : List Continuation) (es : List Event)
      → dirs.new_inode w.calls ≡ some false
      → dirs.mknod w.fs dir.client_inode d mode dev ≡ (success, s)
      → dirs.kind made.fs (c.d_inode s d) ≡ regular
      → 1 < fuel
      → length is < fuel
      → Life c held sizes node.head fuel made (n ∷ []) es w'' ns
      → (chunkfs_mknod c dirs fuel dir before d mode dev w ≡ (ok (node, node_dir), made))
        × (node.i_fop ≡ file_fops)
        × FromZero c held sizes node.head fuel w'' ns es
  unfolding chunkfs_mknod set_inode_ops
  chunkfs_mknod-Life mode dev w'' ns es good op kind one rounds life = (
    make_node_done c dirs laws settable dir before d s w is entry fuel
        (λ x. dirs.mknod x dir.client_inode d mode dev) good op one rounds,
    rw kind refl,
    made-Life w'' ns es one life,
  )
