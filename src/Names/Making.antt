-- ===== src/Names/Making.antt =====
-- namei.c: what create, symlink, mkdir and mknod leave, and what they give back when they fail.
use chunkfs.Base.{ℕ, ◌+◌, ◌%◌, ◌^◌, ◌≡◌, ◌<◌, refl, false, none, some, List, [], ◌∷◌, arith, length}
use chunkfs.Uino.{uino_to_chunk_id, make_uino}
use chunkfs.Uino.RoundTrip.{uino_to_chunk_id_arith}
use chunkfs.Kernel.{ok}
use chunkfs.Mount.{ChunkInfo, find_chunk}
use chunkfs.Client.{Inode, Dentry, Status, success, Client, XattrLaws}
use chunkfs.Cont.{Continuation, Head, World, set_cont_data}
use chunkfs.Cont.Attributes.{Settable}
use chunkfs.Walk.Path.{ContPath}
use chunkfs.Create.Restart.{initial_data}
use chunkfs.File.{OpenFile}
use chunkfs.File.Sizes.{Gets, InodePath, sizes_from, copy_up_inode-InodePath}
use chunkfs.Names.{
  Dirs, Node, head_of, fresh, start_inode, make_node, chunkfs_new_inode, set_inode_ops,
}
use chunkfs.Names.Started.{
  set_cont_data_counts, given, given_init, given_inode, first, first_path, first_inodes,
}

-- What is done once the client has made the inode.
pub record Entry (c : Client) (dir : Head) (s : c.State) (d : Dentry) (is : List Inode)
    (v : World c.State) : Type 0 where
  pub chunk : ChunkInfo
  pub found : find_chunk c.pool (uino_to_chunk_id dir.i_ino) ≡ some chunk
  pub ino : c.i_ino (c.d_inode s d) < 2 ^ 28
  pub gets : Gets c (c.i_sb (c.d_inode s d)) (c.i_ino (c.d_inode s d)) (c.d_inode s d)
  pub inodes : InodePath c (set_cont_data c (c.d_inode s d) initial_data v).1.fs dir none is

-- The world behind the client's operation, in the state `s`.
abbrev pub behind_op : {S : Type 0} → S → World S → World S
behind_op s w = record w { fs = s; inodes = w.inodes + 1; calls = w.calls + 1 }

module _ (c : Client) (dirs : Dirs c) (laws : XattrLaws c) (settable : Settable c) (dir : Head)
    (shown : OpenFile) (d : Dentry) (s : c.State) (w : World c.State) (is : List Inode)
    (entry : Entry c dir s d is (behind_op s w)) where
  abbrev id : ℕ
  id = uino_to_chunk_id dir.i_ino

  -- The world behind the operation, the one continuation of what was made, and its inode.
  abbrev pub made_world : World c.State
  made_world = given c dirs laws settable d id entry.chunk entry.found (behind_op s w)

  abbrev pub made_first : Continuation
  made_first = first c dirs laws settable d id entry.chunk entry.found (behind_op s w)

  abbrev pub made_node : Node
  made_node = record {
    head = head_of c dirs d (c.d_inode s d) id;
    shown = record {
      f_pos = 0;
      i_size = sizes_from c made_world.fs 0 (c.d_inode s d ∷ []);
      i_attrs = c.attrs made_world.fs (c.d_inode s d);
    };
    i_op = (set_inode_ops (dirs.kind made_world.fs (c.d_inode s d))).0;
    i_fop = (set_inode_ops (dirs.kind made_world.fs (c.d_inode s d))).1;
  }

  -- What the directory shows then.
  abbrev pub made_shown : OpenFile
  made_shown = record shown {
    i_size = sizes_from c made_world.fs 0 is;
    i_attrs = c.attrs made_world.fs dir.client_inode;
  }

  small_id : id < 16
  small_id = omega (arith, uino_to_chunk_id_arith dir.i_ino)

  pub made_path : ContPath c made_world.fs made_node.head none (made_first ∷ [])
  made_path =
      first_path c dirs laws settable d id entry.chunk entry.found (behind_op s w) small_id
        entry.ino entry.gets

  pub made_inodes : InodePath c made_world.fs made_node.head none (c.d_inode s d ∷ [])
  made_inodes =
      first_inodes c dirs laws settable d id entry.chunk entry.found (behind_op s w) small_id
        entry.ino entry.gets

  pub make_node_done :
      (fuel : ℕ) (op : c.State → Status × c.State)
      → dirs.new_inode w.calls ≡ some false
      → op w.fs ≡ (success, s)
      → 1 < fuel
      → length is < fuel
      → make_node c dirs fuel dir shown d op w ≡ (ok (made_node, made_shown), made_world)
  unfolding make_node chunkfs_new_inode start_inode
  make_node_done fuel op good made one rounds = rw (
    good,
    made,
    given_init c dirs laws settable d id entry.chunk entry.found (behind_op s w),
    given_inode c dirs laws settable d id entry.chunk entry.found (behind_op s w),
    copy_up_inode-InodePath c made_node.head fuel (c.d_inode s d) fresh (c.d_inode s d ∷ [])
        made_world made_inodes (omega arith),
    copy_up_inode-InodePath c dir fuel dir.client_inode shown is made_world entry.inodes rounds,
  )

-- Symlink, mkdir and mknod, where `new_inode` and the client's operation succeed, no attribute is
-- refused, the client's inode number fits 28 bits and the fuel is enough (`Entry`): the new file
-- has one continuation, with the data of a new file, in the chunk of the directory; its inode
-- number is made of that chunk and the client's number, its size is the client's modulo `2 ^ 64`,
-- the directory's size is the sum over its continuations, and one inode more is held.
pub make_node-ContPath :
    (c : Client) (dirs : Dirs c) (fuel : ℕ) (dir : Head) (shown : OpenFile) (d : Dentry)
    (op : c.State → Status × c.State) (s : c.State) (w : World c.State) (is : List Inode)
    → XattrLaws c
    → Settable c
    → dirs.new_inode w.calls ≡ some false
    → op w.fs ≡ (success, s)
    → Entry c dir s d is (behind_op s w)
    → 1 < fuel
    → length is < fuel
    → (node : Node) × (shown' : OpenFile) × (w' : World c.State) × (n : Continuation) × (make_node c
          dirs fuel dir shown d op w
        ≡ (ok (node, shown'), w'))
      × ContPath c w'.fs node.head none (n ∷ [])
      × (n.co_cd ≡ initial_data)
      × (node.head.i_ino ≡ make_uino (uino_to_chunk_id dir.i_ino) (c.i_ino (c.d_inode s d)))
      × (node.shown.i_size ≡ c.i_size w'.fs (c.d_inode s d) % 2 ^ 64)
      × (shown'.i_size ≡ sizes_from c w'.fs 0 is)
      × (w'.inodes ≡ w.inodes + 1)
make_node-ContPath c dirs fuel dir shown d op s w is laws settable good made entry one rounds = (
  made_node c dirs laws settable dir shown d s w is entry,
  made_shown c dirs laws settable dir shown d s w is entry,
  made_world c dirs laws settable dir shown d s w is entry,
  made_first c dirs laws settable dir shown d s w is entry,
  make_node_done c dirs laws settable dir shown d s w is entry fuel op good made one rounds,
  made_path c dirs laws settable dir shown d s w is entry,
  refl,
  refl,
  omega arith,
  refl,
  set_cont_data_counts c (c.d_inode s d) initial_data (behind_op s w) settable,
)
