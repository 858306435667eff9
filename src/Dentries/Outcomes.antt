-- ===== src/Dentries/Outcomes.antt =====
-- namei.c: `chunkfs_lookup` without memory, and of a file that exists.
use chunkfs.Base.{
  ℕ, ◌+◌, ◌%◌, ◌^◌, ◌≡◌, ◌<◌, ◌⊎◌, inl, inr, refl, sym, ap, ◌∙◌, false, Bool-cases, none, some,
  List, [], ◌∷◌, arith,
}
use mathlib.Core.Path.{subst}
use chunkfs.Uino.{uino_to_chunk_id}
use chunkfs.Uino.RoundTrip.{uino_to_chunk_id_arith}
use chunkfs.Kernel.{ok, bug}
use chunkfs.Mount.{ChunkInfo, find_chunk}
use chunkfs.Client.{Dentry, Client, XattrLaws}
use chunkfs.Cont.{Continuation, Head, World}
use chunkfs.Cont.Attributes.{Settable}
use chunkfs.Walk.Path.{ContPath, HasMemory}
use chunkfs.Create.Kept.{with_data}
use chunkfs.Create.Restart.{initial_data, init_cont_data-ContPath}
use chunkfs.File.Sizes.{Gets, sizes_from, copy_up_inode-InodePath}
use chunkfs.Names.{
  Dirs, Node, fresh, head_of, found_inode, chunkfs_new_inode, start_inode, set_inode_ops,
}
use chunkfs.Names.Started.{given, given_init, given_inode, first_inodes}
use chunkfs.Dentries.{Pins, zero_nd, init_dentry, init_nd, remove_dentry, free_dentry, add_dentry}
use chunkfs.Dentries.Lookup.{Dcache, hooked, unhooked, null, chunkfs_lookup}

module _ (c : Client) (dirs : Dirs c) (dcache : Dcache c) (fuel : ℕ) (dir : Head)
    (p : Pins c.State) where
  -- Where memory is missing for the private data of a dentry or for the client's dentry,
  -- `chunkfs_lookup` returns no error: it either runs into a bug or returns NULL with nothing set
  -- up. The dentry had no private data before.
  pub chunkfs_lookup_no_memory :
      p.d_fsdata ≡ none
      → (c.kzalloc p.world.calls ≡ false)
        ⊎ (c.kzalloc (p.world.calls + 1) ≡ false)
        ⊎ (dcache.d_alloc_name (p.world.calls + 2) ≡ none)
      → ((chunkfs_lookup c dirs dcache fuel dir p).0 ≡ bug)
        ⊎ ((chunkfs_lookup c dirs dcache fuel dir p).0 ≡ ok unhooked)
  unfolding chunkfs_lookup init_dentry free_dentry remove_dentry
  chunkfs_lookup_no_memory e lacks =
      let two : p.world.calls + 1 + 1 ≡ p.world.calls + 2 = omega arith in
      elim (Bool-cases (c.kzalloc p.world.calls)) [
        | inl one ↦ elim (Bool-cases (c.kzalloc (p.world.calls + 1))) [
          | inl more ↦ elim lacks [
            | inl no_dp ↦ cc (no_dp, one)
            | inr (inl no_nd) ↦ cc (no_nd, more)
            | inr (inr no_dentry) ↦ rw (e, one, more, two, no_dentry) (inr refl)
          ]
          | inr no_nd ↦ rw (e, one, no_nd) (inl refl)
        ]
        | inr no_dp ↦ rw (e, no_dp) (inl refl)
      ]

-- What a lookup of an existing file relies on; `s` is the clients' state behind the client's `lookup`.
pub record Exists (c : Client) (dirs : Dirs c) (dcache : Dcache c) (dir : Head) (d : Dentry)
    (s : c.State) (p : Pins c.State) : Type 0 where
  pub fsdata : p.d_fsdata ≡ none
  pub memory : HasMemory c
  pub laws : XattrLaws c
  pub settable : Settable c
  pub chunk : ChunkInfo
  pub found : find_chunk c.pool (uino_to_chunk_id dir.i_ino) ≡ some chunk
  pub cloned : dcache.d_alloc_name (p.world.calls + 2) ≡ some d
  pub looked_up : dcache.lookup p.world.fs dir.client_inode d 0 ≡ (null, s)
  pub positive : dcache.is_negative s d ≡ false
  pub new_inode : dirs.new_inode (p.world.calls + 2) ≡ some false
  pub ino : c.i_ino (c.d_inode s d) < 2 ^ 28
  pub gets : Gets c (c.i_sb (c.d_inode s d)) (c.i_ino (c.d_inode s d)) (c.d_inode s d)

module _ (c : Client) (dirs : Dirs c) (dcache : Dcache c) (fuel : ℕ) (dir : Head) (d : Dentry)
    (s : c.State) (p : Pins c.State) (here : Exists c dirs dcache dir d s p) where
  abbrev id : ℕ
  id = uino_to_chunk_id dir.i_ino

  abbrev looked : World c.State
  looked = record {
    fs = s;
    conts = p.world.conts;
    inodes = p.world.inodes;
    calls = p.world.calls + 1 + 1;
  }

  abbrev inode_held : World c.State
  inode_held = record looked { inodes = p.world.inodes + 1; calls = p.world.calls + 1 + 1 + 1 }

  abbrev reset : World c.State
  reset = given c dirs here.laws here.settable d id here.chunk here.found inode_held

  abbrev found_node : Node
  found_node = record {
    head = head_of c dirs d (c.d_inode s d) id;
    shown = record {
      f_pos = 0;
      i_size = sizes_from c reset.fs 0 (c.d_inode s d ∷ []);
      i_attrs = c.attrs reset.fs (c.d_inode s d);
    };
    i_op = (set_inode_ops (dirs.kind reset.fs (c.d_inode s d))).0;
    i_fop = (set_inode_ops (dirs.kind reset.fs (c.d_inode s d))).1;
  }

  found_inode_lem :
      1 < fuel → found_inode c dirs fuel id d false looked ≡ (ok (some found_node), reset)
  unfolding found_inode chunkfs_new_inode start_inode
  found_inode_lem one =
      let good : dirs.new_inode (p.world.calls + 1 + 1) ≡ some false =
        ap dirs.new_inode (omega arith) ∙ here.new_inode in
      let small : id < 16 = omega (arith, uino_to_chunk_id_arith dir.i_ino) in
      rw (
        good,
        given_init c dirs here.laws here.settable d id here.chunk here.found inode_held,
        given_inode c dirs here.laws here.settable d id here.chunk here.found inode_held,
        copy_up_inode-InodePath c (head_of c dirs d (c.d_inode s d) id) fuel (c.d_inode s d) fresh
            (c.d_inode s d ∷ []) reset
            (first_inodes c dirs here.laws here.settable d id here.chunk here.found inode_held small
              here.ino here.gets)
            one,
      )

  looked_up :
      1 < fuel
      → (q : Pins c.State) × (chunkfs_lookup c dirs dcache fuel dir p
          ≡ (ok (hooked (some found_node)), q))
        × (q.world.fs ≡ reset.fs)
  unfolding chunkfs_lookup init_dentry init_nd add_dentry
  looked_up one =
      let alloc : dcache.d_alloc_name (p.world.calls + 1 + 1) ≡ some d =
        ap dcache.d_alloc_name (omega arith) ∙ here.cloned in
      (
        record {
          world = reset;
          d_fsdata = some (record {
            dp_client_dentry = some d;
            dp_client_nd = record zero_nd {
              path = some (record { dentry = d; mnt = here.chunk.ci_mnt.mnt });
            };
          });
          objs = p.objs + 1 + 1;
          drefs = p.drefs + 1 + 1;
          mnts = p.mnts + 1;
        },
        rw (
          here.fsdata,
          here.memory.kzalloc p.world.calls,
          here.memory.kzalloc (p.world.calls + 1),
          alloc,
          here.found,
          here.looked_up,
          here.positive,
          found_inode_lem one,
        ),
        refl,
      )

  -- Looking up a file that has continuations, where the client finds it and nothing fails
  -- (`Exists`), with fuel above 1, sets up an inode of chunkfs, and leaves the file with its first
  -- continuation alone, which then holds the first 40960 bytes: all others are cut off, and the
  -- size is the first client's modulo `2 ^ 64`.
  pub chunkfs_lookup_cuts :
      (n : Continuation) (ns : List Continuation)
      → ContPath c s (head_of c dirs d (c.d_inode s d) id) none (n ∷ ns)
      → 1 < fuel
      → (node : Node) × (q : Pins c.State) × (chunkfs_lookup c dirs dcache fuel dir p
          ≡ (ok (hooked (some node)), q))
        × (node.head ≡ head_of c dirs d (c.d_inode s d) id)
        × ContPath c q.world.fs node.head none (with_data n initial_data ∷ [])
        × (node.shown.i_size ≡ c.i_size q.world.fs (c.d_inode s d) % 2 ^ 64)
  chunkfs_lookup_cuts n ns path one =
      let (q, done, fs) = looked_up one in
      (
        found_node,
        q,
        done,
        refl,
        subst (λ fs. ContPath c fs found_node.head none (with_data n initial_data ∷ [])) (sym fs)
            (subst
              (λ (w : World c.State).
                ContPath c w.fs found_node.head none (with_data n initial_data ∷ []))
              (ap (λ x. x.1)
                (given_init c dirs here.laws here.settable d id here.chunk here.found inode_held))
              (init_cont_data-ContPath c found_node.head n ns inode_held here.laws here.settable
                path).1),
        omega (arith, ap (λ fs. c.i_size fs (c.d_inode s d)) fs),
      )
