-- ===== src/Tests/Lookups.antt =====
-- A lookup of the file of two continuations, one without memory, and calls on directories, links and
-- attributes.
use chunkfs.Base.{
  ◌+◌, ◌%◌, ◌^◌, ◌<◌, ◌≡◌, ◌⊎◌, ◌↔◌, inl, inr, refl, sym, none, some, true, false, [], ◌∷◌, arith,
  ◌==◌, if◌then◌else◌,
}
use mathlib.Core.Path.{subst}
use chunkfs.Uino.{uino_to_chunk_id, make_uino}
use chunkfs.Mount.{find_chunk, find_in_devs, find_in_chunks}
use chunkfs.Kernel.{ok, bug}
use chunkfs.Client.{moved, success, failure}
use chunkfs.File.{OpenFile}
use chunkfs.Cont.{Continuation, Head}
use chunkfs.Walk.Path.{ContPath}
use chunkfs.Walk.{get_cont_at_offset}
use chunkfs.Walk.Search.{Holder}
use chunkfs.Walk.FirstCover.{EndsAs, first_cover, get_cont_at_offset-first_cover}
use chunkfs.Create.Kept.{with_data}
use chunkfs.Create.Restart.{initial_data}
use chunkfs.File.Opening.{at_offset, closed}
use chunkfs.Names.{Node, head_of, file_iops, file_fops}
use chunkfs.Dentries.{Pins, Nameidata, copy_down_nd, copy_nd}
use chunkfs.Dentries.Lookup.{Dcache, hooked, unhooked, null, chunkfs_lookup}
use chunkfs.Dentries.Balance.{LooksUp, chunkfs_lookup-LooksUp}
use chunkfs.Dentries.Outcomes.{Exists, chunkfs_lookup_cuts, chunkfs_lookup_no_memory}
use chunkfs.Symlink.{Links, Walks, chunkfs_follow_link, chunkfs_follow_link_name}
use chunkfs.Directory.{DirOps, Listed, Emitted, chunkfs_iterate, chunkfs_dir_llseek}
use chunkfs.Directory.Listing.{Told, Tells, chunkfs_iterate_lem, chunkfs_dir_llseek_iff}
use chunkfs.Inodes.{AttrOps, chunkfs_setattr}
use chunkfs.Inodes.Attributes.{SetsAttr, copies, chunkfs_setattr_lem}
use chunkfs.Tests.Clients.{head, stored, world, first_cont, second_cont, file}
use chunkfs.Tests.Store.{Store, client, memory, laws, settable, chunk}
use chunkfs.Tests.Entries.{dirs}
use chunkfs.Tests.Files.{two, open_file, whole, inodes, stays}

abbrev pub pins : Pins Store
pins = record { world = world; d_fsdata = none; objs = 0; drefs = 0; mnts = 0 }

abbrev dcache : Dcache client
dcache = record {
  d_alloc_name = λ n. some 5;
  lookup = λ s dir d flags. (null, s);
  is_negative = λ s d. false;
}

abbrev no_dentries : Dcache client
no_dentries = record {
  d_alloc_name = λ n. none;
  lookup = λ s dir d flags. (null, s);
  is_negative = λ s d. false;
}

chunkfs_lookup-LooksUp_example : LooksUp pins (chunkfs_lookup client dirs dcache 3 head pins)
chunkfs_lookup-LooksUp_example = chunkfs_lookup-LooksUp client dirs dcache 3 head pins refl

chunkfs_lookup_no_memory_example :
    ((chunkfs_lookup client dirs no_dentries 3 head pins).0 ≡ bug)
    ⊎ ((chunkfs_lookup client dirs no_dentries 3 head pins).0 ≡ ok unhooked)
chunkfs_lookup_no_memory_example =
    chunkfs_lookup_no_memory client dirs no_dentries 3 head pins refl (inr (inr refl))

abbrev head_here : Head
head_here = head_of client dirs 5 5 (uino_to_chunk_id head.i_ino)

same_head : head_here ≡ head
unfolding uino_to_chunk_id make_uino
same_head = refl

Exists-here : Exists client dirs dcache head 5 stored pins
unfolding uino_to_chunk_id find_chunk find_in_devs find_in_chunks
Exists-here = record {
  fsdata = refl;
  memory = memory;
  laws = laws;
  settable = settable;
  chunk = chunk 1;
  found = refl;
  cloned = refl;
  looked_up = refl;
  positive = refl;
  new_inode = refl;
  ino = omega arith;
  gets = (refl, refl);
}

chunkfs_lookup_cuts_example :
    (node : Node) × (q : Pins Store) × (chunkfs_lookup client dirs dcache 3 head pins
      ≡ (ok (hooked (some node)), q))
    × (node.head ≡ head_here)
    × ContPath client q.world.fs node.head none (with_data first_cont initial_data ∷ [])
    × (node.shown.i_size ≡ client.i_size q.world.fs 5 % 2 ^ 64)
chunkfs_lookup_cuts_example =
    chunkfs_lookup_cuts client dirs dcache 3 head 5 stored pins Exists-here first_cont
      (second_cont ∷ []) (subst (λ h. ContPath client stored h none two) (sym same_head) file)
      (omega arith)

-- A client whose link is called 77.
abbrev links : Links client
links = record {
  readlink = λ s i d n. moved [];
  follow_link = λ s i d nd.
      (0, record nd { saved_names = λ k. if k == nd.depth then 77 else nd.saved_names k });
  put_link = none;
}

abbrev caller_nd : Nameidata
caller_nd = record { path = none; flags = 1; seq = 2; depth = 3; saved_names = λ i. i }

abbrev client_nd : Nameidata
client_nd = record { path = none; flags = 0; seq = 0; depth = 0; saved_names = λ i. 0 }

abbrev walks : Walks
walks = record { nd = caller_nd; client_nd = client_nd }

chunkfs_follow_link_name_example :
    let (cookie, w') = chunkfs_follow_link client links stored 5 5 walks in
    (w'.nd.saved_names 3 ≡ 77) × (w'.nd.saved_names 2 ≡ 2) × (w'.nd.depth ≡ 3) × (w'.nd.path ≡ none)
unfolding copy_down_nd copy_nd
chunkfs_follow_link_name_example =
    chunkfs_follow_link_name client links stored 5 5 walks 77 2 (refl, refl) (omega arith)

-- A directory that is sought in at 3 GiB, and lists two entries at its end.
abbrev dir_ops : DirOps client
dir_ops = record {
  llseek = some (λ f offset origin. record { result = moved 3221225472; file = f });
  default_llseek = λ f offset origin. record { result = moved offset; file = f };
  iterate = λ s f pos. record {
    status = failure 61;
    entries = 8 ∷ (9 ∷ []);
    ctx_pos = pos + 2;
    file = f;
    fs = s;
  };
}

abbrev far : OpenFile
far = record open_file { f_pos = 50000 }

chunkfs_iterate_lem_example :
    (n : Continuation) × Holder 50000 two n
    × (x : Listed Emitted) × ((chunkfs_iterate client dir_ops 3 head far 50000 world).0 ≡ ok x)
    × (let a = dir_ops.iterate stored (at_offset n 50000) 50000 in
        Told a.status x.result.status
        × (x.result.entries ≡ a.entries)
        × (x.result.ctx_pos ≡ a.ctx_pos)
        × (x.file ≡ closed client a.fs (5 ∷ (6 ∷ [])) a.file n))
chunkfs_iterate_lem_example =
    chunkfs_iterate_lem client dir_ops head 3 far 50000 world two (5 ∷ (6 ∷ [])) whole
      (λ s f pos. stays s) (omega arith)

chunkfs_dir_llseek_iff_example :
    Tells (chunkfs_dir_llseek client dir_ops 3 head open_file 100 0 world).0 3221225472
    ↔ (3221225472 < 2 ^ 31)
chunkfs_dir_llseek_iff_example =
    chunkfs_dir_llseek_iff client dir_ops head 3 open_file 100 0 3221225472 world two (5 ∷ (6 ∷ []))
      first_cont whole (record { member = inl refl; from = omega arith; to = omega arith }) refl

abbrev attr_ops : AttrOps client
attr_ops = record {
  set_attrs = λ s i attrs. s;
  write_inode = λ s i. (success, s);
  setattr = none;
  inode_change_ok = λ s i attr. success;
  security_inode_setattr = λ s d attr. success;
  setattr_copy = λ s i attr. s;
  permission = none;
  generic_permission = λ s i mask. success;
  is_new = λ s i. true;
  dentry_of = λ s i. i;
}

abbrev node : Node
node = record { head = head; shown = open_file; i_op = file_iops; i_fop = file_fops }

chunkfs_setattr_lem_example :
    SetsAttr client dirs attr_ops node
      (5 ∷ (6 ∷ []))
      (success, stored)
      (chunkfs_setattr client dirs attr_ops 3 node 420 world)
chunkfs_setattr_lem_example =
    chunkfs_setattr_lem client dirs attr_ops node 3 420 world (5 ∷ (6 ∷ [])) (success, stored)
      (copies refl refl refl refl) inodes (omega arith)

get_cont_at_offset-first_cover_example :
    EndsAs world (first_cover 50000 two) (get_cont_at_offset client 3 head 50000 world)
get_cont_at_offset-first_cover_example =
    get_cont_at_offset-first_cover client memory head 50000 3 world file (omega arith)
