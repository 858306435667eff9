-- ===== src/Tests/Files.antt =====
-- Reads, writes and syncs of the file of two continuations.
use chunkfs.Base.{
  ℕ, ◌+◌, ◌-◌, ◌≡◌, refl, sym, ap, none, some, List, [], ◌∷◌, arith, sub64, if◌then◌else◌,
}
use chunkfs.Decimal.{print_u64, digits_onto}
use chunkfs.Uino.{uino_to_chunk_id, uino_to_ino, make_uino}
use chunkfs.Kernel.{ok}
use chunkfs.Mount.{find_chunk, find_in_devs, find_in_chunks, mount_path}
use chunkfs.Client.{opened, moved}
use chunkfs.Cont.{Continuation, World}
use chunkfs.Walk.{cont_path}
use chunkfs.Walk.Path.{ContPath}
use chunkfs.Walk.Search.{Holder}
use chunkfs.Tests.Clients.{
  head, first_data, second_data, stored, world, first_stored, second_stored, first_cont,
  second_cont, file,
}
use chunkfs.Tests.Store.{
  same, Store, put_bytes, readable, chunk, stands_at_start, client, memory, laws, settable,
  open_laws,
}
use chunkfs.Walk.Same.{Same}
use chunkfs.Walk.Search.{Adjoin}
use chunkfs.Create.{OpenCont, create_continuation}
use chunkfs.Create.Kept.{with_next}
use chunkfs.Create.Opens.{New, new_path}
use chunkfs.Create.Extends.{create_continuation-ContPath}
use chunkfs.File.{
  OpenFile, Returned, copy_up_inode, chunkfs_fsync_file, chunkfs_read, chunkfs_write, write_at_cont,
}
use chunkfs.File.Sizes.{InodePath, over, onward, copy_up_inode-InodePath}
use chunkfs.File.Overwriting.{length-window}
use chunkfs.File.Syncing.{chunkfs_fsync_file-ContPath}
use chunkfs.File.Opening.{closed}
use chunkfs.File.Reading.{Told, chunkfs_read_inside, chunkfs_write_inside}
use chunkfs.File.Opening.{IsFile, at_offset, write_result}
use chunkfs.File.Ends.{count, chunkfs_read_past, chunkfs_read_positions, chunkfs_write_end}

abbrev pub two : List Continuation
two = first_cont ∷ (second_cont ∷ [])

abbrev pub open_file : OpenFile
open_file = record { f_pos = 0; i_size = 0; i_attrs = 0 }

-- The inodes by which the size is summed.
pub inodes : InodePath client stored head none (5 ∷ (6 ∷ []))
unfolding find_chunk find_in_devs find_in_chunks uino_to_chunk_id uino_to_ino
inodes =
    onward (refl, refl)
      (onward
        (record {
          cd = first_data;
          attributes = first_stored;
          more = omega arith;
          chunk = chunk 2;
          found = refl;
          gets = (refl, refl);
        })
        (over second_data second_stored refl))

pub whole : IsFile client head 3 stored two (5 ∷ (6 ∷ []))
whole = record {
  memory = memory;
  openable = λ s d. refl;
  path = file;
  adjoin = (refl, (refl, tt));
  size = omega arith;
  rounds = omega arith;
  inodes = inodes;
  inode_rounds = omega arith;
}

pub written_stays :
    (s : Store) (d : ℕ) (bs : List ℕ) (pos : ℕ) → Same client s (put_bytes s d bs pos)
written_stays s d bs pos = record {
  paths = λ p. refl;
  inodes = λ d. refl;
  attributes = λ i n. refl;
}

pub stays : (s : Store) → Same client s s
stays s = record { paths = λ p. refl; inodes = λ d. refl; attributes = λ i n. refl }

-- A file behind the second continuation, in chunk 3.
abbrev pub grown : Store
grown = record stored {
  names = λ q. if same (new_path second_cont) q then some 8 else stored.names q;
}

pub opens_new : client.filp_open stored (new_path second_cont) ≡ (opened (stands_at_start 8), grown)
unfolding cont_path mount_path print_u64 digits_onto uino_to_ino make_uino
opens_new = refl

pub new : New client head grown (stands_at_start 8) second_cont (first_cont ∷ [])
unfolding find_chunk find_in_devs find_in_chunks make_uino
new = record {
  chunk = chunk 3;
  found = refl;
  chunk_id = omega arith;
  ino = omega arith;
  not_head = omega arith;
  uino = omega arith;
  fits = record { next = omega arith; prev = omega arith; start = omega arith; len = omega arith };
  last_dentry = omega arith;
  last_inode = omega arith;
  others = ((omega arith, omega arith, omega arith), tt);
}

copy_up_inode-InodePath_here :
    copy_up_inode client 3 head 5 open_file world
    ≡ (ok (record { f_pos = 0; i_size = 81920; i_attrs = 0 }), world)
copy_up_inode-InodePath_here =
    copy_up_inode-InodePath client head 3 5 open_file (5 ∷ (6 ∷ [])) world inodes (omega arith)

-- The clients refuse, and the call answers 0.
chunkfs_fsync_file-ContPath_example :
    let (r, w') = chunkfs_fsync_file client 3 head world in (r ≡ ok tt) × (w'.fs ≡ stored)
chunkfs_fsync_file-ContPath_example =
    chunkfs_fsync_file-ContPath client head 3 world two memory (λ s d. stays s) file (omega arith)

chunkfs_read_inside_example :
    (n : Continuation) × Holder 50000 two n
    × (x : Returned (List ℕ)) × ((chunkfs_read client 3 head open_file 10 50000 world).0 ≡ ok x)
    × (let a = client.read stored (at_offset n 50000) 10 (50000 - n.co_cd.cd_start) in
        Told a.result x.result
        × (x.ppos ≡ a.ppos)
        × (x.file ≡ closed client a.fs (5 ∷ (6 ∷ [])) a.file n))
chunkfs_read_inside_example =
    chunkfs_read_inside client head 3 open_file 10 50000 world two (5 ∷ (6 ∷ [])) whole
      (λ s f len pos. stays s) (omega arith)

chunkfs_write_inside_example :
    (n : Continuation) × Holder 50000 two n
    × ((chunkfs_write client 3 head open_file (1 ∷ (2 ∷ [])) 50000 world).0
        ≡ ok (write_result client head 3 open_file stored (5 ∷ (6 ∷ [])) (1 ∷ (2 ∷ [])) 50000 n))
chunkfs_write_inside_example =
    chunkfs_write_inside client head 3 open_file (1 ∷ (2 ∷ [])) 50000 world two (5 ∷ (6 ∷ [])) whole
      (λ s f bs pos. written_stays s f.f_dentry bs pos) (omega arith)

chunkfs_read_past_here :
    let (r, w') = chunkfs_read client 3 head open_file 10 81920 world in
    (r ≡ ok (record { result = moved []; ppos = 81920; file = open_file })) × (w'.fs ≡ stored)
chunkfs_read_past_here =
    chunkfs_read_past client head 3 open_file 10 81920 world two memory file (refl, (refl, tt))
      (omega arith) (omega arith) (omega arith)

chunkfs_read_positions_example :
    (n : Continuation) × Holder 50000 two n
    × (r : Returned (List ℕ)) × ((chunkfs_read client 3 head open_file 10 50000 world).0 ≡ ok r)
    × (r.file.f_pos ≡ 50000)
    × (r.ppos + n.co_cd.cd_start
        ≡ 50000
          + count (client.read stored (at_offset n 50000) 10 (50000 - n.co_cd.cd_start)).result)
chunkfs_read_positions_example =
    chunkfs_read_positions client head 3 open_file 10 50000 world two (5 ∷ (6 ∷ [])) whole
      (λ s f len pos. stays s)
      (record {
        file = λ s f len pos. refl;
        moves = λ s f len pos.
            ap (λ n. pos + n)
              (sym (length-window (s.files f.f_dentry) pos (readable s f.f_dentry len pos)));
      })
      (omega arith)

create_continuation-ContPath_example :
    (o : OpenCont) × (w' : World Store) × (create_continuation client 3 head 81920 world
      ≡ (ok o, w'))
    × ContPath client w'.fs head none
        (first_cont ∷ (with_next second_cont o.cont.co_uino ∷ (o.cont ∷ [])))
    × Adjoin 0 (first_cont ∷ (with_next second_cont o.cont.co_uino ∷ (o.cont ∷ [])))
    × (o.cont.co_cd.cd_start ≡ 81920)
    × (o.ppos ≡ sub64 81920 o.cont.co_cd.cd_start)
create_continuation-ContPath_example =
    create_continuation-ContPath client head 3 81920 (first_cont ∷ []) second_cont world
      (stands_at_start 8) grown laws open_laws memory settable file (refl, (refl, tt)) (omega arith)
      (omega arith) opens_new new

chunkfs_write_end_here :
    (o : OpenCont) × (w' : World Store) × (chunkfs_write client 3 head open_file
        (1 ∷ (2 ∷ []))
        81920
        world
      ≡ write_at_cont client 3 head open_file (1 ∷ (2 ∷ [])) o w')
    × ContPath client w'.fs head none
        (first_cont ∷ (with_next second_cont o.cont.co_uino ∷ (o.cont ∷ [])))
    × Adjoin 0 (first_cont ∷ (with_next second_cont o.cont.co_uino ∷ (o.cont ∷ [])))
    × (o.cont.co_cd.cd_start ≡ 81920)
    × (o.ppos ≡ 0)
chunkfs_write_end_here =
    chunkfs_write_end client head 3 open_file (1 ∷ (2 ∷ [])) (first_cont ∷ []) second_cont world
      (stands_at_start 8) grown laws open_laws memory settable file (refl, (refl, tt)) (omega arith)
      (omega arith) opens_new new
