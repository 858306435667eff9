-- ===== src/Tests/Sessions.antt =====
-- Calls on the file of two continuations, one behind the other.
use chunkfs.Base.{
  ℕ, ◌+◌, ◌≤◌, ◌≡◌, ◌⊎◌, inl, inr, refl, sym, ap, ◌∙◌, List, [], ◌∷◌, arith, length, take, ltb,
  ◌==◌, Bool-cases,
}
use chunkfs.Kernel.{ok}
use chunkfs.Client.{moved}
use chunkfs.Cont.{
  Continuation, World, load_continuation, put_continuation, get_cont_data, get_cont_value,
  parse_value,
}
use chunkfs.Walk.Search.{Has}
use chunkfs.Tests.Clients.{head, stored, world, first_cont, second_cont}
use chunkfs.Tests.Store.{Store, put_bytes, readable, client}
use chunkfs.Tests.Files.{two, open_file, whole, stays, written_stays}
use chunkfs.Uino.{uino_to_chunk_id, uino_to_ino, make_uino}
use chunkfs.Decimal.{print_u64, digits_onto, simple_strtoull, strtoull_from}
use chunkfs.Mount.{find_chunk, find_in_devs, find_in_chunks, mount_path}
use chunkfs.Walk.{
  cont_path, covers, follow, get_next_cont, find_at, get_cont_at_offset, get_next_inode,
}
use chunkfs.Create.{copy_down_file}
use chunkfs.File.{
  Returned, chunkfs_read, chunkfs_write, open_cont_file, close_cont_file, copy_up_file,
  copy_up_inode, total_size, write_at_cont, read_at_cont,
}
use chunkfs.File.View.{delivered, accepted, ByteLaws, view}
use chunkfs.File.Overwriting.{Bytes, window, length-window}
use chunkfs.File.Refines.{Holds, Fits, ReadSo, chunkfs_read_refines}
use chunkfs.File.Written.{WriteSo, chunkfs_write_refines, chunkfs_write_across}
use chunkfs.File.Session.{
  Event, was_read, was_written, Answered, reads, writes, Runs, done, call, session_refines,
}

take_all : (bs : List ℕ) → take (length bs) bs ≡ bs
take_all [] = refl
take_all (b ∷ bs) = ap (λ x. b ∷ x) (take_all bs)

abbrev pub files : Store → ℕ → Bytes
files s = s.files

abbrev pub sizes : Store → ℕ → ℕ
sizes s = s.sizes

pub byte_laws : ByteLaws client files sizes
byte_laws = record {
  read_same = λ s f len pos. stays s;
  read_brings = λ s f len pos.
      let n = length-window (s.files f.f_dentry) pos (readable s f.f_dentry len pos) in
      (ap (window (s.files f.f_dentry) pos) (sym n), ground (arith, n), ground (arith, n));
  read_held = λ s f len pos d o. refl;
  read_sizes = λ s f len pos d. refl;
  write_same = λ s f bs pos. written_stays s f.f_dentry bs pos;
  write_takes = λ s f bs pos. omega arith;
  write_held = λ s f bs pos o. rw (take_all bs) (ground arith);
  write_other = λ s f bs pos d o ne. ground (arith, ne);
  write_sizes = λ s f bs pos d. elim (Bool-cases (d == f.f_dentry)) [
    | inl e ↦ rw e (elim (Bool-cases (ltb (s.sizes f.f_dentry) (pos + length bs))) [
      | inl lt ↦ rw lt (inr (ground arith, omega arith))
      | inr ge ↦ rw ge (inl (ground (arith, e)))
    ])
    | inr e ↦ rw e (inl (omega arith))
  ];
  fsync_same = λ s d. stays s;
  fsync_held = λ s x d o. refl;
  fsync_sizes = λ s x d. refl;
}

pub one_of_two : (n : Continuation) → Has n two → (n ≡ first_cont) ⊎ (n ≡ second_cont)
one_of_two n (inl e) = inl e
one_of_two n (inr (inl e)) = inr e
one_of_two n (inr (inr none_left)) = absurd none_left

pub bounded : (n : Continuation) → Has n two → stored.sizes n.co_dentry ≤ n.co_cd.cd_len
bounded n has = elim (one_of_two n has) [ inl e ↦ rw e (omega arith) | inr e ↦ rw e (omega arith) ]

pub apart : (n m : Continuation) → Has n two → Has m two → n.co_dentry ≡ m.co_dentry → n ≡ m
apart n m hn hm same = elim (one_of_two n hn) [
  | inl a ↦ elim (one_of_two m hm) [
    | inl b ↦ a ∙ sym b
    | inr b ↦ absurd (omega (arith, ap (λ x. x.co_dentry) a, ap (λ x. x.co_dentry) b))
  ]
  | inr a ↦ elim (one_of_two m hm) [
    | inl b ↦ absurd (omega (arith, ap (λ x. x.co_dentry) a, ap (λ x. x.co_dentry) b))
    | inr b ↦ a ∙ sym b
  ]
]

pub held : Holds client files sizes head 3 two (5 ∷ (6 ∷ [])) stored
held = record { file = whole; laws = byte_laws; bounded = bounded; apart = apart }

-- Two bytes from byte 50000 on lie in the second continuation.
fits : Fits two 50000 2
fits n h = elim (one_of_two n h.member) [
  | inl e ↦ absurd (omega (arith, h.to, ap (λ x. x.co_cd.cd_len) e, ap (λ x. x.co_cd.cd_start) e))
  | inr e ↦ omega (arith, ap (λ x. x.co_cd.cd_len) e, ap (λ x. x.co_cd.cd_start) e)
]

chunkfs_read_refines_example :
    (x : Returned (List ℕ)) × (w' : World Store) × (chunkfs_read client 3 head open_file 10 40955
        world
      ≡ (ok x, w'))
    × ReadSo client files sizes head 3 two (5 ∷ (6 ∷ [])) stored 10 40955 (delivered x.result) w'.fs
chunkfs_read_refines_example =
    chunkfs_read_refines client files sizes head 3 two (5 ∷ (6 ∷ [])) open_file 10 40955 world held

chunkfs_write_refines_example :
    (x : Returned ℕ) × (w' : World Store) × (chunkfs_write client 3 head open_file
        (1 ∷ (2 ∷ []))
        50000
        world
      ≡ (ok x, w'))
    × WriteSo client files sizes head 3 two
        (5 ∷ (6 ∷ []))
        stored
        (1 ∷ (2 ∷ []))
        50000
        (accepted x.result)
        w'.fs
chunkfs_write_refines_example =
    chunkfs_write_refines client files sizes head 3 two (5 ∷ (6 ∷ [])) open_file (1 ∷ (2 ∷ []))
      50000 world held (omega arith) fits

-- Two bytes are written from the last byte of the first continuation on; the second byte is not in
-- the file.
chunkfs_write_across_example :
    (x : Returned ℕ) × (w' : World Store) × (chunkfs_write client 3 head open_file
        (1 ∷ (2 ∷ []))
        40959
        world
      ≡ (ok x, w'))
    × (view w'.fs.files two 40960 ≡ view stored.files two 40960)
chunkfs_write_across_example =
    chunkfs_write_across client files sizes head 3 two (5 ∷ (6 ∷ [])) open_file (1 ∷ (2 ∷ [])) 40959
      40960 first_cont world held (omega arith)
      (record { member = inl refl; from = omega arith; to = omega arith }) (inr (omega arith))

-- The world that a write of two bytes at byte 50000 leaves: the file is open at byte 50002 - 40960 of
-- the second continuation.
abbrev behind_write : World Store
behind_write = record {
  fs = put_bytes stored 6 (1 ∷ (2 ∷ [])) 9040;
  conts = 1;
  inodes = 0;
  calls = 3;
}

abbrev written : Returned ℕ
written = record {
  result = moved 2;
  ppos = 9042;
  file = record { f_pos = 50000; i_size = 81920; i_attrs = 0 };
}

writes_two :
    chunkfs_write client 3 head open_file (1 ∷ (2 ∷ [])) 50000 world ≡ (ok written, behind_write)
unfolding chunkfs_write open_cont_file get_cont_at_offset find_at get_next_cont load_continuation
    find_chunk uino_to_chunk_id get_cont_data get_cont_value parse_value print_u64 covers
    simple_strtoull follow cont_path uino_to_ino make_uino put_continuation copy_down_file
    digits_onto strtoull_from close_cont_file copy_up_file copy_up_inode total_size write_at_cont
    find_in_chunks find_in_devs mount_path get_next_inode
writes_two = refl

-- A read of the bytes round it sees the two bytes.
abbrev behind_read : World Store
behind_read = record behind_write { conts = 2; calls = 6 }

abbrev found : Returned (List ℕ)
found = record {
  result = moved (6 ∷ (1 ∷ (2 ∷ (6 ∷ []))));
  ppos = 9043;
  file = record { f_pos = 49999; i_size = 81920; i_attrs = 0 };
}

reads_four : chunkfs_read client 3 head open_file 4 49999 behind_write ≡ (ok found, behind_read)
unfolding chunkfs_read open_cont_file get_cont_at_offset find_at get_next_cont load_continuation
    find_chunk uino_to_chunk_id get_cont_data get_cont_value parse_value print_u64 covers
    simple_strtoull follow cont_path uino_to_ino make_uino put_continuation copy_down_file
    digits_onto strtoull_from close_cont_file copy_up_file copy_up_inode total_size read_at_cont
    find_in_chunks find_in_devs mount_path get_next_inode
reads_four = refl

abbrev calls : List Event
calls = was_written 50000 (1 ∷ (2 ∷ [])) 2 ∷ (was_read 4 49999 (6 ∷ (1 ∷ (2 ∷ (6 ∷ [])))) ∷ [])

runs : Runs client head 3 two world calls behind_read
runs =
    call (writes open_file (1 ∷ (2 ∷ [])) 50000 written (omega arith) fits writes_two refl)
      (call (reads open_file 4 49999 found reads_four refl) done)

session_refines_here :
    Answered 81920 (view stored.files two) calls (view behind_read.fs.files two)
    × Holds client files sizes head 3 two (5 ∷ (6 ∷ [])) behind_read.fs
session_refines_here =
    session_refines client head 3 two files sizes (5 ∷ (6 ∷ [])) world behind_read calls held runs
