-- ===== src/Tests/Lives.antt =====
-- Files over several calls: one that grows, and one from its creation on.
use chunkfs.Base.{ℕ, ◌<◌, ◌≡◌, inl, inr, refl, ap, List, [], ◌∷◌, arith}
use chunkfs.Kernel.{ok}
use chunkfs.Cont.{Continuation, Head, World}
use chunkfs.Walk.Search.{end_from, Holder}
use chunkfs.Tests.Clients.{stored, world, first_cont, second_cont, head}
use chunkfs.Tests.Store.{Store, stands_at_start, client, memory, laws, settable}
use chunkfs.Tests.Files.{two, open_file, grown}
use chunkfs.Tests.Sessions.{files, sizes, byte_laws}
use chunkfs.Tests.Growth.{grow_laws, held, grows}
use chunkfs.Tests.Entries.{dirs, entry}
use chunkfs.File.{OpenFile, Returned, chunkfs_read, chunkfs_write, chunkfs_open}
use chunkfs.File.View.{delivered, accepted}
use chunkfs.File.Refines.{Fits, ReadSo, chunkfs_read_refines}
use chunkfs.File.Written.{WriteSo, chunkfs_write_refines}
use chunkfs.File.Longer.{longer, inodes_of, end_from-longer}
use chunkfs.File.Appended.{AppendSo, chunkfs_write_end_refines}
use chunkfs.File.Session.{Event, was_read, was_written, was_opened, reads, writes, opens}
use chunkfs.File.AtStart.{chunkfs_open_lem}
use chunkfs.File.Opening.{at_offset, closed}
use chunkfs.File.Life.{
  AnsweredGrowing, final_size, Life, over, move, within, at_end, shown, Kept, Life-refines,
}
use chunkfs.Names.{chunkfs_mknod, file_fops, fresh}
use chunkfs.Names.Lives.{IsNew, FromZero, made, n, node, node_dir, made-Kept, chunkfs_mknod-Life}

-- Two bytes are written at the end, and read.
abbrev appended :
    (x : Returned ℕ) × (w' : World Store) × (chunkfs_write client 4 head open_file
        (1 ∷ (2 ∷ []))
        81920
        world
      ≡ (ok x, w'))
    × AppendSo client files sizes head 4
        (first_cont ∷ [])
        second_cont
        stored
        (1 ∷ (2 ∷ []))
        (accepted x.result)
        w'.fs
appended =
    chunkfs_write_end_refines client files sizes head 4 (first_cont ∷ []) second_cont open_file
      (1 ∷ (2 ∷ [])) world (stands_at_start 8) grown held grows (omega arith)

abbrev three : List Continuation
three = longer (first_cont ∷ []) second_cont appended.3.next appended.3.n

abbrev read_back :
    (y : Returned (List ℕ)) × (w' : World Store) × (chunkfs_read client 4 head open_file 2 81920
        appended.1
      ≡ (ok y, w'))
    × ReadSo client files sizes head 4 three
        (inodes_of three)
        appended.1.fs
        2
        81920
        (delivered y.result)
        w'.fs
read_back =
    chunkfs_read_refines client files sizes head 4 three (inodes_of three) open_file 2 81920
      appended.1 appended.3.holds

-- The file is opened again, at its start.
three_long : 0 < end_from 0 three
three_long =
    ground (arith, end_from-longer 0 (first_cont ∷ []) second_cont appended.3.next appended.3.n)

abbrev reopened :
    (n : Continuation) × Holder 0 three n
    × (w' : World Store) × (w'.fs ≡ read_back.1.fs)
    × (chunkfs_open client 4 head open_file read_back.1
        ≡ (ok (closed client read_back.1.fs (inodes_of three) (at_offset n 0) n), w'))
    × ((closed client read_back.1.fs (inodes_of three) (at_offset n 0) n).f_pos ≡ 0)
reopened =
    chunkfs_open_lem client head 4 open_file read_back.1 three (inodes_of three)
      read_back.3.holds.file three_long

abbrev shown_again : OpenFile
shown_again = closed client read_back.1.fs (inodes_of three) (at_offset reopened.0 0) reopened.0

abbrev growing : List Event
growing =
    was_written 81920 (1 ∷ (2 ∷ [])) (accepted appended.0.result)
    ∷ (was_read 2 81920 (delivered read_back.0.result) ∷ (was_opened shown_again.f_pos ∷ []))

grew : Life client files sizes head 4 world two growing reopened.2 three
grew =
    move
      (at_end (first_cont ∷ []) second_cont (stands_at_start 8) grown open_file (1 ∷ (2 ∷ []))
        appended.0 refl grows (omega arith) appended.2 refl appended.3.holds.file.path)
      (move (within (reads open_file 2 81920 read_back.0 read_back.2 refl) refl)
        (move (within (opens open_file shown_again three_long reopened.4 refl) refl) over))

Life-refines_example :
    AnsweredGrowing 81920
      (shown client files sizes head 4 world two)
      growing
      (shown client files sizes head 4 reopened.2 three)
    × (end_from 0 three ≡ final_size 81920 growing)
    × Kept client files sizes head 4 reopened.2 three
Life-refines_example =
    Life-refines client files sizes head 4 world reopened.2 two three growing held grew

pub new_file : IsNew client files sizes stored 9
new_file = record {
  memory = memory;
  openable = λ s d. refl;
  bytes = byte_laws;
  grow = grow_laws;
  empty = refl;
  blank = λ o. refl;
}

-- Behind the creation of file 9.
abbrev pub born : World Store
born =
    made client dirs files sizes 3 head fresh 9 stored world (5 ∷ (6 ∷ [])) laws settable entry
      new_file

abbrev pub own : Head
own =
    (node client dirs files sizes 3 head fresh 9 stored world (5 ∷ (6 ∷ [])) laws settable entry
      new_file).head

abbrev pub only : List Continuation
only =
    n client dirs files sizes 3 head fresh 9 stored world (5 ∷ (6 ∷ [])) laws settable entry
      new_file
    ∷ []

pub born-Kept : Kept client files sizes own 3 born only
born-Kept =
    made-Kept client dirs files sizes 3 head fresh 9 stored world (5 ∷ (6 ∷ [])) laws settable entry
      new_file (omega arith)

pub one_fits : Fits only 7 1
one_fits m h = elim h.member [
  | inl e ↦ omega (arith, ap (λ x. x.co_cd.cd_len) e, ap (λ x. x.co_cd.cd_start) e)
  | inr nothing ↦ absurd nothing
]

abbrev pub put_one :
    (x : Returned ℕ) × (w' : World Store) × (chunkfs_write client 3 own open_file (1 ∷ []) 7 born
      ≡ (ok x, w'))
    × WriteSo client files sizes own 3 only
        (inodes_of only)
        born.fs
        (1 ∷ [])
        7
        (accepted x.result)
        w'.fs
put_one =
    chunkfs_write_refines client files sizes own 3 only (inodes_of only) open_file (1 ∷ []) 7 born
      born-Kept (omega arith) one_fits

abbrev pub got :
    (y : Returned (List ℕ)) × (w' : World Store) × (chunkfs_read client 3 own open_file 4 5
        put_one.1
      ≡ (ok y, w'))
    × ReadSo client files sizes own 3 only
        (inodes_of only)
        put_one.1.fs
        4
        5
        (delivered y.result)
        w'.fs
got =
    chunkfs_read_refines client files sizes own 3 only (inodes_of only) open_file 4 5 put_one.1
      put_one.3.holds

abbrev pub childhood : List Event
childhood =
    was_written 7 (1 ∷ []) (accepted put_one.0.result)
    ∷ (was_read 4 5 (delivered got.0.result) ∷ [])

pub grown_up : Life client files sizes own 3 born only childhood got.1 only
grown_up =
    move (within (writes open_file (1 ∷ []) 7 put_one.0 (omega arith) one_fits put_one.2 refl) refl)
      (move (within (reads open_file 4 5 got.0 got.2 refl) refl) over)

chunkfs_mknod-Life_example :
    (chunkfs_mknod client dirs 3 head fresh 9 420 7 world ≡ (
      ok (
        node client dirs files sizes 3 head fresh 9 stored world
            (5 ∷ (6 ∷ []))
            laws
            settable
            entry
            new_file,
        node_dir client dirs files sizes 3 head fresh 9 stored world
            (5 ∷ (6 ∷ []))
            laws
            settable
            entry
            new_file,
      ),
      born,
    ))
    × ((node client dirs files sizes 3 head fresh 9 stored world
          (5 ∷ (6 ∷ []))
          laws
          settable
          entry
          new_file).i_fop
        ≡ file_fops)
    × FromZero client files sizes own 3 got.1 only childhood
chunkfs_mknod-Life_example =
    chunkfs_mknod-Life client dirs files sizes 3 head fresh 9 stored world (5 ∷ (6 ∷ [])) laws
      settable entry new_file 420 7 got.1 only childhood refl refl refl (omega arith) (omega arith)
      grown_up
