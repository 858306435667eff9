-- ===== src/Tests/Growth.antt =====
-- A write at the end of the file of two continuations, which gets a third in chunk 3.
use chunkfs.Base.{
  ℕ, ◌≡◌, refl, sym, ap, ◌∙◌, Option, some, none, List, [], ◌∷◌, arith, length, take, ◌≤◌,
}
use chunkfs.Kernel.{ok}
use chunkfs.Cont.{World}
use chunkfs.Tests.Clients.{head, stored, world, first_cont, second_cont, file}
use chunkfs.Tests.Store.{
  Store, open_or_make, stands_at_start, client, memory, laws, settable, open_laws,
}
use chunkfs.Tests.Files.{two, open_file, inodes, grown, opens_new, new}
use chunkfs.Tests.Sessions.{files, sizes, byte_laws, bounded, apart}
use chunkfs.File.{Returned, chunkfs_read, chunkfs_write}
use chunkfs.File.View.{accepted, delivered}
use chunkfs.File.Refines.{Holds}
use chunkfs.File.Grows.{GrowLaws, Grows}
use chunkfs.File.Appending.{append_read}
use chunkfs.File.Appended.{AppendSo, chunkfs_write_end_refines}

files_stay :
    (s : Store) (path : List ℕ) (x : Option ℕ) (d o : ℕ)
    → (open_or_make s path x).1.files d o ≡ s.files d o
files_stay s path none d o = refl
files_stay s path (some e) d o = refl

sizes_stay :
    (s : Store) (path : List ℕ) (x : Option ℕ) (d : ℕ)
    → (open_or_make s path x).1.sizes d ≡ s.sizes d
sizes_stay s path none d = refl
sizes_stay s path (some e) d = refl

pub grow_laws : GrowLaws client files sizes
grow_laws = record {
  open_held = λ s s' path f d o e ne.
      ap (λ x. x.1.files d o) (sym e) ∙ files_stay s path (s.names path) d o;
  open_sizes =
      λ s s' path f d e ne. ap (λ x. x.1.sizes d) (sym e) ∙ sizes_stay s path (s.names path) d;
  set_held = λ s s' i name v r d o e. ap (λ x. x.1.files d o) (sym e);
  set_sizes = λ s s' i name v r d e. ap (λ x. x.1.sizes d) (sym e);
}

pub held : Holds client files sizes head 4 two (5 ∷ (6 ∷ [])) stored
held = record {
  file = record {
    memory = memory;
    openable = λ s d. refl;
    path = file;
    adjoin = (refl, (refl, tt));
    size = omega arith;
    rounds = omega arith;
    inodes = inodes;
    inode_rounds = omega arith;
  };
  laws = byte_laws;
  bounded = bounded;
  apart = apart;
}

pub grows :
    Grows client files sizes head 4 (first_cont ∷ []) second_cont stored (stands_at_start 8) grown
grows = record {
  laws = laws;
  open_laws = open_laws;
  settable = settable;
  grow = grow_laws;
  opens = opens_new;
  new = new;
  gets = (refl, refl);
  empty = refl;
  blank = λ o. refl;
  small = omega arith;
  rounds = omega arith;
}

chunkfs_write_end_refines_example :
    (x : Returned ℕ) × (w' : World Store) × (chunkfs_write client 4 head open_file
        (1 ∷ (2 ∷ []))
        81920
        world
      ≡ (ok x, w'))
    × AppendSo client files sizes head 4
        (first_cont ∷ [])
        second_cont
        stored
        (1 ∷ (2 ∷ []))
        (accepted x.result)
        w'.fs
chunkfs_write_end_refines_example =
    chunkfs_write_end_refines client files sizes head 4 (first_cont ∷ []) second_cont open_file
      (1 ∷ (2 ∷ [])) world (stands_at_start 8) grown held grows (omega arith)

append_read_here :
    (x : Returned ℕ) × (w' : World Store) × (chunkfs_write client 4 head open_file
        (1 ∷ (2 ∷ []))
        81920
        world
      ≡ (ok x, w'))
    × (2 ≤ accepted x.result
        → (y : Returned (List ℕ)) × (w'' : World Store) × (chunkfs_read client 4 head open_file 2
              81920 w'
            ≡ (ok y, w''))
          × (delivered y.result ≡ take (length (delivered y.result)) (1 ∷ (2 ∷ []))))
append_read_here =
    append_read client files sizes head 4 (first_cont ∷ []) second_cont open_file open_file
      (1 ∷ (2 ∷ [])) 2 world (stands_at_start 8) grown held grows (omega arith)
