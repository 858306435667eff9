-- ===== src/Tests/Isolation.antt =====
-- Calls on a file that was just made, and the file of two continuations meanwhile.
use chunkfs.Base.{ℕ, ◌≡◌, ◌≢◌, inl, inr, refl, sym, ap, ◌∙◌, List, [], ◌∷◌, arith}
use chunkfs.Cont.{World}
use chunkfs.Cont.Attributes.{set_cont_data_ok, set_cont_data_keeps, set_cont_data-HasData_other}
use chunkfs.Create.Restart.{initial_data}
use chunkfs.File.Bystander.{Leaves, Holds-Leaves}
use chunkfs.File.Life.{shown, Kept, over, move, within}
use chunkfs.File.Isolated.{Disjoint, Life-isolated}
use chunkfs.File.Interleaved.{
  Tagged, lefts, rights, Both, idle, on_left, on_right, Alone, Both-Alone,
}
use chunkfs.File.{Returned, chunkfs_read}
use chunkfs.File.View.{delivered, accepted}
use chunkfs.File.Refines.{ReadSo, chunkfs_read_refines}
use chunkfs.File.Longer.{inodes_of}
use chunkfs.File.Session.{was_read, was_written, reads, writes}
use chunkfs.Kernel.{ok}
use chunkfs.Names.Making.{behind_op}
use chunkfs.Tests.Clients.{stored, world, head}
use chunkfs.Tests.Store.{Store, client, laws, settable}
use chunkfs.Tests.Files.{two, open_file}
use chunkfs.Tests.Sessions.{files, sizes, held, one_of_two}
use chunkfs.Tests.Growth.{grow_laws}
use chunkfs.Tests.Lives.{put_one, one_fits, born, own, only, born-Kept, got, childhood, grown_up}

-- What the creation of file 9 keeps.
kept :
    {A : Type 0} (get : Store → A)
    → ((x x' : Store) (i : ℕ) (name v : List ℕ) (r : _)
        → client.setxattr x i name v ≡ (r, x')
        → get x' ≡ get x)
    → get born.fs ≡ get stored
kept get k =
    let v = behind_op stored world in
    set_cont_data_keeps client get k 9 initial_data v
      (set_cont_data_ok client 9 initial_data v settable)

made_beside : Leaves client files sizes two stored born.fs
made_beside =
    let v = behind_op stored world in
    record {
      paths = λ q d e.
          kept (λ x. client.kern_path x q)
            (λ x x' i name b r h. laws.kern_path_set x x' i name b q r h)
          ∙ e;
      inodes = λ m has. refl;
      attributes = λ m has cd h.
          let other : 9 ≢ m.co_inode = elim (one_of_two m has) [
            | inl e ↦ omega (arith, ap (λ x. x.co_inode) e)
            | inr e ↦ omega (arith, ap (λ x. x.co_inode) e)
          ] in
          set_cont_data-HasData_other client laws 9 m.co_inode initial_data cd v
            (set_cont_data_ok client 9 initial_data v settable) other h;
      bytes = λ m o has.
          kept (λ x. x.files m.co_dentry o)
            (λ x x' i name b r h. grow_laws.set_held x x' i name b r m.co_dentry o h);
      lengths = λ m has. omega (
        arith,
        kept (λ x. x.sizes m.co_dentry)
            (λ x x' i name b r h. grow_laws.set_sizes x x' i name b r m.co_dentry h),
      );
    }

apart : Disjoint only two
apart n m hn hm = elim hn [
  | inl a ↦ elim (one_of_two m hm) [
    | inl b ↦ (
      omega (arith, ap (λ x. x.co_dentry) a, ap (λ x. x.co_dentry) b),
      omega (arith, ap (λ x. x.co_inode) a, ap (λ x. x.co_inode) b),
    )
    | inr b ↦ (
      omega (arith, ap (λ x. x.co_dentry) a, ap (λ x. x.co_dentry) b),
      omega (arith, ap (λ x. x.co_inode) a, ap (λ x. x.co_inode) b),
    )
  ]
  | inr nothing ↦ absurd nothing
]

Life-isolated_here :
    (shown client files sizes head 3 got.1 two ≡ shown client files sizes head 3 born two)
    × Kept client files sizes head 3 got.1 two
Life-isolated_here =
    Life-isolated client files sizes own 3 two head born got.1 only only childhood born-Kept
      (Holds-Leaves client files sizes head stored born.fs 3 two made_beside held).1 grown_up apart

-- The new file is written, and then the other one is read.
beside : Kept client files sizes head 3 put_one.1 two
beside =
    (Life-isolated client files sizes own 3 two head born put_one.1 only only
      (was_written 7 (1 ∷ []) (accepted put_one.0.result) ∷ []) born-Kept
      (Holds-Leaves client files sizes head stored born.fs 3 two made_beside held).1
      (move
        (within (writes open_file (1 ∷ []) 7 put_one.0 (omega arith) one_fits put_one.2 refl) refl)
        over)
      apart).1

abbrev glimpse :
    (y : Returned (List ℕ)) × (w' : World Store) × (chunkfs_read client 3 head open_file 10 40955
        put_one.1
      ≡ (ok y, w'))
    × ReadSo client files sizes head 3 two
        (inodes_of two)
        put_one.1.fs
        10
        40955
        (delivered y.result)
        w'.fs
glimpse =
    chunkfs_read_refines client files sizes head 3 two (inodes_of two) open_file 10 40955 put_one.1
      beside

abbrev mixed : List Tagged
mixed =
    inl (was_written 7 (1 ∷ []) (accepted put_one.0.result))
    ∷ (inr (was_read 10 40955 (delivered glimpse.0.result)) ∷ [])

apart_back : Disjoint two only
apart_back m n hm hn = let (d, i) = apart n m hn hm in (λ e. d (sym e), λ e. i (sym e))

in_turn : Both client files sizes own head 3 born only two mixed glimpse.1 only two
in_turn =
    on_left
      (within (writes open_file (1 ∷ []) 7 put_one.0 (omega arith) one_fits put_one.2 refl) refl)
      apart
      (on_right (within (reads open_file 10 40955 glimpse.0 glimpse.2 refl) refl) apart_back idle)

Both-Alone_example :
    Alone client files sizes 3 own born only (lefts mixed) glimpse.1 only
    × Alone client files sizes 3 head born two (rights mixed) glimpse.1 two
Both-Alone_example =
    Both-Alone client files sizes own head 3 born glimpse.1 only two only two mixed born-Kept
      (Holds-Leaves client files sizes head stored born.fs 3 two made_beside held).1 in_turn
