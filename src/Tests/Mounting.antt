-- ===== src/Tests/Mounting.antt =====
-- Mounts of small devices: with one root, without any, with a chunk missing, and with a cycle.
use chunkfs.Base.{ℕ, ◌/◌, sym, map, false, ◌≡◌, ◌≢◌, refl, true, some, List, [], ◌∷◌, arith}
use chunkfs.Format.{chunk_image, as_chunk, as_dev, check_chunk}
use chunkfs.Format.Bytes.{get_le, put_le}
use chunkfs.Kernel.{Env, Mnt, found, ok, err, bug, out_of_fuel, eio}
use chunkfs.Mount.{mount_path, is_root, chunk_info, read_chunks, read_pool}
use chunkfs.Mount.Balance.{IsBalanced, read_pool-IsBalanced}
use chunkfs.Mount.Chain.{Link, ChunkPath, done, link, unreadable, add_all, info, plus}
use chunkfs.Mount.Outcomes.{
  Sound, start, pool_of, opened, read_pool_mounts, read_pool_rootless, read_pool_chunkless,
  read_pool-Unmountable, read_chunks_cycle,
}
use chunkfs.Decimal.{print_u64, digits_onto}
use mathlib.Core.Path.{subst}
use chunkfs.Tests.Devices.{
  chunk, dev, pool, client, idle, pool_checked, dev_checked, two, first_of, none_of, plain, cyclic,
  broken, empty,
}

module _ (e : Env) (o : ℕ) where
  abbrev Leads : ℕ → ℕ → ℕ → Type 0
  Leads flags id next =
      Link e o (chunk flags id next) client × ((as_chunk (chunk flags id next)).c_next_chunk ≡ next)

  root-Leads :
      e.bread (o / 4096) ≡ some (chunk 1 1 45056)
      → o ≢ 0
      → e.kern_path (mount_path 1) ≡ found client
      → Leads 1 1 45056
  unfolding check_chunk chunk_image as_chunk get_le put_le mount_path print_u64 digits_onto
  root-Leads b ne m =
      (record { offset = ne; block = b; checked = refl; short = omega arith; mounted = m }, refl)

  plain-Leads :
      e.bread (o / 4096) ≡ some (chunk 0 2 0)
      → o ≢ 0
      → e.kern_path (mount_path 2) ≡ found client
      → Leads 0 2 0
  unfolding check_chunk chunk_image as_chunk get_le put_le mount_path print_u64 digits_onto
  plain-Leads b ne m =
      (record { offset = ne; block = b; checked = refl; short = omega arith; mounted = m }, refl)

  cyclic-Leads :
      e.bread (o / 4096) ≡ some (chunk 0 2 40960)
      → o ≢ 0
      → e.kern_path (mount_path 2) ≡ found client
      → Leads 0 2 40960
  unfolding check_chunk chunk_image as_chunk get_le put_le mount_path print_u64 digits_onto
  cyclic-Leads b ne m =
      (record { offset = ne; block = b; checked = refl; short = omega arith; mounted = m }, refl)

pub root_is_root : is_root (chunk_info (chunk 1 1 45056) client) ≡ true
unfolding chunk_info chunk_image as_chunk get_le put_le
root_is_root = refl

pub plain_is_plain : is_root (chunk_info (chunk 0 2 0) client) ≡ false
unfolding chunk_info chunk_image as_chunk get_le put_le
plain_is_plain = refl

cyclic_is_plain : is_root (chunk_info (chunk 0 2 40960) client) ≡ false
unfolding chunk_info chunk_image as_chunk get_le put_le
cyclic_is_plain = refl

-- From the device's first chunk on.
chained :
    (first : ℕ) {e : Env} {stop o : ℕ} {bs : List (List ℕ × Mnt)}
    → (as_dev (dev first)).d_innards_begin ≡ o
    → ChunkPath e stop o bs
    → ChunkPath e stop (as_dev (dev first)).d_innards_begin bs
chained first {e} {stop} {o} {bs} h c = subst (λ x. ChunkPath e stop x bs) (sym h) c

led :
    (flags id : ℕ) {e : Env} {stop o next : ℕ} {bs : List (List ℕ × Mnt)}
    → Leads e o flags id next
    → ChunkPath e stop next bs
    → ChunkPath e stop o ((chunk flags id next, client) ∷ bs)
led flags id {e} {stop} {o} {next} {bs} (l, h) c =
    link l (subst (λ x. ChunkPath e stop x bs) (sym h) c)

abbrev pub two_chunks : List (List ℕ × Mnt)
two_chunks = (chunk 1 1 45056, client) ∷ ((chunk 0 2 0, client) ∷ [])

pub two-Sound : Sound two pool (dev 40960) two_chunks
two-Sound = record {
  allocates = λ n. refl;
  pool = refl;
  pool_checked = pool_checked;
  dev = refl;
  dev_checked = dev_checked 40960;
  chain = chained 40960 first_of (
      led 1 1 (root-Leads two 40960 refl (omega arith) refl)
        (led 0 2 (plain-Leads two 45056 refl (omega arith) refl) done));
}

plain-Sound : Sound plain pool (dev 40960) ((chunk 0 2 0, client) ∷ [])
plain-Sound = record {
  allocates = λ n. refl;
  pool = refl;
  pool_checked = pool_checked;
  dev = refl;
  dev_checked = dev_checked 40960;
  chain = chained 40960 first_of (led 0 2 (plain-Leads plain 40960 refl (omega arith) refl) done);
}

empty-Sound : Sound empty pool (dev 0) []
empty-Sound = record {
  allocates = λ n. refl;
  pool = refl;
  pool_checked = pool_checked;
  dev = refl;
  dev_checked = dev_checked 0;
  chain = chained 0 none_of done;
}

read_pool-IsBalanced_example : IsBalanced idle (read_pool broken 5 idle)
read_pool-IsBalanced_example = read_pool-IsBalanced broken 5 idle

read_pool_mounts_example : read_pool two 3 idle ≡ (
  ok (pool_of pool (dev 40960) (map info two_chunks) (chunk_info (chunk 1 1 45056) client)),
  plus 2 (opened (opened idle)),
)
read_pool_mounts_example =
    read_pool_mounts two pool (dev 40960) two_chunks two-Sound 3 idle []
      (chunk_info (chunk 1 1 45056) client) (chunk_info (chunk 0 2 0) client ∷ []) (omega arith)
      refl tt root_is_root (plain_is_plain, tt)

read_pool_rootless_example : (read_pool plain 3 idle).0 ≡ bug
read_pool_rootless_example =
    read_pool_rootless plain pool (dev 40960) ((chunk 0 2 0, client) ∷ []) plain-Sound 3 idle
      (omega arith) (λ e. absurd (cc)) (plain_is_plain, tt)

read_pool_chunkless_here : (read_pool empty 1 idle).0 ≡ err eio
read_pool_chunkless_here =
    read_pool_chunkless empty pool (dev 0) [] empty-Sound 1 idle refl (omega arith)

added :
    add_all (chunk_info (chunk 1 1 45056) client ∷ []) start
    ≡ ok (record {
      chunks = chunk_info (chunk 1 1 45056) client ∷ [];
      root_dev = true;
      root_chunk = some (chunk_info (chunk 1 1 45056) client);
    })
unfolding add_all
added = rw root_is_root

read_pool-Unmountable_example : (read_pool broken 5 idle).0 ≡ err eio
read_pool-Unmountable_example =
    read_pool-Unmountable broken pool (dev 40960) ((chunk 1 1 45056, client) ∷ []) 45056 5 idle
      (λ n. refl) refl pool_checked refl (dev_checked 40960)
      (chained 40960 first_of (led 1 1 (root-Leads broken 40960 refl (omega arith) refl) done))
      added (omega arith) (omega arith) (unreadable refl)

read_chunks_cycle_example : (read_chunks cyclic 100 start 40960 idle).0 ≡ out_of_fuel
read_chunks_cycle_example =
    let (l, next) = cyclic-Leads cyclic 40960 refl (omega arith) refl in
    read_chunks_cycle cyclic 40960 (chunk 0 2 40960) client 100 start idle (λ n. refl) l next
      cyclic_is_plain
