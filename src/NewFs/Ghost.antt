-- ===== src/NewFs/Ghost.antt =====
-- mkfs.chunkfs.c: the device sizes on which the two tests of `write_chunk_summaries` disagree.
use chunkfs.Base.{
  ℕ, suc, ◌+◌, ◌-◌, ◌*◌, ◌/◌, ◌^◌, ◌<◌, ◌≡◌, ◌≢◌, refl, ap, ◌∙◌, true, some, List, [], ◌∷◌, map,
  arith, length,
}
use chunkfs.Device.{Disk, read_at}
use chunkfs.Format.{blk_size, chunk_size, pool_blk, dev_blk, check_chunk}
use chunkfs.Kernel.{Env, Kern, Mnt, err, eio}
use chunkfs.Mount.{chunk_info, read_pool}
use chunkfs.Mount.Chain.{info, Allocates, corrupt}
use chunkfs.Mount.Outcomes.{start, add_all_root, read_pool-Unmountable}
use chunkfs.Mkfs.{Io, done, mkfs}
use chunkfs.Mkfs.Summaries.{Works, summary_block, read_at-with_summaries_behind}
use chunkfs.NewFs.Device.{
  Holds, first_chunk, headed_apart, new_device, mkfs_done, pool_checks, dev_checks,
}
use chunkfs.NewFs.Chain.{Serves, links, summary-root, links-Plain}
use chunkfs.NewFs.Mounts.{length-links, new_stop, new_path}

-- On a device that takes `suc n` chunks the block where the chunk behind the last would begin is as
-- it was before.
pub ghost_unwritten :
    (n raw : ℕ) (d : Disk)
    → Holds (suc n) raw
    → let ghost = first_chunk + suc n * chunk_size in
      read_at (new_device (suc n) raw d) ghost blk_size ≡ read_at d ghost blk_size
unfolding new_device
ghost_unwritten n raw d holds =
    let ghost = first_chunk + suc n * chunk_size in
    read_at-with_summaries_behind (suc n) (raw - 2) first_chunk 1 _ ghost (omega arith)
      (omega arith) (omega arith)
    ∙ headed_apart raw d ghost (omega arith)

-- On a device of exactly `first_chunk + 1 + (n + 2) * chunk_size` bytes `mkfs.chunkfs` is given
-- room for `suc n` chunks, and the mount of what it made fails with `-EIO`, unless the block behind
-- the last chunk, which it never writes, happens to pass as a summary. No call or allocation fails,
-- the fuel exceeds `suc n` and `n < 2 ^ 32`.
pub mkfs-read_pool_ghost :
    (io : Io) (fuel n : ℕ) (cmd name : List ℕ) (d : Disk) (env : Env) (mnt : ℕ → Mnt) (k : Kern)
    → Works io
    → io.opens name ≡ true
    → io.st_size ≡ some (first_chunk + 1 + (n + 2) * chunk_size)
    → length name < 1024
    → n < 2 ^ 32
    → suc n < fuel
    → Allocates env
    → check_chunk (read_at d (first_chunk + suc n * chunk_size) blk_size) ≢ 0
    → ((d' : Disk)
        → mkfs io fuel (cmd ∷ (name ∷ [])) d ≡ done d'
        → Serves env mnt (first_chunk + 1 + (n + 2) * chunk_size) d')
    → (Holds (suc n) (first_chunk + 1 + (n + 2) * chunk_size))
      × ((read_pool env fuel k).0 ≡ err eio)
mkfs-read_pool_ghost io fuel n cmd name d env mnt k w opens size short small rounds allocates bad
      serve =
    let raw = first_chunk + 1 + (n + 2) * chunk_size in
    let ghost = first_chunk + suc n * chunk_size in
    let holds : Holds (suc n) raw = omega arith in
    let serves =
      serve _ (mkfs_done io fuel (suc n) raw cmd name d w opens size short holds rounds) in
    let points : new_stop (suc n) raw ≡ ghost = unfold new_stop in ground arith in
    let whole : ghost / blk_size * blk_size ≡ ghost = omega arith in
    let root = chunk_info (summary_block (raw - 2) first_chunk 1) (mnt 1) in
    (
      holds,
      read_pool-Unmountable env _ _ (links mnt (raw - 2) (suc n) first_chunk 1) ghost fuel k
          allocates (serves.blocks pool_blk (omega arith)) (pool_checks (suc n) raw d holds)
          (serves.blocks dev_blk (omega arith)) (dev_checks (suc n) raw d holds)
          (rw points at (new_path n raw d env mnt holds (omega arith) serves))
          (add_all_root [] root (map info (links mnt (raw - 2) n (first_chunk + chunk_size) 2))
            start tt (summary-root (mnt 1) (raw - 2) first_chunk 1 (omega arith) (omega arith))
            (links-Plain mnt n (raw - 2) (first_chunk + chunk_size) 2 (omega arith) (omega arith)
              (omega arith))
            refl refl)
          (rw (length-links mnt (raw - 2) (suc n) first_chunk 1) rounds) (omega arith)
          (corrupt
            (serves.blocks (ghost / blk_size) (omega arith)
              ∙ ap (λ p. some (read_at (new_device (suc n) raw d) p blk_size)) whole
              ∙ ap some (ghost_unwritten n raw d holds))
            bad),
    )
