-- ===== src/Mount/Balance.antt =====
-- super.c: what the error paths of the mount and `chunkfs_free_pool` give back, in objects, buffers and
-- mount references.
use chunkfs.Base.{
  ℕ, ◌+◌, Bool, false, Option, none, some, List, [], ◌∷◌, inl, inr, Option-cases, arith, length,
}
use chunkfs.Format.{dev_blk, pool_blk, as_dev, check_dev, check_pool}
use chunkfs.Kernel.{
  kfree, brelse, continue, or_cleanup, ◌>>=◌, Env, Kern, Ret, ok, err, bug, out_of_fuel,
}
use chunkfs.Mount.{
  open_summary, rootless, add_dev, free_dev, free_devs, ChunkInfo, DevInfo, PoolInfo, Scan,
  free_pool, read_chunks, finish_dev, read_dev, read_pool,
}
use chunkfs.Mount.Held.{
  Holds, Opened, open_summary-Opened, free_chunks-Holds, ScanRead, read_chunks-ScanRead,
}

-- A device holds its summary, its own buffer, and what its chunks hold. Where `*dev_info` was left
-- unwritten nothing is held.
abbrev DevRead : Kern → Ret (Option DevInfo) × Kern → Type 0
DevRead k (ok (some di), k') = let n = length di.di_chunks in Holds k (n + 1) (n + 1) n k'
DevRead k (ok none, k') = Holds k 0 0 0 k'
DevRead k (err e, k') = Holds k 0 0 0 k'
DevRead k (bug, k') = Unit
DevRead k (out_of_fuel, k') = Unit

-- However the mount ends short of a `BUG_ON` or an endless chain, nothing is lost: after an error
-- as much is held as before, and so too after a success and the release of the pool.
abbrev pub IsBalanced : Kern → Ret PoolInfo × Kern → Type 0
IsBalanced k (ok pi, k') = Holds k 0 0 0 (free_pool pi k')
IsBalanced k (err e, k') = Holds k 0 0 0 k'
IsBalanced k (bug, k') = Unit
IsBalanced k (out_of_fuel, k') = Unit

rootless-DevRead :
    (cs : List ChunkInfo) (k k' : Kern) → Holds k 0 0 0 k' → DevRead k (rootless cs, k')
rootless-DevRead [] k k' h = h
rootless-DevRead (ci ∷ cs) k k' h = h

finish_dev-DevRead :
    (bh : List ℕ) (s : Scan) (k k' : Kern)
    → (let n = length s.chunks in Holds k (n + 1) (n + 1) n k')
    → DevRead k (finish_dev bh s k')
unfolding finish_dev
finish_dev-DevRead bh s k k' h = elim (Option-cases s.root_chunk) [
  | inr (ci, e) ↦ rw e h
  | inl e ↦ rw e (
      rootless-DevRead s.chunks k _
        (omega (arith, free_chunks-Holds s.chunks k k' 1 1 0 (omega arith))))
]

module _ (env : Env) (base : Kern) where
  from_scan :
      (bh : List ℕ) (k : Kern) (r : Ret Scan) (k' : Kern)
      → Holds base 1 1 0 k
      → ScanRead k (r, k')
      → DevRead base ((or_cleanup (λ _. (r, k')) (λ k. kfree (brelse k)) >>= finish_dev bh) k)
  from_scan bh k (ok s) k' h got = finish_dev-DevRead bh s base k' (omega arith)
  from_scan bh k (err e) k' h got = omega arith
  from_scan bh k bug k' h got = tt
  from_scan bh k out_of_fuel k' h got = tt

  from_dev :
      (bh : List ℕ) (k : Kern) (r : Ret (Option DevInfo)) (k' : Kern)
      → Holds base 1 1 0 k
      → DevRead k (r, k')
      → IsBalanced base ((or_cleanup (λ _. (r, k')) (λ k. kfree (brelse k)) >>= add_dev bh) k)
  unfolding free_pool free_devs free_dev
  from_dev bh k (ok (some di)) k' h got =
      omega (arith, free_chunks-Holds di.di_chunks base k' 2 2 0 (omega arith))
  from_dev bh k (ok none) k' h got = tt
  from_dev bh k (err e) k' h got = omega arith
  from_dev bh k bug k' h got = tt
  from_dev bh k out_of_fuel k' h got = tt

  scan_from_summary :
      (fuel : ℕ) (root_dev : Bool) (r : Ret (List ℕ)) (k : Kern)
      → Opened base (r, k)
      → DevRead base (
          continue r
            (λ bh.
              or_cleanup
                (read_chunks env fuel
                  (record { chunks = []; root_dev = root_dev; root_chunk = none })
                  (as_dev bh).d_innards_begin)
                (λ k. kfree (brelse k))
              >>= finish_dev bh)
            k)
  scan_from_summary fuel root_dev (ok bh) k h =
      let start : Scan = record { chunks = []; root_dev = root_dev; root_chunk = none } in
      let (r, k') = read_chunks env fuel start (as_dev bh).d_innards_begin k in
      from_scan bh k r k' h
        (read_chunks-ScanRead env k fuel start (as_dev bh).d_innards_begin k (omega arith))
  scan_from_summary fuel root_dev (err e) k h = h
  scan_from_summary fuel root_dev bug k h = tt
  scan_from_summary fuel root_dev out_of_fuel k h = tt

read_dev-DevRead :
    (env : Env) (fuel : ℕ) (root_dev : Bool) (k : Kern) → DevRead k (read_dev env fuel root_dev k)
unfolding read_dev
read_dev-DevRead env fuel root_dev k =
    let (r, k') = open_summary env dev_blk check_dev k in
    scan_from_summary env k fuel root_dev r k' (open_summary-Opened env dev_blk check_dev k)

module _ (env : Env) (base : Kern) where
  dev_from_summary :
      (fuel : ℕ) (r : Ret (List ℕ)) (k : Kern)
      → Opened base (r, k)
      → IsBalanced base (
          continue r
            (λ bh. or_cleanup (read_dev env fuel false) (λ k. kfree (brelse k)) >>= add_dev bh)
            k)
  dev_from_summary fuel (ok bh) k h =
      let (r, k') = read_dev env fuel false k in
      from_dev env base bh k r k' h (read_dev-DevRead env fuel false k)
  dev_from_summary fuel (err e) k h = h
  dev_from_summary fuel bug k h = tt
  dev_from_summary fuel out_of_fuel k h = tt

-- Whatever the device holds and whichever calls fail, `read_pool` loses nothing: after an error as
-- many objects, buffers and mount references are held as before, and after a success followed by
-- `free_pool` too. Nothing is said of runs that end in a `BUG_ON` or out of fuel.
pub read_pool-IsBalanced : (env : Env) (fuel : ℕ) (k : Kern) → IsBalanced k (read_pool env fuel k)
unfolding read_pool
read_pool-IsBalanced env fuel k =
    let (r, k') = open_summary env pool_blk check_pool k in
    dev_from_summary env k fuel r k' (open_summary-Opened env pool_blk check_pool k)
