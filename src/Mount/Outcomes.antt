-- ===== src/Mount/Outcomes.antt =====
-- How a mount ends, by the roots that the chain of chunks has.
use chunkfs.Base.{
  ℕ, zero, suc, ◌+◌, ◌-◌, ◌<◌, ◌≡◌, ◌≢◌, refl, ap, ◌∙◌, true, false, none, some, List, [], ◌∷◌,
  ◌++◌, map, arith, length,
}
use mathlib.Core.List.{append_assoc, append-nil}
use chunkfs.Format.{pool_blk, dev_blk, as_pool, as_dev, as_chunk, check_pool, check_dev}
use chunkfs.Kernel.{Env, Kern, Mnt, Ret, ok, err, bug, out_of_fuel, eio}
use chunkfs.Mount.{
  ChunkInfo, DevInfo, PoolInfo, Scan, is_root, chunk_info, open_summary, add_chunk, read_chunks,
  finish_dev, rootless, read_dev, read_pool,
}
use chunkfs.Mount.Chain.{
  Link, ChunkPath, ChunkChain, Unmountable, read_chunks-ChunkPath, read_chunks_stop,
  read_chunk-Unmountable, info, add_all, plus, Allocates, read_chunk-Link, read_chunks-ChunkChain,
  read_chunks_step,
}

abbrev pub start : Scan
start = record { chunks = []; root_dev = false; root_chunk = none }

-- No chunk of the list is flagged as root.
abbrev pub Plain : List ChunkInfo → Type 0
Plain [] = Unit
Plain (ci ∷ cs) = (is_root ci ≡ false) × Plain cs

add_all-Plain :
    (cs : List ChunkInfo) (s : Scan)
    → Plain cs
    → add_all cs s ≡ ok (record s { chunks = s.chunks ++ cs })
unfolding add_all
add_all-Plain [] s h = rw append-nil
add_all-Plain (ci ∷ cs) s h =
    rw (h.0, add_all-Plain cs (record s { chunks = s.chunks ++ ci ∷ [] }) h.1, append_assoc)

pub add_all_root :
    (pre : List ChunkInfo) (root : ChunkInfo) (post : List ChunkInfo) (s : Scan)
    → Plain pre
    → is_root root ≡ true
    → Plain post
    → s.root_dev ≡ false
    → s.root_chunk ≡ none
    → add_all (pre ++ root ∷ post) s
      ≡ ok (record {
        chunks = s.chunks ++ (pre ++ root ∷ post);
        root_dev = true;
        root_chunk = some root;
      })
unfolding add_all
add_all_root [] root post s h r g d c = rw (r, d, c, add_all-Plain post _ g, append_assoc)
add_all_root (ci ∷ pre) root post s h r g d c = rw (
  h.0,
  add_all_root pre root post (record s { chunks = s.chunks ++ ci ∷ [] }) h.1 r g d c,
  append_assoc,
)

rootless-map : (bs : List (List ℕ × Mnt)) → bs ≢ [] → rootless (map info bs) ≡ ok none
rootless-map [] ne = absurd (ne refl)
rootless-map (b ∷ bs) ne = refl

-- A device whose pool and device summaries are sound, and whose chain of chunks mounts.
pub record Sound (env : Env) (pb db : List ℕ) (bs : List (List ℕ × Mnt)) : Type 0 where
  pub allocates : Allocates env
  pub pool : env.bread pool_blk ≡ some pb
  pub pool_checked : check_pool pb ≡ 0
  pub dev : env.bread dev_blk ≡ some db
  pub dev_checked : check_dev db ≡ 0
  pub chain : ChunkChain env (as_dev db).d_innards_begin bs

abbrev pub opened : Kern → Kern
opened k = record k { objs = k.objs + 1; bufs = k.bufs + 1; calls = k.calls + 1 }

-- The pool of a mounted file system.
abbrev pub pool_of : List ℕ → List ℕ → List ChunkInfo → ChunkInfo → PoolInfo
pool_of pb db cs root =
    let di : DevInfo = record {
      di_bh = db;
      di_flags = (as_dev db).d_flags;
      di_chunks = cs;
      di_root_chunk = some root;
    } in
    record { pi_bh = pb; pi_flags = (as_pool pb).p_flags; pi_devs = di ∷ []; pi_root_dev = some di }

module _ (env : Env) (pb db : List ℕ) (bs : List (List ℕ × Mnt)) (sound : Sound env pb db bs) where
  open_pool : (k : Kern) → open_summary env pool_blk check_pool k ≡ (ok pb, opened k)
  unfolding open_summary
  open_pool k = ground (arith, sound.allocates k.calls)

  open_dev : (k : Kern) → open_summary env dev_blk check_dev k ≡ (ok db, opened k)
  unfolding open_summary
  open_dev k = ground (arith, sound.allocates k.calls)

  -- A device whose pool and device summaries are sound and whose chain of chunk summaries mounts,
  -- with just one root in it at whatever place, is mounted: the pool has the chunks in the order of
  -- the chain and knows the root, and one object, buffer and reference a chunk is held. The fuel
  -- exceeds the number of chunks.
  pub read_pool_mounts :
      (fuel : ℕ) (k : Kern) (pre : List ChunkInfo) (root : ChunkInfo) (post : List ChunkInfo)
      → length bs < fuel
      → map info bs ≡ pre ++ root ∷ post
      → Plain pre
      → is_root root ≡ true
      → Plain post
      → read_pool env fuel k
        ≡ (ok (pool_of pb db (map info bs) root), plus (length bs) (opened (opened k)))
  unfolding read_pool read_dev finish_dev
  read_pool_mounts fuel k pre root post h e p r q = rw (
    open_pool k,
    open_dev (opened k),
    read_chunks-ChunkChain env sound.allocates fuel start (opened (opened k)) sound.chain h
        (ap (λ cs. add_all cs start) e ∙ add_all_root pre root post start p r q refl refl),
    e,
  )

  -- A sound device with a chain of chunks that mount, but no root among them, makes `read_dev`
  -- return 0 with its result unwritten, so that `read_pool` uses it: a bug. The chain is not empty
  -- and the fuel exceeds its length.
  pub read_pool_rootless :
      (fuel : ℕ) (k : Kern)
      → length bs < fuel
      → bs ≢ []
      → Plain (map info bs)
      → (read_pool env fuel k).0 ≡ bug
  unfolding read_pool read_dev finish_dev
  read_pool_rootless fuel k h ne p = rw (
    open_pool k,
    open_dev (opened k),
    read_chunks-ChunkChain env sound.allocates fuel start (opened (opened k)) sound.chain h
        (add_all-Plain (map info bs) start p),
    rootless-map bs ne,
  )

  -- A sound device summary that names no first chunk makes the mount fail with `-EIO`, with any
  -- fuel.
  pub read_pool_chunkless :
      (fuel : ℕ) (k : Kern) → bs ≡ [] → 0 < fuel → (read_pool env fuel k).0 ≡ err eio
  unfolding read_pool read_dev finish_dev add_all
  read_pool_chunkless fuel k e h = rw (
    open_pool k,
    open_dev (opened k),
    read_chunks-ChunkChain env sound.allocates fuel start (opened (opened k)) sound.chain (rw e h)
        (ap (λ b. add_all (map info b) start) e),
  )

-- A chunk in the chain that does not mount makes the whole mount fail with that chunk's error, if
-- the summaries of pool and device are sound and the chunks before it mount with one root at most.
-- Allocations succeed and the fuel exceeds the number of chunks before it.
pub read_pool-Unmountable :
    (env : Env) (pb db : List ℕ) (bs : List (List ℕ × Mnt)) (o fuel : ℕ) (k : Kern) {e : ℕ}
    {t : Scan}
    → Allocates env
    → env.bread pool_blk ≡ some pb
    → check_pool pb ≡ 0
    → env.bread dev_blk ≡ some db
    → check_dev db ≡ 0
    → ChunkPath env o (as_dev db).d_innards_begin bs
    → add_all (map info bs) start ≡ ok t
    → length bs < fuel
    → o ≢ 0
    → Unmountable env o e
    → (read_pool env fuel k).0 ≡ err e
unfolding read_pool read_dev
read_pool-Unmountable env pb db bs o fuel k allocates pool pool_ok dev dev_ok path adds h ne bad =
    let open_pool : open_summary env pool_blk check_pool k ≡ (ok pb, opened k) =
      unfold open_summary in ground (arith, allocates k.calls) in
    let open_dev : open_summary env dev_blk check_dev (opened k) ≡ (ok db, opened (opened k)) =
      unfold open_summary in ground (arith, allocates (k.calls + 1)) in
    let walk =
      read_chunks-ChunkPath env allocates (suc (fuel - length bs - 1)) fuel start
        (opened (opened k)) path (omega arith) adds in
    rw (
      open_pool,
      open_dev,
      walk,
      read_chunks_stop env _ _ o _ ne (read_chunk-Unmountable env o _ allocates bad),
    )

-- A chunk that mounts, is not the root and is its own successor keeps `read_chunks` going for ever:
-- no number of rounds ends the loop, while memory lasts.
pub read_chunks_cycle :
    (env : Env) (o : ℕ) (bh : List ℕ) (m : Mnt) (fuel : ℕ) (s : Scan) (k : Kern)
    → Allocates env
    → Link env o bh m
    → (as_chunk bh).c_next_chunk ≡ o
    → is_root (chunk_info bh m) ≡ false
    → (read_chunks env fuel s o k).0 ≡ out_of_fuel
read_chunks_cycle env o bh m zero s k allocates l e r = unfold read_chunks in refl
read_chunks_cycle env o bh m (suc fuel) s k allocates l e r =
    let added : Scan = record s { chunks = s.chunks ++ chunk_info bh m ∷ [] } in
    ap (λ (p : Ret Scan × Kern). p.0)
      (read_chunks_step env fuel s added o o (chunk_info bh m) k (plus 1 k) l.offset
        (read_chunk-Link env allocates k l ∙ ap (λ n. (ok (chunk_info bh m, n), plus 1 k)) e)
        (unfold add_chunk in rw r))
    ∙ read_chunks_cycle env o bh m fuel added (plus 1 k) allocates l e r
