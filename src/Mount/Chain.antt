-- ===== src/Mount/Chain.antt =====
-- What `chunkfs_read_dev` makes of the chain of chunk summaries on a device.
use chunkfs.Base.{
  ℕ, zero, suc, ◌+◌, ◌-◌, ◌/◌, ◌<◌, ◌≡◌, ◌≢◌, refl, ◌∙◌, true, none, some, List, [], ◌∷◌, ◌++◌, map,
  arith, length, inl, inr, Bool-cases, if◌then◌else◌,
}
use chunkfs.Format.{blk_size, as_chunk, check_chunk}
use chunkfs.Kernel.{Env, Kern, Mnt, Ret, ok, err, bug, found, refused, eio}
use chunkfs.Mount.{
  ChunkInfo, Scan, is_root, is_set, mount_path, mount_path_len, chunk_info, open_summary,
  read_client_sb, read_chunk, add_chunk, read_chunks,
}

-- A chunk that mounts: its summary block, its client's mount, and the offset of its successor.
pub record Link (env : Env) (o : ℕ) (bh : List ℕ) (m : Mnt) : Type 0 where
  pub offset : o ≢ 0
  pub block : env.bread (o / blk_size) ≡ some bh
  pub checked : check_chunk bh ≡ 0
  pub short : length (mount_path (as_chunk bh).c_chunk_id) < mount_path_len
  pub mounted : env.kern_path (mount_path (as_chunk bh).c_chunk_id) ≡ found m

-- From offset `o` the summaries lead through `bs` to the offset `stop`.
pub data ChunkPath (env : Env) (stop : ℕ) : ℕ → List (List ℕ × Mnt) → Type 0 where
  done : ChunkPath env stop stop []
  link :
      {o : ℕ} {bh : List ℕ} {m : Mnt} {bs : List (List ℕ × Mnt)}
      → Link env o bh m
      → ChunkPath env stop (as_chunk bh).c_next_chunk bs
      → ChunkPath env stop o ((bh, m) ∷ bs)

-- A whole chain ends with the offset 0.
abbrev pub ChunkChain : Env → ℕ → List (List ℕ × Mnt) → Type 0
ChunkChain env = ChunkPath env 0

abbrev pub info : List ℕ × Mnt → ChunkInfo
info (bh, m) = chunk_info bh m

-- The list and the root after some chunks, without the kernel's part.
unfoldable pub add_all : List ChunkInfo → Scan → Ret Scan
add_all [] s = ok s
add_all (ci ∷ cs) s =
    let added : Scan = record s { chunks = s.chunks ++ ci ∷ [] } in
    let rooted = add_all cs (record added { root_dev = true; root_chunk = some ci }) in
    let plain = add_all cs added in
    if is_root ci
    then (if s.root_dev then bug else if is_set s.root_chunk then bug else rooted)
    else plain

abbrev pub plus : ℕ → Kern → Kern
plus n k = record { objs = k.objs + n; bufs = k.bufs + n; mnts = k.mnts + n; calls = k.calls + n }

abbrev pub Allocates : Env → Type 0
Allocates env = (n : ℕ) → env.kzalloc n ≡ true

pub read_chunks_step :
    (env : Env) (fuel : ℕ) (s s' : Scan) (o next : ℕ) (ci : ChunkInfo) (k k' : Kern)
    → o ≢ 0
    → read_chunk env o k ≡ (ok (ci, next), k')
    → add_chunk ci s k' ≡ (ok s', k')
    → read_chunks env (suc fuel) s o k ≡ read_chunks env fuel s' next k'
unfolding read_chunks
read_chunks_step env fuel s s' zero next ci k k' ne got added = absurd (ne refl)
read_chunks_step env fuel s s' (suc o) next ci k k' ne got added = rw (got, added)

-- The first addition, and those of the rest.
add_all_step :
    (ci : ChunkInfo) (cs : List ChunkInfo) (s t : Scan) (k : Kern)
    → add_all (ci ∷ cs) s ≡ ok t
    → (s' : Scan) × (add_chunk ci s k ≡ (ok s', k)) × (add_all cs s' ≡ ok t)
unfolding add_all add_chunk
add_all_step ci cs s t k e = elim (Bool-cases (is_root ci)) [
  | inl root ↦ (
    record { chunks = s.chunks ++ ci ∷ []; root_dev = true; root_chunk = some ci },
    ground arith,
    ground arith,
  )
  | inr plain ↦ (
    record { chunks = s.chunks ++ ci ∷ []; root_dev = s.root_dev; root_chunk = s.root_chunk },
    ground arith,
    ground arith,
  )
]

module _ (env : Env) (allocates : Allocates env) where
  pub read_chunk-Link :
      {o : ℕ} {bh : List ℕ} {m : Mnt} (k : Kern)
      → Link env o bh m
      → read_chunk env o k ≡ (ok (chunk_info bh m, (as_chunk bh).c_next_chunk), plus 1 k)
  unfolding read_chunk open_summary read_client_sb
  read_chunk-Link k l = ground (arith, allocates k.calls, l.block, l.checked, l.mounted, l.short)

  -- The loop walks along a path, and goes on from its end.
  pub read_chunks-ChunkPath :
      (fuel : ℕ) {stop : ℕ} (rounds : ℕ) {o : ℕ} {bs : List (List ℕ × Mnt)} (s : Scan) (k : Kern)
      {t : Scan}
      → ChunkPath env stop o bs
      → length bs + fuel ≡ rounds
      → add_all (map info bs) s ≡ ok t
      → read_chunks env rounds s o k ≡ read_chunks env fuel t stop (plus (length bs) k)
  unfolding add_all
  read_chunks-ChunkPath fuel rounds s k done h e =
      let same : rounds ≡ fuel = omega arith in rw same (ground arith)
  read_chunks-ChunkPath fuel zero s k (link l c) h e = absurd (omega arith)
  read_chunks-ChunkPath fuel (suc rounds) s k (link {o} {bh} {m} {bs} l c) h e =
      let (s', added, rest) = add_all_step (chunk_info bh m) (map info bs) s _ (plus 1 k) e in
      read_chunks_step env rounds s s' o _ _ k (plus 1 k) l.offset (read_chunk-Link k l) added
      ∙ read_chunks-ChunkPath fuel rounds s' (plus 1 k) c (omega arith) rest
      ∙ ground arith

  pub read_chunks-ChunkChain :
      (fuel : ℕ) {o : ℕ} {bs : List (List ℕ × Mnt)} (s : Scan) (k : Kern) {t : Scan}
      → ChunkChain env o bs
      → length bs < fuel
      → add_all (map info bs) s ≡ ok t
      → read_chunks env fuel s o k ≡ (ok t, plus (length bs) k)
  unfolding read_chunks
  read_chunks-ChunkChain fuel {bs} s k c h e =
      read_chunks-ChunkPath (suc (fuel - length bs - 1)) fuel s k c (omega arith) e ∙ refl

-- A chunk that does not mount: its block cannot be read or fails its check, or its client file
-- system is not at its place.
pub data Unmountable (env : Env) (o : ℕ) : ℕ → Type 0 where
  unreadable : env.bread (o / blk_size) ≡ none → Unmountable env o eio
  corrupt :
      {bh : List ℕ}
      → env.bread (o / blk_size) ≡ some bh
      → check_chunk bh ≢ 0
      → Unmountable env o eio
  absent :
      {bh : List ℕ} {e : ℕ}
      → env.bread (o / blk_size) ≡ some bh
      → check_chunk bh ≡ 0
      → length (mount_path (as_chunk bh).c_chunk_id) < mount_path_len
      → env.kern_path (mount_path (as_chunk bh).c_chunk_id) ≡ refused e
      → Unmountable env o e

pub read_chunk-Unmountable :
    (env : Env) (o : ℕ) {e : ℕ} (k : Kern)
    → Allocates env
    → Unmountable env o e
    → (read_chunk env o k).0 ≡ err e
unfolding read_chunk open_summary read_client_sb
read_chunk-Unmountable env o k allocates (unreadable b) = ground (arith, allocates k.calls)
read_chunk-Unmountable env o k allocates (corrupt b c) = ground (arith, allocates k.calls)
read_chunk-Unmountable env o k allocates (absent b c s r) = ground (arith, allocates k.calls)

pub read_chunks_stop :
    (env : Env) (fuel : ℕ) (s : Scan) (o : ℕ) {e : ℕ} (k : Kern)
    → o ≢ 0
    → (read_chunk env o k).0 ≡ err e
    → (read_chunks env (suc fuel) s o k).0 ≡ err e
unfolding read_chunks
read_chunks_stop env fuel s zero k ne failed = absurd (ne refl)
read_chunks_stop env fuel s (suc o) k ne failed = rw failed
