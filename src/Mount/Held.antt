-- ===== src/Mount/Held.antt =====
-- super.c: what the chunks hold that a mount has read, in objects, buffers and mount references.
use chunkfs.Base.{ℕ, zero, suc, ◌+◌, ◌≡◌, List, [], ◌∷◌, arith, length, length-append}
use chunkfs.Kernel.{continue, or_cleanup, ◌>>=◌, Env, Kern, Ret, ok, err, bug, out_of_fuel}
use chunkfs.Mount.{
  open_summary, ChunkInfo, Scan, free_chunks, read_client_sb, read_chunk, add_chunk, read_chunks,
}

-- `k'` holds `o` objects, `b` buffers and `m` mount references more than `k`.
abbrev pub Holds : Kern → ℕ → ℕ → ℕ → Kern → Type 0
Holds k o b m k' = (k'.objs ≡ k.objs + o) × (k'.bufs ≡ k.bufs + b) × (k'.mnts ≡ k.mnts + m)

abbrev ChunkRead : {A : Type 0} → Kern → Ret A × Kern → Type 0
ChunkRead k (ok a, k') = Holds k 1 1 1 k'
ChunkRead k (err e, k') = Holds k 0 0 0 k'
ChunkRead k (bug, k') = Unit
ChunkRead k (out_of_fuel, k') = Unit

abbrev pub Opened : Kern → Ret (List ℕ) × Kern → Type 0
Opened k (ok bh, k') = Holds k 1 1 0 k'
Opened k (err e, k') = Holds k 0 0 0 k'
Opened k (bug, k') = Unit
Opened k (out_of_fuel, k') = Unit

pub open_summary-Opened :
    (env : Env) (block : ℕ) (check : List ℕ → ℕ) (k : Kern)
    → Opened k (open_summary env block check k)
unfolding open_summary
open_summary-Opened env block check k = ground arith

read_chunk-ChunkRead : (env : Env) (o : ℕ) (k : Kern) → ChunkRead k (read_chunk env o k)
unfolding read_chunk read_client_sb open_summary
read_chunk-ChunkRead env o k = ground arith

pub free_chunks-Holds :
    (cs : List ChunkInfo) (k k' : Kern) (o b m : ℕ)
    → Holds k (o + length cs) (b + length cs) (m + length cs) k'
    → Holds k o b m (free_chunks cs k')
unfolding free_chunks
free_chunks-Holds [] k k' o b m h = ground arith
free_chunks-Holds (ci ∷ cs) k k' o b m h = free_chunks-Holds cs k _ o b m (ground arith)

-- In the loop every chunk in the list is held.
abbrev pub ScanRead : Kern → Ret Scan × Kern → Type 0
ScanRead k (ok s, k') = let n = length s.chunks in Holds k n n n k'
ScanRead k (err e, k') = Holds k 0 0 0 k'
ScanRead k (bug, k') = Unit
ScanRead k (out_of_fuel, k') = Unit

add_chunk-ScanRead :
    (ci : ChunkInfo) (s : Scan) (k k' : Kern)
    → (let n = length s.chunks + 1 in Holds k n n n k')
    → ScanRead k (add_chunk ci s k')
unfolding add_chunk
add_chunk-ScanRead ci s k k' h = ground (arith, length-append s.chunks (ci ∷ []))

module _ (env : Env) (base : Kern) where
  -- the rest of one round, from what `add_chunk` returned
  go_on :
      (fuel next : ℕ)
      → ((s : Scan) (k : Kern)
          → ScanRead base (ok s, k)
          → ScanRead base (read_chunks env fuel s next k))
      → (r : Ret Scan) (k : Kern) → ScanRead base (r, k)
      → ScanRead base (continue r (λ s. read_chunks env fuel s next) k)
  go_on fuel next ih (ok s) k h = ih s k h
  go_on fuel next ih (err e) k h = h
  go_on fuel next ih bug k h = h
  go_on fuel next ih out_of_fuel k h = h

  round :
      (fuel : ℕ)
      → ((next : ℕ) (s : Scan) (k : Kern)
          → ScanRead base (ok s, k)
          → ScanRead base (read_chunks env fuel s next k))
      → (s : Scan) (k : Kern) (r : Ret (ChunkInfo × ℕ)) (k' : Kern) → ScanRead base (ok s, k)
      → ChunkRead k (r, k')
      → ScanRead base (
          (or_cleanup (λ _. (r, k')) (free_chunks s.chunks) >>= λ (ci, next).
          add_chunk ci s >>= λ s'. read_chunks env fuel s' next)
            k)
  round fuel ih s k (ok (ci, next)) k' h got =
      let (r, k₂) = add_chunk ci s k' in
      go_on fuel next (ih next) r k₂ (add_chunk-ScanRead ci s base k' (omega arith))
  round fuel ih s k (err e) k' h got = free_chunks-Holds s.chunks base k' 0 0 0 (omega arith)
  round fuel ih s k bug k' h got = tt
  round fuel ih s k out_of_fuel k' h got = tt

  pub read_chunks-ScanRead :
      (fuel : ℕ) (s : Scan) (o : ℕ) (k : Kern)
      → ScanRead base (ok s, k)
      → ScanRead base (read_chunks env fuel s o k)
  unfolding read_chunks
  read_chunks-ScanRead zero s o k h = tt
  read_chunks-ScanRead (suc fuel) s zero k h = h
  read_chunks-ScanRead (suc fuel) s (suc o) k h =
      let (r, k') = read_chunk env (suc o) k in
      round fuel (λ next s' k₂. read_chunks-ScanRead fuel s' next k₂) s k r k' h
        (read_chunk-ChunkRead env (suc o) k)
