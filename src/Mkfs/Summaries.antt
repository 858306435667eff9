-- ===== src/Mkfs/Summaries.antt =====
-- mkfs.chunkfs.c: the loop of `write_chunk_summaries`, and the device behind it.
use chunkfs.Base.{
  ℕ, zero, suc, ◌+◌, ◌-◌, ◌*◌, ◌^◌, ◌≤◌, ◌<◌, ◌≡◌, refl, ◌∙◌, inl, inr, true, false, List, arith,
  ltb, if◌then◌else◌, add64, length, length-replicate,
}
use chunkfs.Device.{Disk, write_at, read_at, read_at-write_at_self, read_at-write_at_apart}
use chunkfs.Format.{blk_size, chunk_size, chunk_image}
use chunkfs.Mkfs.{Io, done, fits, metadata_block, write_block, chunk_summary, summaries_loop}
use chunkfs.Mkfs.Metadata.{IsChunk, length-chunk_block}

-- No call is refused.
pub record Works (io : Io) : Type 0 where
  pub seeks : (o : ℕ) → io.seeks o ≡ true
  pub writes : (o : ℕ) → io.writes o ≡ true

abbrev pub summary_block : ℕ → ℕ → ℕ → List ℕ
summary_block dev_end o id = metadata_block (chunk_image (chunk_summary dev_end o id))

-- The device after the summaries of `n` chunks.
unfoldable pub with_summaries : ℕ → ℕ → ℕ → ℕ → Disk → Disk
with_summaries zero dev_end o id d = d
with_summaries (suc n) dev_end o id d =
    with_summaries n dev_end (o + chunk_size) (id + 1) (write_at d o (summary_block dev_end o id))

-- `n` whole chunks lie between `o` and `dev_end`, and no more.
pub record Room (n o dev_end : ℕ) : Type 0 where
  pub enough : o + n * chunk_size ≤ dev_end
  pub last : dev_end < o + n * chunk_size + chunk_size
  pub size : dev_end < 2 ^ 63
  pub begins : o < 2 ^ 63

pub chunk_summary-IsChunk :
    (dev_end o id : ℕ) → o < 2 ^ 64 → id < 2 ^ 64 → IsChunk (chunk_summary dev_end o id)
unfolding chunk_summary
chunk_summary-IsChunk dev_end o id ho hid = record {
  magic = omega arith;
  flags = ground arith;
  id = hid;
  begins = ho;
  ends = omega arith;
  innards_begin = omega arith;
  innards_end = omega arith;
  next_chunk = ground arith;
  client_fs = length-replicate 32 0;
}

pub write_block_done :
    (io : Io) (bs : List ℕ) (o : ℕ) (d : Disk)
    → Works io
    → write_block io bs o d ≡ done (write_at d o (metadata_block bs))
unfolding write_block
write_block_done io bs o d w = rw (w.seeks o, w.writes o)

-- The loop that writes chunk summaries ends after as many rounds as whole chunks fit, and leaves
-- the device with the summary of each, if no call fails, the fuel exceeds the number of chunks and
-- the numbers fit their words.
pub summaries_loop_done :
    (io : Io) (fuel n dev_end o id : ℕ) (d : Disk)
    → Works io
    → Room n o dev_end
    → n < fuel
    → id + n < 2 ^ 64
    → summaries_loop io fuel dev_end o id d ≡ done (with_summaries n dev_end o id d)
unfolding summaries_loop with_summaries
summaries_loop_done io zero n dev_end o id d w room h small = absurd (omega arith)
summaries_loop_done io (suc fuel) zero dev_end o id d w room h small =
    let full : fits dev_end o ≡ false = ground (arith, room.last) in rw (full, summaries_loop)
summaries_loop_done io (suc fuel) (suc n) dev_end o id d w room h small =
    let fit : fits dev_end o ≡ true = ground (arith, room.enough, room.size) in
    let next : add64 o chunk_size ≡ o + chunk_size = omega (arith, room.enough, room.size) in
    let next_id : add64 id 1 ≡ id + 1 = omega arith in
    rw (fit, summaries_loop, write_block_done io _ o d w, next, next_id)
      (summaries_loop_done io fuel n dev_end (o + chunk_size) (id + 1) _ w
        (record {
          enough = omega (arith, room.enough);
          last = omega (arith, room.last);
          size = room.size;
          begins = omega (arith, room.enough, room.size);
        })
        (omega arith) (omega arith))

-- The summaries of `n` chunks from offset `o` on stand on the device.
abbrev pub Stored : Disk → ℕ → ℕ → ℕ → ℕ → Type 0
Stored d dev_end zero o id = Unit
Stored d dev_end (suc n) o id =
    (read_at d o blk_size ≡ summary_block dev_end o id)
    × Stored d dev_end n (o + chunk_size) (id + 1)

length-summary_block :
    (dev_end o id : ℕ) → o < 2 ^ 64 → id < 2 ^ 64 → length (summary_block dev_end o id) ≡ blk_size
length-summary_block dev_end o id ho hid =
    length-chunk_block (chunk_summary dev_end o id) (chunk_summary-IsChunk dev_end o id ho hid)

-- Later summaries leave a block in front of them alone.
pub read_at-with_summaries :
    (n dev_end o id : ℕ) (d : Disk) (p : ℕ)
    → p + blk_size ≤ o
    → read_at (with_summaries n dev_end o id d) p blk_size ≡ read_at d p blk_size
unfolding with_summaries
read_at-with_summaries zero dev_end o id d p h = refl
read_at-with_summaries (suc n) dev_end o id d p h =
    read_at-with_summaries n dev_end (o + chunk_size) (id + 1) _ p (omega arith)
    ∙ read_at-write_at_apart d o _ p blk_size (inl h)

pub with_summaries-Stored :
    (n dev_end o id : ℕ) (d : Disk)
    → o + n * chunk_size < 2 ^ 63
    → id + n < 2 ^ 64
    → Stored (with_summaries n dev_end o id d) dev_end n o id
unfolding with_summaries
with_summaries-Stored zero dev_end o id d h small = tt
with_summaries-Stored (suc n) dev_end o id d h small = (
  read_at-with_summaries n dev_end (o + chunk_size) (id + 1) _ o (omega arith)
      ∙ read_at-write_at_self d o _ blk_size
          (length-summary_block dev_end o id (omega arith) (omega arith)),
  with_summaries-Stored n dev_end (o + chunk_size) (id + 1) _ (omega arith) (omega arith),
)

-- The pointer to the next chunk. The test for it differs from the test of the loop by one byte.
pub next_chunk_lem :
    (dev_end o id : ℕ)
    → o + 2 * chunk_size < 2 ^ 63
    → (chunk_summary dev_end o id).c_next_chunk
      ≡ (if ltb (o + 2 * chunk_size - 2) dev_end then o + chunk_size else 0)
unfolding chunk_summary
next_chunk_lem dev_end o id h = ground arith

-- Nor do they touch a block behind the last chunk.
pub read_at-with_summaries_behind :
    (n dev_end o id : ℕ) (d : Disk) (p : ℕ)
    → o + n * chunk_size ≤ p
    → o + n * chunk_size < 2 ^ 63
    → id + n < 2 ^ 64
    → read_at (with_summaries n dev_end o id d) p blk_size ≡ read_at d p blk_size
unfolding with_summaries
read_at-with_summaries_behind zero dev_end o id d p h ho hid = refl
read_at-with_summaries_behind (suc n) dev_end o id d p h ho hid =
    let size = length-summary_block dev_end o id (omega arith) (omega arith) in
    read_at-with_summaries_behind n dev_end (o + chunk_size) (id + 1) _ p (omega arith)
      (omega arith) (omega arith)
    ∙ read_at-write_at_apart d o _ p blk_size (inr (omega arith))
