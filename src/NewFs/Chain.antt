-- ===== src/NewFs/Chain.antt =====
-- The summaries that `mkfs.chunkfs` wrote, followed through their pointers by the kernel.
use chunkfs.Base.{
  Bool-cases, inl, inr, ℕ, zero, suc, ◌+◌, ◌*◌, ◌/◌, ◌%◌, ◌^◌, ◌≤◌, ◌<◌, ◌≡◌, ◌≢◌, refl, ap, ◌∙◌,
  some, List, [], ◌∷◌, map, arith, ◌==◌, if◌then◌else◌,
}
use chunkfs.Decimal.{length-print_u64_short}
use chunkfs.Device.{Disk, read_at}
use chunkfs.Format.{blk_size, chunk_size, fixed_chksum, as_chunk, check_chunk}
use chunkfs.Kernel.{Env, Mnt, found}
use chunkfs.Mount.{is_root, mount_path, chunk_info}
use chunkfs.Mount.Chain.{Link, ChunkPath, done, link, info}
use chunkfs.Mount.Outcomes.{Plain}
use chunkfs.Mkfs.{chunk_summary}
use chunkfs.Mkfs.Metadata.{as_chunk-metadata_block, check_chunk-metadata_block}
use chunkfs.Mkfs.Summaries.{Room, Stored, summary_block, chunk_summary-IsChunk, next_chunk_lem}

-- The kernel reads blocks of the device `d` of `raw` bytes, and finds the client file system of
-- chunk `id` mounted at its place.
pub record Serves (env : Env) (mnt : ℕ → Mnt) (raw : ℕ) (d : Disk) : Type 0 where
  pub blocks :
      (b : ℕ)
      → b * blk_size + blk_size ≤ raw
      → env.bread b ≡ some (read_at d (b * blk_size) blk_size)
  pub mounts : (id : ℕ) → env.kern_path (mount_path id) ≡ found (mnt id)

-- The chain of `n` summaries, with their mounts.
abbrev pub links : (ℕ → Mnt) → ℕ → ℕ → ℕ → ℕ → List (List ℕ × Mnt)
links mnt dev_end zero o id = []
links mnt dev_end (suc n) o id =
    (summary_block dev_end o id, mnt id) ∷ links mnt dev_end n (o + chunk_size) (id + 1)

-- The pointer of the last summary, when `o` is where the next chunk would begin: 0, unless the
-- device ends one byte short of that chunk.
abbrev pub last_pointer : ℕ → ℕ → ℕ
last_pointer dev_end o = if dev_end + 1 == o + chunk_size then o else 0

-- The pointer to a chain of `n` summaries from `o` on, where the last one points to `stop`.
abbrev pub pointer : ℕ → ℕ → ℕ → ℕ
pointer zero o stop = stop
pointer (suc n) o stop = o

as_chunk-summary_block :
    (dev_end o id : ℕ)
    → o < 2 ^ 64
    → id < 2 ^ 64
    → as_chunk (summary_block dev_end o id)
      ≡ record (chunk_summary dev_end o id) { c_chksum = fixed_chksum }
as_chunk-summary_block dev_end o id ho hid =
    as_chunk-metadata_block (chunk_summary dev_end o id) (chunk_summary-IsChunk dev_end o id ho hid)

check_chunk-summary_block : (dev_end o id : ℕ) → check_chunk (summary_block dev_end o id) ≡ 0
check_chunk-summary_block dev_end o id =
    check_chunk-metadata_block (chunk_summary dev_end o id) (unfold chunk_summary in omega arith)
    ∙ (unfold chunk_summary in refl)

pub chunk_id_lem :
    (dev_end o id : ℕ)
    → o < 2 ^ 64
    → id < 2 ^ 64
    → (as_chunk (summary_block dev_end o id)).c_chunk_id ≡ id
chunk_id_lem dev_end o id ho hid =
    rw (as_chunk-summary_block dev_end o id ho hid) (unfold chunk_summary in refl)

next_is_pointer :
    (n dev_end o id : ℕ)
    → Room (suc n) o dev_end
    → id < 2 ^ 64
    → dev_end < 2 ^ 62
    → (as_chunk (summary_block dev_end o id)).c_next_chunk
      ≡ pointer n (o + chunk_size) (last_pointer dev_end (o + suc n * chunk_size))
next_is_pointer zero dev_end o id room hid small =
    rw (as_chunk-summary_block dev_end o id (omega (arith, room.begins)) hid) (
      next_chunk_lem dev_end o id (omega (arith, room.enough))
      ∙ ground (arith, room.last, room.enough))
next_is_pointer (suc n) dev_end o id room hid small =
    rw (as_chunk-summary_block dev_end o id (omega (arith, room.begins)) hid)
      (next_chunk_lem dev_end o id (omega (arith, room.enough)) ∙ ground (arith, room.enough))

module _ (env : Env) (mnt : ℕ → Mnt) (raw : ℕ) (d : Disk) (serves : Serves env mnt raw d)
    (dev_end : ℕ) where
  summary_Link :
      (o id : ℕ)
      → o ≢ 0
      → o % blk_size ≡ 0
      → o + blk_size ≤ raw
      → o < 2 ^ 64
      → id < 10 ^ 11
      → read_at d o blk_size ≡ summary_block dev_end o id
      → Link env o (summary_block dev_end o id) (mnt id)
  summary_Link o id ne aligned inside ho hid stored =
      let whole : o / blk_size * blk_size ≡ o = omega arith in
      let block : env.bread (o / blk_size) ≡ some (summary_block dev_end o id) =
        serves.blocks (o / blk_size) (omega arith)
        ∙ ap (λ p. some (read_at d p blk_size)) whole
        ∙ ap some stored in
      let same = chunk_id_lem dev_end o id ho (omega arith) in
      record {
        offset = ne;
        block = block;
        checked = check_chunk-summary_block dev_end o id;
        short =
            rw same
              (unfold mount_path in omega (arith, length-print_u64_short 11 id hid (omega arith)));
        mounted = rw same (serves.mounts id);
      }

  pub Stored-ChunkPath :
      (n o id : ℕ)
      → Stored d dev_end n o id
      → Room n o dev_end
      → dev_end + 2 ≤ raw
      → dev_end < 2 ^ 62
      → o ≢ 0
      → o % blk_size ≡ 0
      → id + n < 10 ^ 11
      → let stop = last_pointer dev_end (o + n * chunk_size) in
        ChunkPath env stop (pointer n o stop) (links mnt dev_end n o id)
  Stored-ChunkPath zero o id st room fits small ne aligned ids = done
  Stored-ChunkPath (suc n) o id st room fits small ne aligned ids =
      let same : o + chunk_size + n * chunk_size ≡ o + suc n * chunk_size = omega arith in
      let rest =
        Stored-ChunkPath n (o + chunk_size) (id + 1) st.1
          (record {
            enough = omega (arith, room.enough);
            last = omega (arith, room.last);
            size = room.size;
            begins = omega (arith, room.enough, room.size);
          })
          fits small (omega arith) (omega arith) (omega arith) in
      link
        (summary_Link o id ne aligned (omega (arith, room.enough)) (omega (arith, room.begins))
          (omega arith) st.0)
        (rw (next_is_pointer n dev_end o id room (omega arith) small) (rw same at rest))

-- Chunk 1 is the root, and no other is.
pub summary-root :
    (m : Mnt) (dev_end o id : ℕ)
    → o < 2 ^ 64
    → id < 2 ^ 64
    → is_root (chunk_info (summary_block dev_end o id) m) ≡ (id == 1)
unfolding chunk_info chunk_summary
summary-root m dev_end o id ho hid = elim (Bool-cases (id == 1)) [
  | inl first ↦ rw (as_chunk-summary_block dev_end o id ho hid, first)
  | inr later ↦ rw (as_chunk-summary_block dev_end o id ho hid, later)
]

pub links-Plain :
    (mnt : ℕ → Mnt) (n dev_end o id : ℕ)
    → o + n * chunk_size < 2 ^ 63
    → id + n < 2 ^ 64
    → 1 < id
    → Plain (map info (links mnt dev_end n o id))
links-Plain mnt zero dev_end o id h small more = tt
links-Plain mnt (suc n) dev_end o id h small more = (
  summary-root (mnt id) dev_end o id (omega arith) (omega arith) ∙ ground arith,
  links-Plain mnt n dev_end (o + chunk_size) (id + 1) (omega arith) (omega arith) (omega arith),
)
