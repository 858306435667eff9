-- ===== src/Tests/Devices.antt =====
-- Devices with the summaries of chunkfs on them.
use chunkfs.Base.{ℕ, ◌≡◌, refl, true, none, some, List, [], ◌==◌, if◌then◌else◌, Option}
use chunkfs.Format.{
  chunk_image, dev_image, pool_image, chunk_magic, dev_magic, super_magic, fixed_chksum, as_dev,
  check_pool, check_dev,
}
use chunkfs.Format.Bytes.{get_le, put_le}
use chunkfs.Kernel.{Env, Kern, Mnt, found}
use chunkfs.Mkfs.{zero_desc}

abbrev pub chunk : ℕ → ℕ → ℕ → List ℕ
chunk flags id next = chunk_image (record {
  c_magic = chunk_magic;
  c_chksum = fixed_chksum;
  c_flags = flags;
  c_chunk_id = id;
  c_begin = 0;
  c_end = 0;
  c_innards_begin = 0;
  c_innards_end = 0;
  c_next_chunk = next;
  c_client_fs = [];
})

abbrev pub dev : ℕ → List ℕ
dev first = dev_image (record {
  d_magic = dev_magic;
  d_chksum = fixed_chksum;
  d_flags = 0;
  d_uuid = 0;
  d_begin = 0;
  d_end = 0;
  d_innards_begin = first;
  d_innards_end = 0;
  d_root_chunk = 0;
  d_next_dev = zero_desc;
})

abbrev pub pool : List ℕ
pool = pool_image (record {
  p_magic = super_magic;
  p_chksum = fixed_chksum;
  p_flags = 0;
  p_root_desc = zero_desc;
})

abbrev pub client : Mnt
client = record { mnt = 1; mnt_sb = 2 }

-- Blocks 8 and 9 are the pool and the device, blocks 10 and 11 are chunks.
abbrev env : ℕ → Option (List ℕ) → Option (List ℕ) → Env
env first ten eleven = record {
  bread = λ b.
      if b == 8
      then some pool
      else if b == 9
      then some (dev first)
      else if b == 10
      then ten
      else eleven;
  kern_path = λ path. found (record { mnt = 1; mnt_sb = 2 });
  kzalloc = λ n. true;
  set_blocksize = λ b. true;
}

abbrev pub idle : Kern
idle = record { objs = 0; bufs = 0; mnts = 0; calls = 0 }

pub pool_checked : check_pool pool ≡ 0
unfolding check_pool pool_image get_le put_le
pool_checked = refl

pub dev_checked : (first : ℕ) → check_dev (dev first) ≡ 0
unfolding check_dev dev_image get_le put_le
dev_checked first = refl

-- The root at block 10, which leads to a plain chunk at block 11.
abbrev pub two : Env
two = env 40960 (some (chunk 1 1 45056)) (some (chunk 0 2 0))

pub first_of : (as_dev (dev 40960)).d_innards_begin ≡ 40960
unfolding as_dev dev_image get_le put_le
first_of = refl

pub none_of : (as_dev (dev 0)).d_innards_begin ≡ 0
unfolding as_dev dev_image get_le put_le
none_of = refl

-- A plain chunk alone, once as the end of the chain and once as its own successor.
abbrev pub plain : Env
plain = env 40960 (some (chunk 0 2 0)) none

abbrev pub cyclic : Env
cyclic = env 40960 (some (chunk 0 2 40960)) none

-- A root, whose successor cannot be read.
abbrev pub broken : Env
broken = env 40960 (some (chunk 1 1 45056)) none

abbrev pub empty : Env
empty = env 0 none none
