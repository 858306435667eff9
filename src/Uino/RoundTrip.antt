-- ===== src/Uino/RoundTrip.antt =====
-- chunkfs_i.h: the macros as arithmetic.
use chunkfs.Base.{ℕ, ◌+◌, ◌*◌, ◌/◌, ◌%◌, ◌^◌, ◌<◌, ◌≡◌, ◌↔◌, arith}
use chunkfs.Base.Bits.{bit_and_shifted, bit_and_low, bit_or_fields}
use chunkfs.Uino.{uino_to_chunk_id, uino_to_ino, make_uino}

pub uino_to_chunk_id_arith : (u : ℕ) → uino_to_chunk_id u ≡ u / 2 ^ 28 % 16
unfolding uino_to_chunk_id
uino_to_chunk_id_arith u = omega (arith, bit_and_shifted 28 u 15, bit_and_low 4 (u / 2 ^ 28))

pub uino_to_ino_arith : (u : ℕ) → uino_to_ino u ≡ u % 2 ^ 28
unfolding uino_to_ino
uino_to_ino_arith u = bit_and_low 28 u

pub make_uino_arith : (c i : ℕ) → c < 2 ^ 36 → i < 2 ^ 28 → make_uino c i ≡ c * 2 ^ 28 + i
unfolding make_uino
make_uino_arith c i hc hi =
    let small : c * 2 ^ 28 % 2 ^ 64 ≡ c * 2 ^ 28 = omega arith in rw small (bit_or_fields 28 c i hi)

-- For a chunk number of at most 36 bits and a client inode number of at most 28 bits, the inode
-- number made of them gives the client's number back, and the chunk number modulo 16.
pub split_make_uino :
    (c i : ℕ)
    → c < 2 ^ 36
    → i < 2 ^ 28
    → (uino_to_chunk_id (make_uino c i) ≡ c % 16) × (uino_to_ino (make_uino c i) ≡ i)
split_make_uino c i hc hi = (
  omega (arith, uino_to_chunk_id_arith (make_uino c i), make_uino_arith c i hc hi),
  omega (arith, uino_to_ino_arith (make_uino c i), make_uino_arith c i hc hi),
)

-- A chunk number of at most 36 bits is recovered from the inode number made of it and a client
-- inode number of at most 28 bits exactly when it is below 16.
pub chunk_id_survives_iff :
    (c i : ℕ) → c < 2 ^ 36 → i < 2 ^ 28 → (uino_to_chunk_id (make_uino c i) ≡ c) ↔ (c < 16)
chunk_id_survives_iff c i hc hi =
    (λ e. omega (arith, split_make_uino c i hc hi), λ h. omega (arith, split_make_uino c i hc hi))

-- An inode number that fits 32 bits is put together again from its chunk number and its client
-- inode number.
pub make_uino_split : (u : ℕ) → u < 2 ^ 32 → make_uino (uino_to_chunk_id u) (uino_to_ino u) ≡ u
make_uino_split u h =
    let c : uino_to_chunk_id u ≡ u / 2 ^ 28 = omega (arith, uino_to_chunk_id_arith u) in
    let i : uino_to_ino u ≡ u % 2 ^ 28 = uino_to_ino_arith u in
    rw (c, i) (omega (arith, make_uino_arith (u / 2 ^ 28) (u % 2 ^ 28) (omega arith) (omega arith)))
