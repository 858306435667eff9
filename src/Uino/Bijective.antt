-- ===== src/Uino/Bijective.antt =====
-- chunkfs_i.h: the macros as an equivalence of types.
use chunkfs.Base.{ℕ, ◌^◌, ◌<◌, ◌≡◌, arith}
use native.Mathlib.Bridge.{le_prop}
use mathlib.Core.HLevel.{Σ_prop_path}
use std.Equiv.{IsEquiv, iso_to_equiv}
use chunkfs.Uino.{uino_to_chunk_id, uino_to_ino, make_uino}
use chunkfs.Uino.RoundTrip.{
  uino_to_chunk_id_arith, uino_to_ino_arith, make_uino_arith, split_make_uino, make_uino_split,
}

-- The numbers below a bound.
abbrev pub Below : ℕ → Type 0
Below n = (k : ℕ) × (k < n)

Below-ext : (n : ℕ) (a b : Below n) → a.0 ≡ b.0 → a ≡ b
Below-ext n a b e = Σ_prop_path (λ k. le_prop) e

pub chunk_id-lt : (u : ℕ) → uino_to_chunk_id u < 16
chunk_id-lt u = omega (arith, uino_to_chunk_id_arith u)

pub ino-lt : (u : ℕ) → uino_to_ino u < 2 ^ 28
ino-lt u = omega (arith, uino_to_ino_arith u)

pub make_uino-lt : (id ino : ℕ) → id < 16 → ino < 2 ^ 28 → make_uino id ino < 2 ^ 32
make_uino-lt id ino h k = omega (arith, make_uino_arith id ino (omega arith) k)

-- An inode number of 32 bits, split and joined.
abbrev pub split : Below (2 ^ 32) → Below 16 × Below (2 ^ 28)
split (u, h) = ((uino_to_chunk_id u, chunk_id-lt u), (uino_to_ino u, ino-lt u))

abbrev pub join : Below 16 × Below (2 ^ 28) → Below (2 ^ 32)
join ((id, h), (ino, k)) = (make_uino id ino, make_uino-lt id ino h k)

split-join : (x : Below 16 × Below (2 ^ 28)) → split (join x) ≡ x
split-join ((id, h), (ino, k)) =
    let (a, b) = split_make_uino id ino (omega arith) k in
    let own : uino_to_chunk_id (make_uino id ino) ≡ id = omega (arith, a) in
    let u = make_uino id ino in
    let left : (split (join ((id, h), (ino, k)))).0 ≡ (id, h) =
      Below-ext 16 (uino_to_chunk_id u, chunk_id-lt u) (id, h) own in
    let right : (split (join ((id, h), (ino, k)))).1 ≡ (ino, k) =
      Below-ext (2 ^ 28) (uino_to_ino u, ino-lt u) (ino, k) b in
    λ i. (left i, right i)

join-split : (u : Below (2 ^ 32)) → join (split u) ≡ u
join-split (u, h) = Below-ext (2 ^ 32) _ _ (make_uino_split u h)

-- Splitting an inode number by the macros is an equivalence between the type of numbers below `2 ^
-- 32` and the type of pairs of a chunk number below 16 and a client inode number below `2 ^ 28`;
-- what `MAKE_UINO` joins is split into the same pair.
pub split-IsEquiv : IsEquiv split × ((x : Below 16 × Below (2 ^ 28)) → split (join x) ≡ x)
split-IsEquiv = (
  (iso_to_equiv (record { fun = split; inv = join; rinv = split-join; linv = join-split })).1,
  split-join,
)
