-- ===== src/Format/Bytes.antt =====
-- Little-endian fields in a run of bytes: what `__cpu_to_le64` and its kin store in a struct, and
-- what a read of that field gives back. A run of bytes is a list of numbers below 256.
use native.Mathlib.Nat.{pow-suc}
use chunkfs.Base.{
  ℕ, zero, suc, ◌+◌, ◌*◌, ◌/◌, ◌%◌, ◌^◌, ◌<◌, ◌≡◌, refl, ap, List, [], ◌∷◌, ◌++◌, arith, length,
  take, drop,
}

-- The `w` bytes of `v`, in front of `rest`.
unfoldable pub put_le : ℕ → ℕ → List ℕ → List ℕ
put_le zero v rest = rest
put_le (suc w) v rest = v % 256 ∷ put_le w (v / 256) rest

-- The number in the first `w` bytes, and what follows them.
unfoldable pub get_le : ℕ → List ℕ → ℕ × List ℕ
get_le zero bs = (0, bs)
get_le (suc w) [] = (0, [])
get_le (suc w) (b ∷ bs) = let (v, rest) = get_le w bs in (b + 256 * v, rest)

-- A `char[n]`, and what follows it.
abbrev pub get_bytes : ℕ → List ℕ → List ℕ × List ℕ
get_bytes n bs = (take n bs, drop n bs)

pub get_le-put_le : (w v : ℕ) (rest : List ℕ) → v < 256 ^ w → get_le w (put_le w v rest) ≡ (v, rest)
unfolding get_le put_le
get_le-put_le zero v rest h = ground arith
get_le-put_le (suc w) v rest h =
    let small : v / 256 < 256 ^ w = omega (arith, pow-suc 256 w) in
    rw (get_le-put_le w (v / 256) rest small) (ap (λ (n : ℕ). (n, rest)) (omega arith))

pub put_le-append :
    (w v : ℕ) (rest tail : List ℕ) → put_le w v rest ++ tail ≡ put_le w v (rest ++ tail)
unfolding put_le
put_le-append zero v rest tail = refl
put_le-append (suc w) v rest tail = rw (put_le-append w (v / 256) rest tail)

pub length-put_le : (w v : ℕ) (rest : List ℕ) → length (put_le w v rest) ≡ w + length rest
unfolding put_le
length-put_le zero v rest = omega arith
length-put_le (suc w) v rest = omega (arith, length-put_le w (v / 256) rest)

pub take_whole : (n : ℕ) (xs rest : List ℕ) → length xs ≡ n → take n (xs ++ rest) ≡ xs
take_whole zero [] rest h = refl
take_whole zero (x ∷ xs) rest h = absurd (omega arith)
take_whole (suc n) [] rest h = absurd (omega arith)
take_whole (suc n) (x ∷ xs) rest h = rw (take_whole n xs rest (omega arith))

pub drop_whole : (n : ℕ) (xs rest : List ℕ) → length xs ≡ n → drop n (xs ++ rest) ≡ rest
drop_whole zero [] rest h = refl
drop_whole zero (x ∷ xs) rest h = absurd (omega arith)
drop_whole (suc n) [] rest h = absurd (omega arith)
drop_whole (suc n) (x ∷ xs) rest h = drop_whole n xs rest (omega arith)
