-- ===== src/Decimal.antt =====
-- `sprintf` with `%llu`, and `simple_strtoull` in base 10, as cont.c and super.c use them: numbers
-- as ASCII digits. A `u64` has at most 20 digits.
use chunkfs.Base.{
  ℕ, zero, suc, ◌+◌, ◌-◌, ◌*◌, ◌/◌, ◌%◌, ◌^◌, ◌≤◌, ◌<◌, ◌≡◌, refl, List, [], ◌∷◌, ◌++◌, ◌&&◌, Bool,
  true, inl, inr, Bool-cases, arith, ltb, leb, if◌then◌else◌, length,
}
use native.Mathlib.Nat.{pow-suc}

-- The last `fuel` digits of `n` at most, in front of `rest`.
unfoldable pub digits_onto : ℕ → ℕ → List ℕ → List ℕ
digits_onto zero n rest = rest
digits_onto (suc fuel) n rest =
    let longer = digits_onto fuel (n / 10) ((b'0' + n % 10) ∷ rest) in
    if ltb n 10 then (b'0' + n) ∷ rest else longer

unfoldable pub print_u64 : ℕ → List ℕ
unfolding digits_onto
print_u64 n = digits_onto 20 n []

abbrev is_digit : ℕ → Bool
is_digit c = leb b'0' c && leb c b'9'

-- Digits are read until another byte comes; the value wraps.
unfoldable pub strtoull_from : ℕ → List ℕ → ℕ
strtoull_from acc [] = acc
strtoull_from acc (c ∷ cs) =
    let more = strtoull_from ((acc * 10 + (c - b'0')) % 2 ^ 64) cs in
    if is_digit c then more else acc

unfoldable pub simple_strtoull : List ℕ → ℕ
unfolding strtoull_from
simple_strtoull = strtoull_from 0

strtoull_digit :
    (acc d : ℕ) (cs : List ℕ)
    → d < 10
    → acc * 10 + d < 2 ^ 64
    → strtoull_from acc ((b'0' + d) ∷ cs) ≡ strtoull_from (acc * 10 + d) cs
unfolding strtoull_from
strtoull_digit acc d cs h small =
    let digit : is_digit (b'0' + d) ≡ true = ground arith in
    let value : (acc * 10 + (b'0' + d - b'0')) % 2 ^ 64 ≡ acc * 10 + d = omega arith in
    rw (digit, value)

strtoull_first :
    (d : ℕ) (cs : List ℕ) → d < 10 → strtoull_from 0 ((b'0' + d) ∷ cs) ≡ strtoull_from d cs
strtoull_first d cs h =
    let e : 0 * 10 + d ≡ d = omega arith in rw (strtoull_digit 0 d cs h (omega arith), e)

strtoull-digits_onto :
    (fuel n : ℕ) (rest : List ℕ)
    → n < 10 ^ fuel
    → n < 2 ^ 64
    → 0 < fuel
    → strtoull_from 0 (digits_onto fuel n rest) ≡ strtoull_from n rest
unfolding digits_onto
strtoull-digits_onto zero n rest h small pos = absurd (omega arith)
strtoull-digits_onto (suc zero) n rest h small pos =
    let short : ltb n 10 ≡ true = ground arith in rw short (strtoull_first n rest (omega arith))
strtoull-digits_onto (suc (suc fuel)) n rest h small pos = elim (Bool-cases (ltb n 10)) [
  | inl short ↦ rw short (strtoull_first n rest (ground arith))
  | inr long ↦ rw long (
      rw
        (strtoull-digits_onto (suc fuel) (n / 10) ((b'0' + n % 10) ∷ rest)
          (omega (arith, pow-suc 10 (suc fuel))) (omega arith) (omega arith))
        (let whole : n / 10 * 10 + n % 10 ≡ n = omega arith in
          rw (strtoull_digit (n / 10) (n % 10) rest (omega arith) (omega arith), whole)))
]

length-digits_onto :
    (fuel n : ℕ) (rest : List ℕ) → length (digits_onto fuel n rest) ≤ fuel + length rest
unfolding digits_onto
length-digits_onto zero n rest = omega arith
length-digits_onto (suc fuel) n rest =
    ground (arith, length-digits_onto fuel (n / 10) ((b'0' + n % 10) ∷ rest))

pub length-print_u64 : (n : ℕ) → length (print_u64 n) ≤ 20
unfolding print_u64
length-print_u64 n = length-digits_onto 20 n []

-- A number below `10 ^ w` has at most `w` digits.
length-digits_onto_short :
    (fuel w n : ℕ) (rest : List ℕ)
    → n < 10 ^ w
    → 0 < w
    → length (digits_onto fuel n rest) ≤ w + length rest
unfolding digits_onto
length-digits_onto_short zero w n rest h pos = omega arith
length-digits_onto_short (suc fuel) zero n rest h pos = absurd (omega arith)
length-digits_onto_short (suc fuel) (suc zero) n rest h pos =
    let short : ltb n 10 ≡ true = ground arith in rw short (omega arith)
length-digits_onto_short (suc fuel) (suc (suc w)) n rest h pos = ground (
  arith,
  length-digits_onto_short fuel (suc w) (n / 10) ((b'0' + n % 10) ∷ rest)
      (omega (arith, pow-suc 10 (suc w))) (omega arith),
)

pub length-print_u64_short : (w n : ℕ) → n < 10 ^ w → 0 < w → length (print_u64 n) ≤ w
unfolding print_u64
length-print_u64_short w n h pos = omega (arith, length-digits_onto_short 20 w n [] h pos)

digits_onto-append :
    (fuel n : ℕ) (rest tail : List ℕ)
    → digits_onto fuel n rest ++ tail ≡ digits_onto fuel n (rest ++ tail)
unfolding digits_onto
digits_onto-append zero n rest tail = refl
digits_onto-append (suc fuel) n rest tail = elim (Bool-cases (ltb n 10)) [
  | inl short ↦ rw short
  | inr long ↦ rw long (digits_onto-append fuel (n / 10) ((b'0' + n % 10) ∷ rest) tail)
]

-- A 64-bit number that was printed in decimal, with a NUL and anything behind it, is read back by
-- `simple_strtoull`.
pub strtoull-print_u64 :
    (n : ℕ) (tail : List ℕ) → n < 2 ^ 64 → simple_strtoull (print_u64 n ++ 0 ∷ tail) ≡ n
unfolding simple_strtoull print_u64
strtoull-print_u64 n tail h =
    rw digits_onto-append
      (rw (strtoull-digits_onto 20 n (0 ∷ tail) (omega arith) h (omega arith)) refl)

print_largest : length (print_u64 (2 ^ 64 - 1)) ≡ 20
unfolding print_u64
print_largest = refl
