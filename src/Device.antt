-- ===== src/Device.antt =====
-- The bytes of a device, and reads and writes of a run of them.
use mathlib.Core.Path.{ap₂}
use chunkfs.Base.{
  ℕ, zero, suc, ◌+◌, ◌-◌, ◌≤◌, ◌<◌, ◌≡◌, refl, ap, ◌∙◌, ◌⊎◌, Option, none, some, List, [], ◌∷◌,
  arith, leb, if◌then◌else◌, length, get_elem?,
}

abbrev pub Disk : Type 0
Disk = ℕ → ℕ

abbrev or_else : ℕ → Option ℕ → ℕ
or_else old none = old
or_else old (some b) = b

unfoldable pub write_at : Disk → ℕ → List ℕ → Disk
write_at d offset bs i = if leb offset i then or_else (d i) (get_elem? bs (i - offset)) else d i

unfoldable pub read_at : Disk → ℕ → ℕ → List ℕ
read_at d offset zero = []
read_at d offset (suc n) = d offset ∷ read_at d (offset + 1) n

pub length-read_at : (d : Disk) (o n : ℕ) → length (read_at d o n) ≡ n
unfolding read_at
length-read_at d o zero = refl
length-read_at d o (suc n) = ap suc (length-read_at d (o + 1) n)

read_at_ext :
    (f g : Disk) (o n : ℕ)
    → ((i : ℕ) → o ≤ i → i < o + n → f i ≡ g i)
    → read_at f o n ≡ read_at g o n
unfolding read_at
read_at_ext f g o zero same = refl
read_at_ext f g o (suc n) same =
    ap₂ ◌∷◌ (same o (omega arith) (omega arith))
      (read_at_ext f g (o + 1) n (λ i lo hi. same i (omega arith) (omega arith)))

get_elem?_past : (bs : List ℕ) (k : ℕ) → length bs ≤ k → get_elem? bs k ≡ none
get_elem?_past [] k h = refl
get_elem?_past (b ∷ bs) zero h = absurd (omega arith)
get_elem?_past (b ∷ bs) (suc k) h = get_elem?_past bs k (omega arith)

-- Behind its first byte, a write is the write of the rest.
write_at-cons :
    (d : Disk) (o b : ℕ) (bs : List ℕ) (i : ℕ)
    → o + 1 ≤ i
    → write_at d o (b ∷ bs) i ≡ write_at d (o + 1) bs i
unfolding write_at
write_at-cons d o b bs i h = let e : i - o ≡ suc (i - (o + 1)) = omega arith in rw e (ground arith)

write_at_first : (d : Disk) (o b : ℕ) (bs : List ℕ) → write_at d o (b ∷ bs) o ≡ b
unfolding write_at
write_at_first d o b bs = let e : o - o ≡ 0 = omega arith in rw e (ground arith)

-- What was written is read back.
pub read_at-write_at_self :
    (d : Disk) (o : ℕ) (bs : List ℕ) (n : ℕ) → length bs ≡ n → read_at (write_at d o bs) o n ≡ bs
unfolding read_at
read_at-write_at_self d o [] zero h = refl
read_at-write_at_self d o [] (suc n) h = absurd (omega arith)
read_at-write_at_self d o (b ∷ bs) zero h = absurd (omega arith)
read_at-write_at_self d o (b ∷ bs) (suc n) h = ap₂ ◌∷◌ (write_at_first d o b bs) (
    read_at_ext (write_at d o (b ∷ bs)) (write_at d (o + 1) bs) (o + 1) n
      (λ i lo hi. write_at-cons d o b bs i lo)
    ∙ read_at-write_at_self d (o + 1) bs n (omega arith))

-- A write leaves the bytes before it and behind it alone.
pub read_at-write_at_apart :
    (d : Disk) (o : ℕ) (bs : List ℕ) (p n : ℕ)
    → (p + n ≤ o) ⊎ (o + length bs ≤ p)
    → read_at (write_at d o bs) p n ≡ read_at d p n
unfolding write_at
read_at-write_at_apart d o bs p n apart =
    read_at_ext (write_at d o bs) d p n (λ i lo hi. outside i lo hi)
  where
    outside : (i : ℕ) → p ≤ i → i < p + n → write_at d o bs i ≡ d i
    outside i lo hi = ground (arith, get_elem?_past bs (i - o))
