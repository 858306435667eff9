-- ===== src/File/Overwriting.antt =====
-- Sequences of bytes by their places, read and written by windows.
use chunkfs.Base.{
  ℕ, zero, suc, ◌+◌, ◌≤◌, ◌<◌, ◌≡◌, refl, ap, ◌∙◌, List, [], ◌∷◌, arith, length, ◌==◌,
  if◌then◌else◌,
}

-- A sequence of bytes by their places.
abbrev pub Bytes : Type 0
Bytes = ℕ → ℕ

-- The `n` bytes from a place on.
abbrev pub window : Bytes → ℕ → ℕ → List ℕ
window f pos zero = []
window f pos (suc n) = f pos ∷ window f (pos + 1) n

-- The sequence with a list of bytes written from a place on.
abbrev pub overwrite : Bytes → ℕ → List ℕ → Bytes
overwrite f pos [] o = f o
overwrite f pos (b ∷ bs) o = let rest = overwrite f (pos + 1) bs o in if o == pos then b else rest

pub length-window : (f : Bytes) (pos n : ℕ) → length (window f pos n) ≡ n
length-window f pos zero = refl
length-window f pos (suc n) = ap suc (length-window f (pos + 1) n)

-- Two sequences that agree on a window, the second shifted by `s`.
pub window-shift :
    (f g : Bytes) (s pos n : ℕ)
    → ((i : ℕ) → i < n → f (s + pos + i) ≡ g (pos + i))
    → window f (s + pos) n ≡ window g pos n
window-shift f g s pos zero h = refl
window-shift f g s pos (suc n) h =
    let first : f (s + pos) ≡ g pos = ap f (omega arith) ∙ h 0 (omega arith) ∙ ap g (omega arith) in
    let rest : window f (s + (pos + 1)) n ≡ window g (pos + 1) n =
      window-shift f g s (pos + 1) n
        (λ i lt. ap f (omega arith) ∙ h (i + 1) (omega arith) ∙ ap g (omega arith)) in
    let next : s + pos + 1 ≡ s + (pos + 1) = omega arith in rw (first, next, rest)

pub overwrite_before :
    (f : Bytes) (pos : ℕ) (bs : List ℕ) (o : ℕ) → o < pos → overwrite f pos bs o ≡ f o
overwrite_before f pos [] o h = refl
overwrite_before f pos (b ∷ bs) o h =
    ground (arith, overwrite_before f (pos + 1) bs o (omega arith))

pub overwrite_behind :
    (f : Bytes) (pos : ℕ) (bs : List ℕ) (o : ℕ) → pos + length bs ≤ o → overwrite f pos bs o ≡ f o
overwrite_behind f pos [] o h = refl
overwrite_behind f pos (b ∷ bs) o h =
    ground (arith, overwrite_behind f (pos + 1) bs o (omega arith))

pub overwrite-shift :
    (f g : Bytes) (s pos : ℕ) (bs : List ℕ) (o : ℕ)
    → f (s + o) ≡ g o
    → overwrite f (s + pos) bs (s + o) ≡ overwrite g pos bs o
overwrite-shift f g s pos [] o h = h
overwrite-shift f g s pos (b ∷ bs) o h =
    let next : s + pos + 1 ≡ s + (pos + 1) = omega arith in
    rw next (ground (arith, overwrite-shift f g s (pos + 1) bs o h))
