-- ===== src/WritePattern.antt =====
-- write_pattern.c: a program that writes a pattern of 32 MiB to a file. What the file's system answers to
-- each `write`, given the buffer and its size, is a parameter. The messages are left out.
use chunkfs.Base.{
  ℕ, zero, suc, ◌+◌, ◌*◌, ◌≤◌, ◌<◌, ◌≡◌, inl, inr, Bool, List, [], ◌∷◌, true, false, ltb,
  if◌then◌else◌, arith, Bool-cases,
}
use chunkfs.Kernel.{Ret, ok, err, out_of_fuel}
use chunkfs.Client.{Transfer, moved, refused_io}

-- `FILE_SIZE`, and the size of the buffer.
abbrev pub file_size : ℕ
file_size = 32 * 1024 * 1024

abbrev pub buf_size : ℕ
buf_size = 4096

-- The buffer, filled with the character 5.
unfoldable pub buf : ℕ → List ℕ
buf zero = []
buf (suc n) = b'5' ∷ buf n

-- The loop, with the number of calls made and of bytes written. An error ends the program with code 1.
unfoldable pub write_loop : (ℕ → List ℕ → ℕ → Transfer ℕ) → ℕ → ℕ → ℕ → Ret ℕ
write_loop write zero turn written = out_of_fuel
write_loop write (suc fuel) turn written = elim (ltb written file_size) [
  | true ↦ elim (write turn (buf buf_size) buf_size) [
    | moved n ↦ write_loop write fuel (turn + 1) (written + n)
    | refused_io e ↦ err 1
  ]
  | false ↦ ok written
]

-- `usage` ends the program with code 1 too. The result is the number of bytes written.
unfoldable pub write_pattern : Bool → Bool → (ℕ → List ℕ → ℕ → Transfer ℕ) → ℕ → Ret ℕ
unfolding write_loop
write_pattern one_argument opens write fuel =
    if one_argument then (if opens then write_loop write fuel 0 0 else err 1) else err 1

-- Documented behaviour of a `write` that does not fail: some bytes are taken, at most those given.
abbrev pub Takes : (ℕ → List ℕ → ℕ → Transfer ℕ) → Type 0
Takes write =
    (turn : ℕ) → (n : ℕ) × (write turn (buf buf_size) buf_size ≡ moved n) × (1 ≤ n) × (n ≤ buf_size)

write_loop_ends :
    (write : ℕ → List ℕ → ℕ → Transfer ℕ) (fuel turn written : ℕ)
    → Takes write
    → 0 < fuel
    → file_size < fuel + written
    → written < file_size + buf_size
    → (total : ℕ) × (write_loop write fuel turn written ≡ ok total)
      × (file_size ≤ total)
      × (total < file_size + buf_size)
unfolding write_loop
write_loop_ends write zero turn written takes pos enough most = absurd (omega arith)
write_loop_ends write (suc fuel) turn written takes pos enough most =
    elim (Bool-cases (ltb written file_size)) [
      | inl more ↦
          let (n, took, some_bytes, few) = takes turn in
          rw (write_loop, more, took)
            (write_loop_ends write fuel (turn + 1) (written + n) takes (ground (arith, more))
              (omega arith) (ground (arith, more)))
      | inr done ↦ (written, rw (write_loop, done), ground (arith, done), most)
    ]

-- `write_pattern`, where every `write` takes at least one byte and at most those given, ends with
-- code 0 and has written at least 32 MiB and less than one buffer more; the fuel exceeds the number
-- of bytes.
pub write_pattern_ends :
    (write : ℕ → List ℕ → ℕ → Transfer ℕ) (fuel : ℕ)
    → Takes write
    → file_size < fuel
    → (total : ℕ) × (write_pattern true true write fuel ≡ ok total)
      × (file_size ≤ total)
      × (total < file_size + buf_size)
unfolding write_pattern
write_pattern_ends write fuel takes enough =
    write_loop_ends write fuel 0 0 takes (omega arith) (omega arith) (omega arith)
