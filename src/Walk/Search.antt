-- ===== src/Walk/Search.antt =====
-- cont.c: `chunkfs_get_cont_at_offset` on a file's list of continuations.
use chunkfs.Base.{
  ltb, ℕ, suc, ◌+◌, ◌^◌, ◌≤◌, ◌<◌, ◌≡◌, ◌↔◌, refl, ap, ◌∙◌, ◌⊎◌, inl, inr, true, false, none, List,
  [], ◌∷◌, arith, length, ◌++◌, length-append, Bool-cases,
}
use chunkfs.Kernel.{Ret, ok, err, enoent}
use chunkfs.Client.{Client}
use chunkfs.Cont.{ContData, Continuation, Head, World}
use chunkfs.Walk.{covers, get_cont_at_offset}
use chunkfs.Walk.Path.{ContPath, HasMemory}
use chunkfs.Walk.FirstCover.{first_cover, get_cont_at_offset-first_cover}

-- The continuations hold adjoining ranges of bytes, the first from byte `s` on.
abbrev pub Adjoin : ℕ → List Continuation → Type 0
Adjoin s [] = Unit
Adjoin s (n ∷ ns) = (n.co_cd.cd_start ≡ s) × Adjoin (s + n.co_cd.cd_len) ns

-- Where they end.
abbrev pub end_from : ℕ → List Continuation → ℕ
end_from s [] = s
end_from s (n ∷ ns) = end_from (s + n.co_cd.cd_len) ns

pub end_from_grows : (s : ℕ) (ns : List Continuation) → s ≤ end_from s ns
end_from_grows s [] = omega arith
end_from_grows s (n ∷ ns) = omega (arith, end_from_grows (s + n.co_cd.cd_len) ns)

abbrev pub Has : Continuation → List Continuation → Type 0
Has n [] = ⊥
Has n (m ∷ ms) = (n ≡ m) ⊎ Has n ms

-- The continuation `n` of the list holds the byte at the offset.
pub record Holder (offset : ℕ) (ns : List Continuation) (n : Continuation) : Type 0 where
  pub member : Has n ns
  pub from : n.co_cd.cd_start ≤ offset
  pub to : offset < n.co_cd.cd_start + n.co_cd.cd_len

covers_iff :
    (offset : ℕ) (cd : ContData)
    → cd.cd_start + cd.cd_len < 2 ^ 64
    → (covers offset cd ≡ true) ↔ ((cd.cd_start ≤ offset) × (offset < cd.cd_start + cd.cd_len))
unfolding covers
covers_iff offset cd h = ground arith

not_covered :
    (offset : ℕ) (cd : ContData)
    → cd.cd_start + cd.cd_len < 2 ^ 64
    → cd.cd_start + cd.cd_len ≤ offset
    → covers offset cd ≡ false
unfolding covers
not_covered offset cd h past = ground arith

first_cover-Holder :
    (offset s : ℕ) (ns : List Continuation)
    → Adjoin s ns
    → end_from s ns < 2 ^ 64
    → s ≤ offset
    → offset < end_from s ns
    → (n : Continuation) × ((first_cover offset ns).0 ≡ ok n) × Holder offset ns n
unfolding first_cover
first_cover-Holder offset s [] adj small lo hi = absurd (omega arith)
first_cover-Holder offset s (n ∷ ns) adj small lo hi =
    let grows = end_from_grows (s + n.co_cd.cd_len) ns in
    elim (Bool-cases (covers offset n.co_cd)) [
      | inl here ↦ (
        n,
        rw here,
        (let within = (covers_iff offset n.co_cd (omega arith)).0 here in
            record { member = inl refl; from = within.0; to = within.1 }),
      )
      | inr later ↦
          let past : s + n.co_cd.cd_len ≤ offset = unfold covers in ground (arith, adj.0) in
          let (m, e, h) = first_cover-Holder offset (s + n.co_cd.cd_len) ns adj.1 small past hi in
          (m, rw later e, record { member = inr h.member; from = h.from; to = h.to })
    ]

first_cover_past :
    (offset s : ℕ) (ns : List Continuation)
    → Adjoin s ns
    → end_from s ns < 2 ^ 64
    → end_from s ns ≤ offset
    → first_cover offset ns ≡ (err enoent, length ns)
unfolding first_cover
first_cover_past offset s [] adj small h = refl
first_cover_past offset s (n ∷ ns) adj small h =
    let grows = end_from_grows (s + n.co_cd.cd_len) ns in
    let past = not_covered offset n.co_cd (omega (arith, adj.0)) (omega (arith, adj.0)) in
    let count : length ns + 1 ≡ suc (length ns) = omega arith in
    rw (past, first_cover_past offset (s + n.co_cd.cd_len) ns adj.1 small h, count)

pub lt-or-le : (a b : ℕ) → (a < b) ⊎ (b ≤ a)
lt-or-le a b = elim (Bool-cases (ltb a b)) [
  | inl h ↦ inl (ground arith)
  | inr h ↦ inr (ground arith)
]

-- The two cases of the search, each under its condition.
pub get_cont_at_offset-cases :
    (c : Client) (head : Head) (offset fuel : ℕ) (w : World c.State) (ns : List Continuation)
    → HasMemory c
    → ContPath c w.fs head none ns
    → Adjoin 0 ns
    → end_from 0 ns < 2 ^ 64
    → length ns < fuel
    → let (r, w') = get_cont_at_offset c fuel head offset w in
      (w'.fs ≡ w.fs)
      × (offset < end_from 0 ns → (n : Continuation) × (r ≡ ok n) × Holder offset ns n)
      × (end_from 0 ns ≤ offset → r ≡ err enoent)
get_cont_at_offset-cases c head offset fuel w ns memory path adj small h =
    let (same, fs, conts) = get_cont_at_offset-first_cover c memory head offset fuel w path h in
    (
      fs,
      λ inside.
          let (n, e, holds) = first_cover-Holder offset 0 ns adj small (omega arith) inside in
          (n, same ∙ e, holds),
      λ past.
          same
          ∙ ap (λ (p : Ret Continuation × ℕ). p.0) (first_cover_past offset 0 ns adj small past),
    )

-- On a file whose continuations adjoin from byte 0 on and end below `2 ^ 64`, with memory and with
-- more fuel than continuations, an offset inside the file is looked up in a continuation of the
-- file that holds it, and an offset at the end or behind gives `-ENOENT`. Neither changes the
-- clients.
pub get_cont_at_offset_lem :
    (c : Client) (head : Head) (offset fuel : ℕ) (w : World c.State) (ns : List Continuation)
    → HasMemory c
    → ContPath c w.fs head none ns
    → Adjoin 0 ns
    → end_from 0 ns < 2 ^ 64
    → length ns < fuel
    → let (r, w') = get_cont_at_offset c fuel head offset w in
      (w'.fs ≡ w.fs)
      × (((offset < end_from 0 ns) × ((n : Continuation) × (r ≡ ok n) × Holder offset ns n))
          ⊎ ((end_from 0 ns ≤ offset) × (r ≡ err enoent)))
get_cont_at_offset_lem c head offset fuel w ns memory path adj small h =
    let (fs, found, missed) =
      get_cont_at_offset-cases c head offset fuel w ns memory path adj small h in
    (
      fs,
      elim (lt-or-le offset (end_from 0 ns)) [
        | inl inside ↦ inl (inside, found inside)
        | inr past ↦ inr (past, missed past)
      ],
    )

first_cover_at :
    (offset s : ℕ) (before : List Continuation) (n : Continuation) (behind : List Continuation)
    → Adjoin s (before ++ n ∷ behind)
    → end_from s (before ++ n ∷ behind) < 2 ^ 64
    → n.co_cd.cd_start ≤ offset
    → offset < n.co_cd.cd_start + n.co_cd.cd_len
    → (s ≤ n.co_cd.cd_start)
      × (first_cover offset (before ++ n ∷ behind) ≡ (ok n, length before + 1))
unfolding first_cover
first_cover_at offset s [] n behind adj small from to =
    let grows = end_from_grows (s + n.co_cd.cd_len) behind in
    let here : covers offset n.co_cd ≡ true = unfold covers in ground (arith, adj.0) in
    (omega (arith, adj.0), rw here)
first_cover_at offset s (m ∷ before) n behind adj small from to =
    let (le, e) = first_cover_at offset (s + m.co_cd.cd_len) before n behind adj.1 small from to in
    let grows = end_from_grows (s + m.co_cd.cd_len) (before ++ n ∷ behind) in
    let later = not_covered offset m.co_cd (omega (arith, adj.0)) (omega (arith, adj.0)) in
    let count : length before + 1 + 1 ≡ suc (length before) + 1 = omega arith in
    (omega arith, rw (later, e, count))

-- A search that finds the continuation `n` has then allocated one continuation more than there are
-- before `n`, so that those before it stay allocated with nothing that points to them. The file's
-- ranges adjoin and end below `2 ^ 64`, there is memory, and the fuel exceeds the number of
-- continuations.
pub get_cont_at_offset_leaks :
    (c : Client) (head : Head) (offset fuel : ℕ) (w : World c.State) (before : List Continuation)
    (n : Continuation) (behind : List Continuation)
    → HasMemory c
    → ContPath c w.fs head none (before ++ n ∷ behind)
    → Adjoin 0 (before ++ n ∷ behind)
    → end_from 0 (before ++ n ∷ behind) < 2 ^ 64
    → n.co_cd.cd_start ≤ offset
    → offset < n.co_cd.cd_start + n.co_cd.cd_len
    → length before + length behind + 1 < fuel
    → let (r, w') = get_cont_at_offset c fuel head offset w in
      (r ≡ ok n) × (w'.conts ≡ w.conts + 1 + length before)
get_cont_at_offset_leaks c head offset fuel w before n behind memory path adj small from to h =
    let ns = before ++ n ∷ behind in
    let all = length-append before (n ∷ behind) in
    let (same, fs, conts) =
      get_cont_at_offset-first_cover c memory head offset fuel w path (omega arith) in
    let e = (first_cover_at offset 0 before n behind adj small from to).1 in
    (
      same ∙ ap (λ (p : Ret Continuation × ℕ). p.0) e,
      conts ∙ ap (λ (p : Ret Continuation × ℕ). w.conts + p.1) e ∙ omega arith,
    )
