-- ===== src/Cont/Attributes.antt =====
-- cont.c: `set_cont_data` and `get_cont_data` on the attributes of a client inode.
use chunkfs.Base.{
  ℕ, ◌^◌, ◌<◌, ◌≡◌, ◌∙◌, ◌≢◌, refl, ap, ◌⊎◌, inl, inr, true, List, [], ◌∷◌, ◌++◌, arith, ltb,
  length, length-append, drop,
}
use mathlib.Core.List.{append_assoc}
use chunkfs.Decimal.{print_u64, strtoull-print_u64, length-print_u64}
use chunkfs.Kernel.{Ret, ok, err, bug, out_of_fuel}
use chunkfs.Client.{Inode, value, Status, success, failure, Client, XattrLaws}
use chunkfs.Cont.{
  ContData, World, C, user_name, next_name, prev_name, start_name, len_name, parse_value,
  status_ret, get_cont_value, set_cont_value, get_cont_data, set_cont_data, after, ◌>>◌,
}

-- The four fields are `u64`.
pub record IsContData (cd : ContData) : Type 0 where
  pub next : cd.cd_next < 2 ^ 64
  pub prev : cd.cd_prev < 2 ^ 64
  pub start : cd.cd_start < 2 ^ 64
  pub len : cd.cd_len < 2 ^ 64

-- The attribute of that name reads as that number.
abbrev pub Reads : (c : Client) → c.State → Inode → List ℕ → ℕ → Type 0
Reads c fs i name n = parse_value (c.getxattr fs i (user_name name)) ≡ ok n

-- The attributes of an inode read as continuation data.
pub record HasData (c : Client) (fs : c.State) (i : Inode) (cd : ContData) : Type 0 where
  pub next : Reads c fs i next_name cd.cd_next
  pub prev : Reads c fs i prev_name cd.cd_prev
  pub start : Reads c fs i start_name cd.cd_start
  pub len : Reads c fs i len_name cd.cd_len

parse_printed : (v : ℕ) → v < 2 ^ 64 → parse_value (value (print_u64 v ++ 0 ∷ [])) ≡ ok v
unfolding parse_value
parse_printed v h =
    let short : ltb (length (print_u64 v ++ 0 ∷ [])) 50 ≡ true =
      ground (arith, length-append (print_u64 v) (0 ∷ []), length-print_u64 v) in
    rw (short, append_assoc) (ap ok (strtoull-print_u64 v (0 ∷ []) h))

module _ (c : Client) where
  pub get_cont_data-HasData :
      (i : Inode) (cd : ContData) (w : World c.State)
      → HasData c w.fs i cd
      → get_cont_data c i w ≡ (ok cd, w)
  unfolding get_cont_data get_cont_value
  get_cont_data-HasData i cd w h = rw (h.next, h.prev, h.start, h.len)

success_of : (r : Status) → status_ret r ≡ ok tt → r ≡ success
success_of success h = refl
success_of (failure e) h = cc

-- A sequence that returns 0: both parts did.
pub >>-ok :
    {S : Type 0} (m n : C S (Unit {0})) (w : World S)
    → ((m >> n) w).0 ≡ ok tt
    → ((m w).0 ≡ ok tt) × ((n (m w).1).0 ≡ ok tt) × ((m >> n) w ≡ n (m w).1)
>>-ok m n w h = go (m w).0 (m w).1 h
  where
    go :
        (r : Ret (Unit {0})) (w' : World _)
        → (after r (λ _. n) w').0 ≡ ok tt
        → (r ≡ ok tt) × ((n w').0 ≡ ok tt) × (after r (λ _. n) w' ≡ n w')
    go (ok u) w' e = (refl, e, refl)
    go (err x) w' e = cc
    go bug w' e = cc
    go out_of_fuel w' e = cc

-- The letter behind the prefix "user." tells the four names apart.
abbrev initial : List ℕ → ℕ
initial [] = 0
initial (x ∷ xs) = x

apart : (name other : List ℕ) → initial name ≢ initial other → user_name name ≢ user_name other
apart name other ne h = ne (ap (λ l. initial (drop 5 l)) h)

module _ (c : Client) (laws : XattrLaws c) where
  -- One attribute: it reads as the number that was set, and no other has changed.
  set_value-Reads :
      (i : Inode) (name : List ℕ) (v : ℕ) (w : World c.State)
      → (set_cont_value c i name v w).0 ≡ ok tt
      → v < 2 ^ 64
      → Reads c (set_cont_value c i name v w).1.fs i name v
  unfolding set_cont_value
  set_value-Reads i name v w e small =
      let bytes = print_u64 v ++ 0 ∷ [] in
      let (r, fs') = c.setxattr w.fs i (user_name name) bytes in
      let set : (c.setxattr w.fs i (user_name name) bytes) ≡ (success, fs') =
        ap (λ (x : Status). (x, fs')) (success_of r e) in
      rw
        (laws.get_set w.fs fs' i (user_name name) bytes set
          (omega (arith, length-append (print_u64 v) (0 ∷ []), length-print_u64 v)))
        (parse_printed v small)

  set_value-others :
      (i j : Inode) (name other : List ℕ) (v n : ℕ) (w : World c.State)
      → (i ≢ j) ⊎ (user_name name ≢ user_name other)
      → Reads c w.fs j other n
      → Reads c (set_cont_value c i name v w).1.fs j other n
  unfolding set_cont_value
  set_value-others i j name other v n w differ h =
      rw
        (laws.get_set_other w.fs _ i j (user_name name) (user_name other) (print_u64 v ++ 0 ∷ []) _
          refl differ)
        h

  set_data_others :
      (i j : Inode) (other : List ℕ) (n : ℕ) (cd : ContData) (w : World c.State)
      → (set_cont_data c i cd w).0 ≡ ok tt
      → i ≢ j
      → Reads c w.fs j other n
      → Reads c (set_cont_data c i cd w).1.fs j other n
  unfolding set_cont_data
  set_data_others i j other n cd w e ne h =
      let (e₁, r₁, s₁) = >>-ok (set_cont_value c i next_name cd.cd_next) _ w e in
      let w₁ = (set_cont_value c i next_name cd.cd_next w).1 in
      let (e₂, r₂, s₂) = >>-ok (set_cont_value c i prev_name cd.cd_prev) _ w₁ r₁ in
      let w₂ = (set_cont_value c i prev_name cd.cd_prev w₁).1 in
      let (e₃, r₃, s₃) = >>-ok (set_cont_value c i start_name cd.cd_start) _ w₂ r₂ in
      let w₃ = (set_cont_value c i start_name cd.cd_start w₂).1 in
      rw (s₁, s₂, s₃)
        (set_value-others i j len_name other cd.cd_len n w₃ (inl ne) (
          set_value-others i j start_name other cd.cd_start n w₂ (inl ne) (
            set_value-others i j prev_name other cd.cd_prev n w₁ (inl ne)
              (set_value-others i j next_name other cd.cd_next n w (inl ne) h))))

  -- Continuation data of 64-bit numbers that `set_cont_data` wrote without an error is what the
  -- four attributes of the inode read as.
  pub set_cont_data-HasData :
      (i : Inode) (cd : ContData) (w : World c.State)
      → (set_cont_data c i cd w).0 ≡ ok tt
      → IsContData cd
      → HasData c (set_cont_data c i cd w).1.fs i cd
  unfolding set_cont_data
  set_cont_data-HasData i cd w e small =
      let (e₁, r₁, s₁) = >>-ok (set_cont_value c i next_name cd.cd_next) _ w e in
      let w₁ = (set_cont_value c i next_name cd.cd_next w).1 in
      let (e₂, r₂, s₂) = >>-ok (set_cont_value c i prev_name cd.cd_prev) _ w₁ r₁ in
      let w₂ = (set_cont_value c i prev_name cd.cd_prev w₁).1 in
      let (e₃, r₃, s₃) = >>-ok (set_cont_value c i start_name cd.cd_start) _ w₂ r₂ in
      let w₃ = (set_cont_value c i start_name cd.cd_start w₂).1 in
      let keep₂ = λ (name : List ℕ) (n : ℕ) (ne : initial prev_name ≢ initial name).
        set_value-others i i prev_name name cd.cd_prev n w₁ (inr (apart prev_name name ne)) in
      let keep₃ = λ (name : List ℕ) (n : ℕ) (ne : initial start_name ≢ initial name).
        set_value-others i i start_name name cd.cd_start n w₂ (inr (apart start_name name ne)) in
      let keep₄ = λ (name : List ℕ) (n : ℕ) (ne : initial len_name ≢ initial name).
        set_value-others i i len_name name cd.cd_len n w₃ (inr (apart len_name name ne)) in
      let n₁ = set_value-Reads i next_name cd.cd_next w e₁ small.next in
      let p₂ = set_value-Reads i prev_name cd.cd_prev w₁ e₂ small.prev in
      let s₃' = set_value-Reads i start_name cd.cd_start w₂ e₃ small.start in
      let l₄ = set_value-Reads i len_name cd.cd_len w₃ r₃ small.len in
      rw (s₁, s₂, s₃)
        (record {
          next =
              keep₄ next_name _ (omega arith)
                (keep₃ next_name _ (omega arith) (keep₂ next_name _ (omega arith) n₁));
          prev = keep₄ prev_name _ (omega arith) (keep₃ prev_name _ (omega arith) p₂);
          start = keep₄ start_name _ (omega arith) s₃';
          len = l₄;
        })

  -- `set_cont_data` that ends without an error leaves the continuation data of every other inode as
  -- it was.
  pub set_cont_data-HasData_other :
      (i j : Inode) (cd other : ContData) (w : World c.State)
      → (set_cont_data c i cd w).0 ≡ ok tt
      → i ≢ j
      → HasData c w.fs j other
      → HasData c (set_cont_data c i cd w).1.fs j other
  set_cont_data-HasData_other i j cd other w e ne h = record {
    next = set_data_others i j next_name _ cd w e ne h.next;
    prev = set_data_others i j prev_name _ cd w e ne h.prev;
    start = set_data_others i j start_name _ cd w e ne h.start;
    len = set_data_others i j len_name _ cd w e ne h.len;
  }

-- What setting one attribute keeps, setting the four of continuation data keeps.
pub set_cont_data_keeps :
    (c : Client) {A : Type 0} (f : c.State → A)
    → ((s s' : c.State) (i : Inode) (name v : List ℕ) (r : Status)
        → c.setxattr s i name v ≡ (r, s')
        → f s' ≡ f s)
    → (i : Inode) (cd : ContData) (w : World c.State) → (set_cont_data c i cd w).0 ≡ ok tt
    → f (set_cont_data c i cd w).1.fs ≡ f w.fs
unfolding set_cont_data set_cont_value
set_cont_data_keeps c f keeps i cd w e =
    let (e₁, r₁, s₁) = >>-ok (set_cont_value c i next_name cd.cd_next) _ w e in
    let w₁ = (set_cont_value c i next_name cd.cd_next w).1 in
    let (e₂, r₂, s₂) = >>-ok (set_cont_value c i prev_name cd.cd_prev) _ w₁ r₁ in
    let w₂ = (set_cont_value c i prev_name cd.cd_prev w₁).1 in
    let (e₃, r₃, s₃) = >>-ok (set_cont_value c i start_name cd.cd_start) _ w₂ r₂ in
    let w₃ = (set_cont_value c i start_name cd.cd_start w₂).1 in
    ap (λ (p : Ret (Unit {0}) × World c.State). f p.1.fs) (s₁ ∙ s₂ ∙ s₃)
    ∙ keeps w₃.fs _ i _ _ _ refl
    ∙ keeps w₂.fs _ i _ _ _ refl
    ∙ keeps w₁.fs _ i _ _ _ refl
    ∙ keeps w.fs _ i _ _ _ refl

-- No attribute is refused.
abbrev pub Settable : Client → Type 0
Settable c = (s : c.State) (i : Inode) (name v : List ℕ) → (c.setxattr s i name v).0 ≡ success

pub set_cont_data_ok :
    (c : Client) (i : Inode) (cd : ContData) (w : World c.State)
    → Settable c
    → (set_cont_data c i cd w).0 ≡ ok tt
unfolding set_cont_data set_cont_value
set_cont_data_ok c i cd w settable = simp settable refl
