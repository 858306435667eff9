-- ===== src/File/View.antt =====
-- A file as its readers see it: one sequence of bytes, which chunkfs_i.h cuts into ranges that clients
-- hold. The bytes in the clients' files are a parameter.
use chunkfs.Base.{
  ℕ, ◌+◌, ◌-◌, ◌≤◌, ◌<◌, ◌≡◌, ◌≢◌, ◌⊎◌, inl, inr, refl, sym, ap, ◌∙◌, false, List, [], ◌∷◌, arith,
  length, take, ltb, if◌then◌else◌, Bool-cases,
}
use chunkfs.Client.{ClientFile, Dentry, Transfer, moved, refused_io, Client}
use chunkfs.Cont.{Continuation}
use chunkfs.Walk.Same.{Same}
use chunkfs.Walk.Search.{Adjoin, end_from, end_from_grows, Has, Holder}
use chunkfs.File.Overwriting.{Bytes, window, overwrite}

-- What a client's `read` brought, and how much its `write` took.
abbrev pub delivered : Transfer (List ℕ) → List ℕ
delivered (moved bs) = bs
delivered (refused_io e) = []

abbrev pub accepted : Transfer ℕ → ℕ
accepted (moved n) = n
accepted (refused_io e) = 0

-- The bytes of a file's continuations, one behind the other; zero behind the end.
abbrev pub view : (Dentry → Bytes) → List Continuation → Bytes
view held [] o = 0
view held (n ∷ ns) o =
    let rest = view held ns o in
    if ltb o (n.co_cd.cd_start + n.co_cd.cd_len)
    then held n.co_dentry (o - n.co_cd.cd_start)
    else rest

-- Documented behaviour of the clients' files: `held` gives their bytes and `sizes` their sizes. A
-- `read` brings bytes that stand there, and none behind the end; a `write` replaces bytes of the one
-- file from the position on, as many as it says; `fsync` changes none. A transfer may be short or
-- fail. None of them changes names, inodes or attributes.
pub record ByteLaws (c : Client) (held : c.State → Dentry → Bytes) (sizes : c.State → Dentry → ℕ)
    : Type 0 where
  pub read_same : (s : c.State) (f : ClientFile) (len pos : ℕ) → Same c s (c.read s f len pos).fs
  pub read_brings :
      (s : c.State) (f : ClientFile) (len pos : ℕ)
      → let bs = delivered (c.read s f len pos).result in
        (bs ≡ window (held s f.f_dentry) pos (length bs))
        × (length bs ≤ len)
        × (length bs ≤ sizes s f.f_dentry - pos)
  pub read_held :
      (s : c.State) (f : ClientFile) (len pos : ℕ) (d : Dentry) (o : ℕ)
      → held (c.read s f len pos).fs d o ≡ held s d o
  pub read_sizes :
      (s : c.State) (f : ClientFile) (len pos : ℕ) (d : Dentry)
      → sizes (c.read s f len pos).fs d ≡ sizes s d
  pub write_same :
      (s : c.State) (f : ClientFile) (bs : List ℕ) (pos : ℕ) → Same c s (c.write s f bs pos).fs
  pub write_takes :
      (s : c.State) (f : ClientFile) (bs : List ℕ) (pos : ℕ)
      → accepted (c.write s f bs pos).result ≤ length bs
  pub write_held :
      (s : c.State) (f : ClientFile) (bs : List ℕ) (pos o : ℕ)
      → let a = c.write s f bs pos in
        held a.fs f.f_dentry o ≡ overwrite (held s f.f_dentry) pos (take (accepted a.result) bs) o
  pub write_other :
      (s : c.State) (f : ClientFile) (bs : List ℕ) (pos : ℕ) (d : Dentry) (o : ℕ)
      → d ≢ f.f_dentry
      → held (c.write s f bs pos).fs d o ≡ held s d o
  pub write_sizes :
      (s : c.State) (f : ClientFile) (bs : List ℕ) (pos : ℕ) (d : Dentry)
      → let a = c.write s f bs pos in
        (sizes a.fs d ≤ sizes s d) ⊎ ((d ≡ f.f_dentry) × (sizes a.fs d ≤ pos + accepted a.result))
  pub fsync_same : (s : c.State) (d : Dentry) → Same c s (c.fsync s d).1
  pub fsync_held : (s : c.State) (x d : Dentry) (o : ℕ) → held (c.fsync s x).1 d o ≡ held s d o
  pub fsync_sizes : (s : c.State) (x d : Dentry) → sizes (c.fsync s x).1 d ≡ sizes s d

starts_behind :
    (s : ℕ) (ns : List Continuation) (n : Continuation)
    → Adjoin s ns
    → Has n ns
    → s ≤ n.co_cd.cd_start
starts_behind s [] n adj h = absurd h
starts_behind s (m ∷ ms) n adj (inl e) = rw e (omega (arith, adj.0))
starts_behind s (m ∷ ms) n adj (inr h) =
    omega (arith, starts_behind (s + m.co_cd.cd_len) ms n adj.1 h)

-- The byte at an offset is the one that the client of its continuation holds.
pub view-Holder :
    (held : Dentry → Bytes) (s : ℕ) (ns : List Continuation) (n : Continuation) (o : ℕ)
    → Adjoin s ns
    → Has n ns
    → n.co_cd.cd_start ≤ o
    → o < n.co_cd.cd_start + n.co_cd.cd_len
    → view held ns o ≡ held n.co_dentry (o - n.co_cd.cd_start)
view-Holder held s [] n o adj h lo hi = absurd h
view-Holder held s (m ∷ ms) n o adj (inl e) lo hi = rw (← e) (ground arith)
view-Holder held s (m ∷ ms) n o adj (inr h) lo hi =
    let behind = starts_behind (s + m.co_cd.cd_len) ms n adj.1 h in
    let later : ltb o (m.co_cd.cd_start + m.co_cd.cd_len) ≡ false = ground (arith, adj.0) in
    rw later (view-Holder held (s + m.co_cd.cd_len) ms n o adj.1 h lo hi)

-- No two continuations have the same file.
abbrev pub Apart : List Continuation → Type 0
Apart ns = (n m : Continuation) → Has n ns → Has m ns → n.co_dentry ≡ m.co_dentry → n ≡ m

-- Every client's file is at most as long as its range.
abbrev pub Bounded : (Dentry → ℕ) → List Continuation → Type 0
Bounded sizes ns = (n : Continuation) → Has n ns → sizes n.co_dentry ≤ n.co_cd.cd_len

-- What another client's file holds makes no difference to the ranges of the others.
pub view_other :
    (held held' : Dentry → Bytes) (s : ℕ) (ns : List Continuation) (o : ℕ)
    → Adjoin s ns
    → s ≤ o
    → ((m : Continuation)
        → Has m ns
        → m.co_cd.cd_start ≤ o
        → o < m.co_cd.cd_start + m.co_cd.cd_len
        → held' m.co_dentry (o - m.co_cd.cd_start) ≡ held m.co_dentry (o - m.co_cd.cd_start))
    → view held' ns o ≡ view held ns o
view_other held held' s [] o adj lo h = refl
view_other held held' s (m ∷ ms) o adj lo h =
    elim (Bool-cases (ltb o (m.co_cd.cd_start + m.co_cd.cd_len))) [
      | inl here ↦ rw here (h m (inl refl) (omega (arith, adj.0)) (ground arith))
      | inr later ↦ rw later (
          view_other held held' (s + m.co_cd.cd_len) ms o adj.1 (ground (arith, adj.0))
            (λ n has. h n (inr has)))
    ]

-- Just one continuation holds an offset.
pub Holder-unique :
    (s o : ℕ) (ns : List Continuation) (n m : Continuation)
    → Adjoin s ns
    → Holder o ns n
    → Holder o ns m
    → n ≡ m
Holder-unique s o ns n m adj p q = one ns s adj p.member q.member
  where
    one : (ns : List Continuation) (s : ℕ) → Adjoin s ns → Has n ns → Has m ns → n ≡ m
    one [] s adj a b = absurd a
    one (x ∷ xs) s adj (inl a) (inl b) = a ∙ sym b
    one (x ∷ xs) s adj (inl a) (inr b) =
        let len = ap (λ x. x.co_cd.cd_len) a in
        let start = ap (λ x. x.co_cd.cd_start) a in
        absurd (omega (arith, starts_behind (s + x.co_cd.cd_len) xs m adj.1 b, adj.0, p.to, q.from))
    one (x ∷ xs) s adj (inr a) (inl b) =
        let len = ap (λ x. x.co_cd.cd_len) b in
        let start = ap (λ x. x.co_cd.cd_start) b in
        absurd (omega (arith, starts_behind (s + x.co_cd.cd_len) xs n adj.1 a, adj.0, q.to, p.from))
    one (x ∷ xs) s adj (inr a) (inr b) = one xs (s + x.co_cd.cd_len) adj.1 a b

-- A range ends where the file ends, or before.
pub range-le-end :
    (s : ℕ) (ms : List Continuation) (n : Continuation)
    → Adjoin s ms
    → Has n ms
    → n.co_cd.cd_start + n.co_cd.cd_len ≤ end_from s ms
range-le-end s [] n adj has = absurd has
range-le-end s (m ∷ ms) n adj (inl e) =
    rw e (omega (arith, adj.0, end_from_grows (s + m.co_cd.cd_len) ms))
range-le-end s (m ∷ ms) n adj (inr has) = range-le-end (s + m.co_cd.cd_len) ms n adj.1 has
