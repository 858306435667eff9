-- ===== src/File/Longer.antt =====
-- A file with one continuation more behind the last: its list, its inodes and its bytes.
use chunkfs.Base.{
  ℕ, suc, ◌+◌, ◌-◌, ◌≡◌, ◌⊎◌, inl, inr, refl, sym, ap, Option, none, some, List, [], ◌∷◌, ◌++◌,
  arith, length, ltb, Bool-cases,
}
use mathlib.Core.Path.{subst}
use chunkfs.Client.{Dentry, Inode, Client}
use chunkfs.Cont.{ContData, Continuation, Head}
use chunkfs.Cont.Attributes.{HasData}
use chunkfs.Walk.Search.{Adjoin, end_from, Has}
use chunkfs.Create.Kept.{All, with_next}
use chunkfs.File.Sizes.{Behind, Leads, InodePath, onward}
use chunkfs.File.View.{view}
use chunkfs.File.Overwriting.{Bytes}

abbrev pub longer : List Continuation → Continuation → ℕ → Continuation → List Continuation
longer before p next n = before ++ with_next p next ∷ (n ∷ [])

abbrev pub inodes_of : List Continuation → List Inode
inodes_of [] = []
inodes_of (n ∷ ns) = n.co_inode ∷ inodes_of ns

pub length-inodes_of : (ns : List Continuation) → length (inodes_of ns) ≡ length ns
length-inodes_of [] = refl
length-inodes_of (n ∷ ns) = ap suc (length-inodes_of ns)

pub Has-end :
    (before : List Continuation) (p m : Continuation)
    → Has m (before ++ p ∷ [])
    → Has m before ⊎ (m ≡ p)
Has-end [] p m (inl e) = inr e
Has-end [] p m (inr nothing) = absurd nothing
Has-end (b ∷ before) p m (inl e) = inl (inl e)
Has-end (b ∷ before) p m (inr h) = elim (Has-end before p m h) [
  | inl has ↦ inl (inr has)
  | inr e ↦ inr e
]

pub Has-longer :
    (before : List Continuation) (x y m : Continuation)
    → Has m (before ++ x ∷ (y ∷ []))
    → Has m before ⊎ (m ≡ x) ⊎ (m ≡ y)
Has-longer [] x y m (inl e) = inr (inl e)
Has-longer [] x y m (inr (inl e)) = inr (inr e)
Has-longer [] x y m (inr (inr nothing)) = absurd nothing
Has-longer (b ∷ before) x y m (inl e) = inl (inl e)
Has-longer (b ∷ before) x y m (inr h) = elim (Has-longer before x y m h) [
  | inl has ↦ inl (inr has)
  | inr e ↦ inr e
]

pub Has-before :
    (before after : List Continuation) (m : Continuation) → Has m before → Has m (before ++ after)
Has-before [] after m h = absurd h
Has-before (b ∷ before) after m (inl e) = inl e
Has-before (b ∷ before) after m (inr h) = inr (Has-before before after m h)

pub Has-last : (before : List Continuation) (p : Continuation) → Has p (before ++ p ∷ [])
Has-last [] p = inl refl
Has-last (b ∷ before) p = inr (Has-last before p)

pub All-Has :
    (P : Continuation → Type 0) (ns : List Continuation) (m : Continuation)
    → All P ns
    → Has m ns
    → P m
All-Has P [] m all h = absurd h
All-Has P (n ∷ ns) m all (inl e) = subst P (sym e) all.0
All-Has P (n ∷ ns) m all (inr h) = All-Has P ns m all.1 h

pub All-map :
    (P Q : Continuation → Type 0) (ns : List Continuation)
    → ((n : Continuation) → P n → Q n)
    → All P ns
    → All Q ns
All-map P Q [] k all = tt
All-map P Q (n ∷ ns) k all = (k n all.0, All-map P Q ns k all.1)

pub end_from-longer :
    (s : ℕ) (before : List Continuation) (p : Continuation) (next : ℕ) (n : Continuation)
    → end_from s (longer before p next n) ≡ end_from s (before ++ p ∷ []) + n.co_cd.cd_len
end_from-longer s [] p next n = refl
end_from-longer s (b ∷ before) p next n = end_from-longer (s + b.co_cd.cd_len) before p next n

-- Nothing is seen of a new continuation whose file is blank.
pub view-longer :
    (held held' : Dentry → Bytes) (s : ℕ) (before : List Continuation) (p : Continuation) (next : ℕ)
    (n : Continuation) (o : ℕ)
    → Adjoin s (before ++ p ∷ [])
    → ((i : ℕ) → held' n.co_dentry i ≡ 0)
    → ((m : Continuation)
        → Has m (before ++ p ∷ [])
        → held' m.co_dentry (o - m.co_cd.cd_start) ≡ held m.co_dentry (o - m.co_cd.cd_start))
    → view held' (longer before p next n) o ≡ view held (before ++ p ∷ []) o
view-longer held held' s [] p next n o adj blank h =
    elim (Bool-cases (ltb o (p.co_cd.cd_start + p.co_cd.cd_len))) [
      | inl here ↦ rw here (h p (inl refl))
      | inr later ↦ rw later (ground (arith, blank (o - n.co_cd.cd_start)))
    ]
view-longer held held' s (b ∷ before) p next n o adj blank h =
    elim (Bool-cases (ltb o (b.co_cd.cd_start + b.co_cd.cd_len))) [
      | inl here ↦ rw here (h b (inl refl))
      | inr later ↦ rw later (
          view-longer held held' (s + b.co_cd.cd_len) before p next n o adj.1 blank
            (λ m has. h m (inr has)))
    ]

-- The data of the inode before stays, if there is one.
abbrev pub DataKept : (c : Client) → c.State → c.State → Option Inode → Type 0
DataKept c fs fs' none = Unit
DataKept c fs fs' (some i) = (cd : ContData) → HasData c fs i cd → HasData c fs' i cd

pub Leads-DataKept :
    (c : Client) (fs fs' : c.State) (head : Head) (prev : Option Inode) (i : Inode)
    → DataKept c fs fs' prev
    → Leads c fs head prev i
    → Leads c fs' head prev i
Leads-DataKept c fs fs' head none i kept l = l
Leads-DataKept c fs fs' head (some prev) i kept b = record {
  cd = b.cd;
  attributes = kept b.cd b.attributes;
  more = b.more;
  chunk = b.chunk;
  found = b.found;
  gets = b.gets;
}

pub InodePath-longer :
    (c : Client) (fs fs' : c.State) (head : Head) (prev : Option Inode) (before : List Continuation)
    (p n : Continuation) (next : ℕ)
    → InodePath c fs head prev (inodes_of (before ++ p ∷ []))
    → DataKept c fs fs' prev
    → All (λ m. DataKept c fs fs' (some (m.co_inode))) before
    → Behind c fs' p.co_inode n.co_inode
    → InodePath c fs' head (some (n.co_inode)) []
    → InodePath c fs' head prev (inodes_of (longer before p next n))
InodePath-longer c fs fs' head prev [] p n next (onward l rest) kept all behind ends =
    onward (Leads-DataKept c fs fs' head prev p.co_inode kept l) (onward behind ends)
InodePath-longer c fs fs' head prev (b ∷ before) p n next (onward l rest) kept all behind ends =
    onward (Leads-DataKept c fs fs' head prev b.co_inode kept l) (
      InodePath-longer c fs fs' head (some (b.co_inode)) before p n next rest all.0 all.1 behind
        ends)

pub Has-added :
    (before : List Continuation) (p n : Continuation) (next : ℕ) → Has n (longer before p next n)
Has-added [] p n next = inr (inl refl)
Has-added (b ∷ before) p n next = inr (Has-added before p n next)
