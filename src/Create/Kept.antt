-- ===== src/Create/Kept.antt =====
-- The list of continuations of cont.c in a state of the clients that has changed.
use chunkfs.Base.{ℕ, ◌≡◌, sym, ap, ◌∙◌, Option, none, some, List, [], ◌∷◌, ◌++◌}
use mathlib.Core.Path.{subst}
use chunkfs.Client.{Dentry, Client}
use chunkfs.Cont.{ContData, Continuation, Head}
use chunkfs.Cont.Attributes.{HasData}
use chunkfs.Walk.Path.{Loaded, Linked, Follows, Ends, ContPath, last, step}

-- The continuation `n` with its data replaced.
abbrev pub with_data : Continuation → ContData → Continuation
with_data n cd = record n { co_cd = cd }

abbrev pub with_next : Continuation → ℕ → Continuation
with_next n next = with_data n (record (n.co_cd) { cd_next = next })

abbrev pub All : (Continuation → Type 0) → List Continuation → Type 0
All P [] = Unit
All P (n ∷ ns) = P n × All P ns

-- In the state `fs'` the continuation's inode has the data `cd`, and paths are as before.
pub record Kept (c : Client) (fs fs' : c.State) (cd : ContData) (n : Continuation) : Type 0 where
  pub inode : c.d_inode fs' n.co_dentry ≡ c.d_inode fs n.co_dentry
  pub has : HasData c fs' n.co_inode cd

abbrev pub AllKept : (c : Client) → c.State → c.State → List Continuation → Type 0
AllKept c fs fs' [] = Unit
AllKept c fs fs' (n ∷ ns) = Kept c fs fs' n.co_cd n × AllKept c fs fs' ns

abbrev pub PathsKept : (c : Client) → c.State → c.State → Type 0
PathsKept c fs fs' =
    (path : List ℕ) (d : Dentry) → c.kern_path fs path ≡ some d → c.kern_path fs' path ≡ some d

module _ (c : Client) (fs fs' : c.State) (head : Head) where
  pub Loaded-Kept :
      (d : Dentry) (id : ℕ) (n : Continuation) (cd : ContData)
      → Loaded c fs d id n
      → Kept c fs fs' cd n
      → Loaded c fs' d id (with_data n cd)
  Loaded-Kept d id n cd l k =
      let there : n.co_dentry ≡ d = ap (λ x. x.co_dentry) (sym l.same) in
      let inode : c.d_inode fs' d ≡ c.d_inode fs d =
        subst (λ x. c.d_inode fs' x ≡ c.d_inode fs x) there k.inode in
      let own : n.co_inode ≡ c.d_inode fs d = ap (λ x. x.co_inode) (sym l.same) in
      record {
        chunk = l.chunk;
        found = l.found;
        attributes = subst (λ i. HasData c fs' i cd) (own ∙ sym inode) k.has;
        same = rw inode (ap (λ x. with_data x cd) l.same);
      }

  pub Follows-Kept :
      (prev : Option Continuation) (n : Continuation) (cd : ContData)
      → PathsKept c fs fs'
      → Follows c fs head prev n
      → Kept c fs fs' cd n
      → Follows c fs' head prev (with_data n cd)
  Follows-Kept none n cd paths f k = Loaded-Kept _ _ n cd f k
  Follows-Kept (some p) n cd paths f k = record {
    not_head = f.not_head;
    not_zero = f.not_zero;
    dentry = f.dentry;
    path = paths _ _ f.path;
    loaded = Loaded-Kept _ _ n cd f.loaded k;
  }

  pub ContPath-extended :
      (before : List Continuation) (prev : Option Continuation) (p n : Continuation) (next : ℕ)
      → PathsKept c fs fs'
      → ContPath c fs head prev (before ++ p ∷ [])
      → AllKept c fs fs' before
      → Kept c fs fs' (with_next p next).co_cd p
      → Linked c fs' head (with_next p next) n
      → Ends head n
      → ContPath c fs' head prev (before ++ with_next p next ∷ (n ∷ []))
  ContPath-extended [] prev p n next paths (step f rest) all k l e =
      step (Follows-Kept prev p (with_next p next).co_cd paths f k) (step l (last e))
  ContPath-extended (b ∷ before) prev p n next paths (step f rest) all k l e =
      step (Follows-Kept prev b b.co_cd paths f all.0)
        (ContPath-extended before (some b) p n next paths rest all.1 k l e)

-- What a continuation of the list has in the clients' state.
abbrev pub Held : (c : Client) → c.State → Continuation → Type 0
Held c fs n = (c.d_inode fs n.co_dentry ≡ n.co_inode) × HasData c fs n.co_inode n.co_cd

module _ (c : Client) (fs : c.State) (head : Head) where
  Loaded-Held : (d : Dentry) (id : ℕ) (n : Continuation) → Loaded c fs d id n → Held c fs n
  Loaded-Held d id n l =
      let there : d ≡ n.co_dentry = ap (λ x. x.co_dentry) l.same in
      let own : c.d_inode fs d ≡ n.co_inode = ap (λ x. x.co_inode) l.same in
      (
        subst (λ x. c.d_inode fs x ≡ n.co_inode) there own,
        subst (λ i. HasData c fs i n.co_cd) own l.attributes,
      )

  pub Follows-Held :
      (prev : Option Continuation) (n : Continuation) → Follows c fs head prev n → Held c fs n
  Follows-Held none n f = Loaded-Held _ _ n f
  Follows-Held (some p) n f = Loaded-Held _ _ n f.loaded

  pub last_Held :
      (before : List Continuation) (prev : Option Continuation) (p : Continuation)
      → ContPath c fs head prev (before ++ p ∷ [])
      → Held c fs p
  last_Held [] prev p (step f rest) = Follows-Held prev p f
  last_Held (b ∷ before) prev p (step f rest) = last_Held before (some b) p rest

  pub AllKept-ContPath :
      (fs' : c.State) (Apart : Continuation → Type 0)
      → ((n : Continuation) → Held c fs n → Apart n → Kept c fs fs' n.co_cd n)
      → (before : List Continuation) (prev : Option Continuation) (p : Continuation)
      → ContPath c fs head prev (before ++ p ∷ [])
      → All Apart before
      → AllKept c fs fs' before
  AllKept-ContPath fs' Apart keep [] prev p path all = tt
  AllKept-ContPath fs' Apart keep (b ∷ before) prev p (step f rest) all = (
    keep b (Follows-Held prev b f) all.0,
    AllKept-ContPath fs' Apart keep before (some b) p rest all.1,
  )
