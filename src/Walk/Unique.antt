-- ===== src/Walk/Unique.antt =====
-- The clients' state determines the continuations of a file.
use chunkfs.Base.{ℕ, ◌≡◌, inl, inr, refl, sym, ap, ◌∙◌, Option, none, some, List, ◌∷◌, arith}
use mathlib.Core.Path.{subst}
use chunkfs.Kernel.{Ret, ok}
use chunkfs.Client.{Dentry, Inode, Client}
use chunkfs.Uino.{uino_to_chunk_id}
use chunkfs.Cont.{ContData, Continuation, Head}
use chunkfs.Cont.Attributes.{HasData}
use chunkfs.Walk.Path.{built, Loaded, Linked, Follows, ContPath, last, step}

one_value : {A : Type 0} (r : Ret A) (a b : A) → r ≡ ok a → r ≡ ok b → a ≡ b
one_value r a b p q = cc

one_of : {A : Type 0} (r : Option A) (a b : A) → r ≡ some a → r ≡ some b → a ≡ b
one_of r a b p q = cc

HasData-unique :
    (c : Client) (fs : c.State) (i : Inode) (x y : ContData)
    → HasData c fs i x
    → HasData c fs i y
    → x ≡ y
HasData-unique c fs i x y p q =
    let next = one_value _ _ _ p.next q.next in
    let prev = one_value _ _ _ p.prev q.prev in
    let start = one_value _ _ _ p.start q.start in
    let len = one_value _ _ _ p.len q.len in ground arith

Loaded-unique :
    (c : Client) (fs : c.State) (d : Dentry) (chunk_id : ℕ) (n m : Continuation)
    → Loaded c fs d chunk_id n
    → Loaded c fs d chunk_id m
    → n ≡ m
Loaded-unique c fs d chunk_id n m p q =
    let chunk = one_of _ _ _ p.found q.found in
    let data_ = HasData-unique c fs (c.d_inode fs d) n.co_cd m.co_cd p.attributes q.attributes in
    sym p.same
    ∙ ap (λ x. built c fs d chunk_id x n.co_cd) chunk
    ∙ ap (built c fs d chunk_id q.chunk) data_
    ∙ q.same

Linked-unique :
    (c : Client) (fs : c.State) (head : Head) (p n m : Continuation)
    → Linked c fs head p n
    → Linked c fs head p m
    → n ≡ m
Linked-unique c fs head p n m a b =
    Loaded-unique c fs b.dentry (uino_to_chunk_id p.co_cd.cd_next) n m
      (subst (λ d. Loaded c fs d (uino_to_chunk_id p.co_cd.cd_next) n) (one_of _ _ _ a.path b.path)
        a.loaded)
      b.loaded

Follows-unique :
    (c : Client) (fs : c.State) (head : Head) (prev : Option Continuation) (n m : Continuation)
    → Follows c fs head prev n
    → Follows c fs head prev m
    → n ≡ m
Follows-unique c fs head none n m p q =
    Loaded-unique c fs head.client_dentry (uino_to_chunk_id head.i_ino) n m p q
Follows-unique c fs head (some prev) n m p q = Linked-unique c fs head prev n m p q

-- A file has one list of continuations, which the clients' names and attributes determine.
pub ContPath-unique :
    (c : Client) (fs : c.State) (head : Head) {prev : Option Continuation}
    {ns ms : List Continuation}
    → ContPath c fs head prev ns
    → ContPath c fs head prev ms
    → ns ≡ ms
ContPath-unique c fs head (last e) (last e') = refl
ContPath-unique c fs head (last (inl e)) (step l rest) = absurd (l.not_head e)
ContPath-unique c fs head (last (inr e)) (step l rest) = absurd (l.not_zero e)
ContPath-unique c fs head (step l rest) (last (inl e)) = absurd (l.not_head e)
ContPath-unique c fs head (step l rest) (last (inr e)) = absurd (l.not_zero e)
ContPath-unique c fs head (step {prev} {n} {ns} l rest) (step {n = m} {ns = ms} l' rest') =
    let same = Follows-unique c fs head prev n m l l' in
    ap (λ x. x ∷ ns) same
    ∙ ap (λ xs. m ∷ xs)
        (ContPath-unique c fs head (subst (λ x. ContPath c fs head (some x) ns) same rest) rest')
