-- ===== src/File/Interleaved.antt =====
-- file.c and cont.c: calls on two open files, in any order.
use chunkfs.Base.{ℕ, ◌≡◌, ◌⊎◌, inl, inr, refl, ap, ◌∙◌, List, [], ◌∷◌}
use mathlib.Core.Path.{subst}
use chunkfs.Client.{Dentry, Client}
use chunkfs.Cont.{Continuation, Head, World}
use chunkfs.Walk.Search.{end_from}
use chunkfs.File.Overwriting.{Bytes}
use chunkfs.File.Session.{Event}
use chunkfs.File.Life.{AnsweredGrowing, final_size, Moves, shown, Kept, Moves-Moved}
use chunkfs.File.Bystander.{Holds-Leaves}
use chunkfs.File.Isolated.{Disjoint, Moves-Leaves}

-- Which of the two files a call is on.
abbrev pub Tagged : Type 0
Tagged = Event ⊎ Event

abbrev pub lefts : List Tagged → List Event
lefts [] = []
lefts (inl e ∷ es) = e ∷ lefts es
lefts (inr e ∷ es) = lefts es

abbrev pub rights : List Tagged → List Event
rights [] = []
rights (inl e ∷ es) = rights es
rights (inr e ∷ es) = e ∷ rights es

module _ (c : Client) (held : c.State → Dentry → Bytes) (sizes : c.State → Dentry → ℕ)
    (fuel : ℕ) where
  -- What the calls on one file amount to.
  abbrev pub Alone :
      Head
      → World c.State
      → List Continuation
      → List Event
      → World c.State
      → List Continuation
      → Type 0
  Alone head w ns es w' ns' =
      AnsweredGrowing (end_from 0 ns) (shown c held sizes head fuel w ns) es
        (shown c held sizes head fuel w' ns')
      × (end_from 0 ns' ≡ final_size (end_from 0 ns) es)
      × Kept c held sizes head fuel w' ns'

  -- A call on a file, and what it amounts to later.
  Alone-moved :
      (head : Head) (w v w' : World c.State) (ns ks ns' : List Continuation) (e : Event)
      (es : List Event)
      → Kept c held sizes head fuel w ns
      → Moves c held sizes head fuel w ns e v ks
      → Alone head v ks es w' ns'
      → Alone head w ns (e ∷ es) w' ns'
  Alone-moved head w v w' ns ks ns' e es h m (answered, last, good) =
      let (answers, size, kept) = Moves-Moved c held sizes head fuel w v ns ks e h m in
      (
        (
          shown c held sizes head fuel v ks,
          answers,
          subst
              (λ n.
                AnsweredGrowing n (shown c held sizes head fuel v ks) es
                  (shown c held sizes head fuel w' ns'))
              size answered,
        ),
        last ∙ ap (λ n. final_size n es) size,
        good,
      )

  -- A call on the other file.
  Alone-left :
      (head : Head) (w v w' : World c.State) (ns ns' : List Continuation) (es : List Event)
      → shown c held sizes head fuel v ns ≡ shown c held sizes head fuel w ns
      → Alone head v ns es w' ns'
      → Alone head w ns es w' ns'
  Alone-left head w v w' ns ns' es same (answered, size, good) = (
    subst (λ f. AnsweredGrowing (end_from 0 ns) f es (shown c held sizes head fuel w' ns')) same
        answered,
    size,
    good,
  )

module _ (c : Client) (held : c.State → Dentry → Bytes) (sizes : c.State → Dentry → ℕ)
    (left right : Head) (fuel : ℕ) where
  -- The calls, and the continuations of both files before and after them. What a call makes is the
  -- file's own.
  pub data Both
      : World c.State
        → List Continuation
        → List Continuation
        → List Tagged
        → World c.State
        → List Continuation
        → List Continuation
        → Type 0 where
    idle : {w : World c.State} {ns ms : List Continuation} → Both w ns ms [] w ns ms
    on_left :
        {w w' w'' : World c.State} {ns ns' ns'' ms ms'' : List Continuation} {e : Event}
        {es : List Tagged}
        → Moves c held sizes left fuel w ns e w' ns'
        → Disjoint ns' ms
        → Both w' ns' ms es w'' ns'' ms''
        → Both w ns ms (inl e ∷ es) w'' ns'' ms''
    on_right :
        {w w' w'' : World c.State} {ns ns'' ms ms' ms'' : List Continuation} {e : Event}
        {es : List Tagged}
        → Moves c held sizes right fuel w ms e w' ms'
        → Disjoint ms' ns
        → Both w' ns ms' es w'' ns'' ms''
        → Both w ns ms (inr e ∷ es) w'' ns'' ms''

  -- Calls on two open files, in any order (`Both`: opens, reads, writes, syncs, and writes at the
  -- end that make a file grow), are answered for each file as if it were alone: as one growing
  -- sequence of bytes answers the calls on it. Both files keep to their ranges at the beginning
  -- (`Holds`), and then at the end; after a call no continuation of its file shares its client's
  -- file or inode with one of the other.
  pub Both-Alone :
      (w w' : World c.State) (ns ms ns' ms' : List Continuation) (es : List Tagged)
      → Kept c held sizes left fuel w ns
      → Kept c held sizes right fuel w ms
      → Both w ns ms es w' ns' ms'
      → Alone c held sizes fuel left w ns (lefts es) w' ns'
        × Alone c held sizes fuel right w ms (rights es) w' ms'
  Both-Alone w w' ns ms ns' ms' es h k idle = ((refl, refl, h), (refl, refl, k))
  Both-Alone w w' ns ms ns' ms' es h k (on_left {w' = v} {ns' = ks} {e} {es = rest} m apart both) =
      let good = (Moves-Moved c held sizes left fuel w v ns ks e h m).2 in
      let leaves = (Moves-Leaves c held sizes left fuel ms w v ns ks e h m apart).0 in
      let (same, other) = Holds-Leaves c held sizes right w.fs v.fs fuel ms leaves k in
      let (one, two) = Both-Alone v w' ks ms ns' ms' rest good other both in
      (
        Alone-moved c held sizes fuel left w v w' ns ks ns' e (lefts rest) h m one,
        Alone-left c held sizes fuel right w v w' ms ms' (rights rest) same two,
      )
  Both-Alone w w' ns ms ns' ms' es h k (on_right {w' = v} {ms' = ks} {e} {es = rest} m apart both) =
      let good = (Moves-Moved c held sizes right fuel w v ms ks e k m).2 in
      let leaves = (Moves-Leaves c held sizes right fuel ns w v ms ks e k m apart).0 in
      let (same, other) = Holds-Leaves c held sizes left w.fs v.fs fuel ns leaves h in
      let (one, two) = Both-Alone v w' ns ks ns' ms' rest other good both in
      (
        Alone-left c held sizes fuel left w v w' ns ns' (lefts rest) same one,
        Alone-moved c held sizes fuel right w v w' ms ks ms' e (rights rest) k m two,
      )
