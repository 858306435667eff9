-- ===== src/File/Life.antt =====
-- file.c and cont.c: calls on an open file that may also write at its very end, where it gets one
-- continuation more, and the one sequence of bytes that it stands for all along.
use chunkfs.Base.{
  ℕ, ◌+◌, ◌≤◌, ◌≡◌, refl, sym, ap, ◌∙◌, none, List, [], ◌∷◌, ◌++◌, arith, length, ltb,
  if◌then◌else◌,
}
use mathlib.Core.Path.{subst}
use chunkfs.Kernel.{ok}
use chunkfs.Client.{Dentry, ClientFile, Client}
use chunkfs.Cont.{Continuation, Head, World}
use chunkfs.Walk.Path.{ContPath}
use chunkfs.Walk.Search.{end_from}
use chunkfs.Walk.Unique.{ContPath-unique}
use chunkfs.File.{OpenFile, Returned, chunkfs_write}
use chunkfs.File.View.{accepted}
use chunkfs.File.Overwriting.{Bytes}
use chunkfs.File.Refines.{Holds, seen}
use chunkfs.File.Longer.{longer, inodes_of, end_from-longer}
use chunkfs.File.Grows.{Grows}
use chunkfs.File.Appended.{AppendSo, chunkfs_write_end_refines}
use chunkfs.File.Session.{
  Event, was_read, was_written, was_synced, was_opened, Answers, Step, reads, writes, syncs, opens,
  one_outcome, Step-Answers,
}

-- The size of a file behind a call: a write at the end or behind it adds a whole range.
abbrev pub size_after : ℕ → Event → ℕ
size_after size (was_read len ppos bs) = size
size_after size (was_written ppos bs k) = if ltb ppos size then size else size + 40960
size_after size was_synced = size
size_after size (was_opened pos) = size

abbrev pub final_size : ℕ → List Event → ℕ
final_size size [] = size
final_size size (e ∷ es) = final_size (size_after size e) es

-- A sequence of bytes that grows: how it answers, and what it is then.
abbrev pub AnsweredGrowing : ℕ → Bytes → List Event → Bytes → Type 0
AnsweredGrowing size f [] g = g ≡ f
AnsweredGrowing size f (e ∷ es) g =
    (m : Bytes) × Answers size f e m × AnsweredGrowing (size_after size e) m es g

module _ (c : Client) (held : c.State → Dentry → Bytes) (sizes : c.State → Dentry → ℕ) (head : Head)
    (fuel : ℕ) where
  -- A call that returned, and the continuations before and after it.
  pub data Moves (w : World c.State) (ns : List Continuation) (e : Event) (w' : World c.State)
      (ns' : List Continuation) : Type 0 where
    within : Step c head fuel ns w e w' → ns' ≡ ns → Moves w ns e w' ns'
    at_end :
        (before : List Continuation) (p : Continuation) (f : ClientFile) (s : c.State)
        (file : OpenFile) (bs : List ℕ) (x : Returned ℕ)
        → ns ≡ before ++ p ∷ []
        → Grows c held sizes head fuel before p w.fs f s
        → length bs ≤ 40960
        → chunkfs_write c fuel head file bs (end_from 0 (before ++ p ∷ [])) w ≡ (ok x, w')
        → e ≡ was_written (end_from 0 (before ++ p ∷ [])) bs (accepted x.result)
        → ContPath c w'.fs head none ns'
        → Moves w ns e w' ns'

  pub data Life
      : World c.State
        → List Continuation
        → List Event
        → World c.State
        → List Continuation
        → Type 0 where
    over : {w : World c.State} {ns : List Continuation} → Life w ns [] w ns
    move :
        {w w' w'' : World c.State} {ns ns' ns'' : List Continuation} {e : Event} {es : List Event}
        → Moves w ns e w' ns'
        → Life w' ns' es w'' ns''
        → Life w ns (e ∷ es) w'' ns''

  -- The file as one sequence of bytes, and what it keeps to.
  abbrev pub shown : World c.State → List Continuation → Bytes
  shown w ns = seen c held sizes head fuel ns (inodes_of ns) w.fs

  abbrev pub Kept : World c.State → List Continuation → Type 0
  Kept w ns = Holds c held sizes head fuel ns (inodes_of ns) w.fs

  -- One call: its answer, the size and the invariant.
  abbrev pub Moved :
      World c.State → List Continuation → Event → World c.State → List Continuation → Type 0
  Moved w ns e w' ns' =
      Answers (end_from 0 ns) (shown w ns) e (shown w' ns')
      × (end_from 0 ns' ≡ size_after (end_from 0 ns) e)
      × Kept w' ns'

  Step-size :
      (w w' : World c.State) (ns : List Continuation) (e : Event)
      → Step c head fuel ns w e w'
      → end_from 0 ns ≡ size_after (end_from 0 ns) e
  Step-size w w' ns e (reads file len ppos x returned is_event) = rw is_event
  Step-size w w' ns e (writes file bs ppos x inside fits returned is_event) =
      rw is_event (ground arith)
  Step-size w w' ns e (syncs returned is_event) = rw is_event
  Step-size w w' ns e (opens file file' inside returned is_event) = rw is_event

  appended-Moved :
      (w w' : World c.State) (before : List Continuation) (p : Continuation) (bs : List ℕ) (k : ℕ)
      (ns' : List Continuation)
      → AppendSo c held sizes head fuel before p w.fs bs k w'.fs
      → ContPath c w'.fs head none ns'
      → Moved w (before ++ p ∷ []) (was_written (end_from 0 (before ++ p ∷ [])) bs k) w' ns'
  appended-Moved w w' before p bs k ns' so path =
      let same : longer before p so.next so.n ≡ ns' =
        ContPath-unique c w'.fs head so.holds.file.path path in
      let end_ = end_from 0 (before ++ p ∷ []) in
      subst (Moved w (before ++ p ∷ []) (was_written end_ bs k) w') same (
        (so.most, so.bytes),
        ground (arith, end_from-longer 0 before p so.next so.n, so.len),
        so.holds,
      )

  pub Moves-Moved :
      (w w' : World c.State) (ns ns' : List Continuation) (e : Event)
      → Kept w ns
      → Moves w ns e w' ns'
      → Moved w ns e w' ns'
  Moves-Moved w w' ns ns' e h (within s same) =
      let (answers, good) = Step-Answers c head fuel ns held sizes (inodes_of ns) w w' e h s in
      subst (Moved w ns e w') (sym same) (answers, Step-size w w' ns e s, good)
  Moves-Moved w w' ns ns' e h (at_end before p f s file bs x is_ns g few returned is_event path) =
      let (y, v, e', so) =
        chunkfs_write_end_refines c held sizes head fuel before p file bs w f s
          (subst (Kept w) is_ns h) g few in
      let so =
        one_outcome
          (λ (r : Returned ℕ) u.
            AppendSo c held sizes head fuel before p w.fs bs (accepted r.result) u.fs)
          y x v w' (chunkfs_write c fuel head file bs (end_from 0 (before ++ p ∷ [])) w) e' returned
          so in
      rw is_event (
        subst
          (λ ms.
            Moved w ms (was_written (end_from 0 (before ++ p ∷ [])) bs (accepted x.result)) w' ns')
          (sym is_ns) (appended-Moved w w' before p bs (accepted x.result) ns' so path))

  -- A file, whose clients' files keep to the ranges of their continuations (`Holds`), answers any
  -- sequence of opens, reads, writes and syncs that return as one growing sequence of bytes does: a
  -- read brings bytes that stand at its offset, at most as many as asked for and none behind the
  -- end, a write replaces as many bytes as it says and no others, a sync changes nothing, and
  -- neither does an open of a file that is not empty, which shows it at position 0. Writes begin
  -- inside the file and do not cross the end of the range that they begin in, or are of at most
  -- 40960 bytes at the very end, where the file can grow (`Grows`); it is then 40960 bytes longer.
  -- The file is such a one afterwards.
  pub Life-refines :
      (w w' : World c.State) (ns ns' : List Continuation) (es : List Event)
      → Kept w ns
      → Life w ns es w' ns'
      → AnsweredGrowing (end_from 0 ns) (shown w ns) es (shown w' ns')
        × (end_from 0 ns' ≡ final_size (end_from 0 ns) es)
        × Kept w' ns'
  Life-refines w w' ns ns' es h over = (refl, refl, h)
  Life-refines w w' ns ns' es h (move {w' = v} {ns' = ms} {e} {es = rest} m life) =
      let (answers, size, good) = Moves-Moved w v ns ms e h m in
      let (answered, last_size, last) = Life-refines v w' ms ns' rest good life in
      (
        (
          shown v ms,
          answers,
          subst (λ n. AnsweredGrowing n (shown v ms) rest (shown w' ns')) size answered,
        ),
        last_size ∙ ap (λ n. final_size n rest) size,
        last,
      )
