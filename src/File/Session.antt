-- ===== src/File/Session.antt =====
-- file.c: calls of `chunkfs_open`, `chunkfs_read`, `chunkfs_write` and `chunkfs_fsync_file` on a file,
-- one behind the other, and the file that they stand for.
use chunkfs.Base.{ℕ, ◌-◌, ◌≤◌, ◌<◌, ◌≡◌, refl, sym, ap, ◌∙◌, List, [], ◌∷◌, arith, length, take}
use mathlib.Core.Path.{subst, fun_ext}
use chunkfs.Kernel.{Ret, ok}
use chunkfs.Client.{Dentry, Inode, Client}
use chunkfs.Cont.{Continuation, Head, World}
use chunkfs.Walk.Search.{end_from}
use chunkfs.File.{OpenFile, Returned, chunkfs_read, chunkfs_write, chunkfs_fsync_file, chunkfs_open}
use chunkfs.File.Syncing.{synced, chunkfs_fsync_file-ContPath}
use chunkfs.File.AtStart.{chunkfs_open_lem}
use chunkfs.File.View.{delivered, accepted, view_other}
use chunkfs.File.Overwriting.{Bytes, window, overwrite}
use chunkfs.File.Refines.{Holds, Fits, IsFile-Same, ReadSo, seen, chunkfs_read_refines}
use chunkfs.File.Written.{WriteSo, chunkfs_write_refines}

-- A call has one outcome.
pub one_outcome :
    {A S : Type 0} (P : A → S → Type 0) (a b : A) (s t : S) (r : Ret A × S)
    → r ≡ (ok a, s)
    → r ≡ (ok b, t)
    → P a s
    → P b t
one_outcome P a b s t r p q h =
    let same : ok a ≡ ok b = sym (ap (λ x. x.0) p) ∙ ap (λ x. x.0) q in
    let value : a ≡ b = cc same in
    let state : s ≡ t = sym (ap (λ x. x.1) p) ∙ ap (λ x. x.1) q in
    subst (λ x. P x t) value (subst (P a) state h)

-- What a caller knows of a call: its arguments and its result.
pub data Event : Type 0 where
  was_read : ℕ → ℕ → List ℕ → Event
  was_written : ℕ → List ℕ → ℕ → Event
  was_synced : Event
  was_opened : ℕ → Event

-- A file that is one sequence of `size` bytes: how it answers, and what it is then.
abbrev pub Answers : ℕ → Bytes → Event → Bytes → Type 0
Answers size f (was_read len ppos bs) g =
    (bs ≡ window f ppos (length bs)) × (length bs ≤ len) × (length bs ≤ size - ppos) × (g ≡ f)
Answers size f (was_written ppos bs k) g = (k ≤ length bs) × (g ≡ overwrite f ppos (take k bs))
Answers size f was_synced g = g ≡ f
Answers size f (was_opened pos) g = (pos ≡ 0) × (g ≡ f)

abbrev pub Answered : ℕ → Bytes → List Event → Bytes → Type 0
Answered size f [] g = g ≡ f
Answered size f (e ∷ es) g = (m : Bytes) × Answers size f e m × Answered size m es g

module _ (c : Client) (head : Head) (fuel : ℕ) (ns : List Continuation) where
  -- A call that returned. Writes are of bytes that fit the range that they begin in, and a file that is
  -- opened is not empty.
  pub data Step (w : World c.State) (e : Event) (w' : World c.State) : Type 0 where
    reads :
        (file : OpenFile) (len ppos : ℕ) (x : Returned (List ℕ))
        → chunkfs_read c fuel head file len ppos w ≡ (ok x, w')
        → e ≡ was_read len ppos (delivered x.result)
        → Step w e w'
    writes :
        (file : OpenFile) (bs : List ℕ) (ppos : ℕ) (x : Returned ℕ)
        → ppos < end_from 0 ns
        → Fits ns ppos (length bs)
        → chunkfs_write c fuel head file bs ppos w ≡ (ok x, w')
        → e ≡ was_written ppos bs (accepted x.result)
        → Step w e w'
    syncs : chunkfs_fsync_file c fuel head w ≡ (ok tt, w') → e ≡ was_synced → Step w e w'
    opens :
        (file file' : OpenFile)
        → 0 < end_from 0 ns
        → chunkfs_open c fuel head file w ≡ (ok file', w')
        → e ≡ was_opened file'.f_pos
        → Step w e w'

  pub data Runs : World c.State → List Event → World c.State → Type 0 where
    done : {w : World c.State} → Runs w [] w
    call :
        {w w' w'' : World c.State} {e : Event} {es : List Event}
        → Step w e w'
        → Runs w' es w''
        → Runs w (e ∷ es) w''

  module _ (held : c.State → Dentry → Bytes) (sizes : c.State → Dentry → ℕ) (is : List Inode) where
    abbrev pub bytes_of : World c.State → Bytes
    bytes_of w = seen c held sizes head fuel ns is w.fs

    abbrev pub Good : c.State → Type 0
    Good fs = Holds c held sizes head fuel ns is fs

    synced_still :
        (ms : List Continuation) (fs : c.State)
        → Good fs
        → (seen c held sizes head fuel ns is (synced c fs ms)
            ≡ seen c held sizes head fuel ns is fs)
          × Good (synced c fs ms)
    synced_still [] fs h = (refl, h)
    synced_still (m ∷ ms) fs h =
        let fs' = (c.fsync fs m.co_dentry).1 in
        let (same, good) = synced_still ms fs' (record {
          file = IsFile-Same c head fuel fs fs' ns is (h.laws.fsync_same fs m.co_dentry) h.file;
          laws = h.laws;
          bounded = λ n has. rw (h.laws.fsync_sizes fs m.co_dentry n.co_dentry) (h.bounded n has);
          apart = h.apart;
        }) in
        (
          same
              ∙ fun_ext (λ o.
                view_other (held fs) (held fs') 0 ns o h.file.adjoin (omega arith) (λ n has lo hi.
                  h.laws.fsync_held fs m.co_dentry n.co_dentry (o - n.co_cd.cd_start))),
          good,
        )

    pub Step-Answers :
        (w w' : World c.State) (e : Event)
        → Good w.fs
        → Step w e w'
        → Answers (end_from 0 ns) (bytes_of w) e (bytes_of w') × Good w'.fs
    Step-Answers w w' e h (reads file len ppos x returned is_event) =
        let (y, v, e', so) = chunkfs_read_refines c held sizes head fuel ns is file len ppos w h in
        let so =
          one_outcome
            (λ (r : Returned (List ℕ)) u.
              ReadSo c held sizes head fuel ns is w.fs len ppos (delivered r.result) u.fs)
            y x v w' (chunkfs_read c fuel head file len ppos w) e' returned so in
        rw is_event ((so.bytes, so.most, so.until, so.still), so.holds)
    Step-Answers w w' e h (writes file bs ppos x inside fits returned is_event) =
        let (y, v, e', so) =
          chunkfs_write_refines c held sizes head fuel ns is file bs ppos w h inside fits in
        let so =
          one_outcome
            (λ (r : Returned ℕ) u.
              WriteSo c held sizes head fuel ns is w.fs bs ppos (accepted r.result) u.fs)
            y x v w' (chunkfs_write c fuel head file bs ppos w) e' returned so in
        rw is_event ((so.most, so.written), so.holds)
    Step-Answers w w' e h (syncs returned is_event) =
        let (r, fs) =
          chunkfs_fsync_file-ContPath c head fuel w ns h.file.memory h.laws.fsync_same h.file.path
            h.file.rounds in
        let (same, good) = synced_still ns w.fs h in
        let here : w'.fs ≡ synced c w.fs ns = sym (ap (λ x. x.1.fs) returned) ∙ fs in
        rw is_event (
          subst (λ s. (seen c held sizes head fuel ns is s ≡ bytes_of w) × Good s) (sym here)
            (same, good))
    Step-Answers w w' e h (opens file file' inside returned is_event) =
        let (n, holder, v, still, e', start) =
          chunkfs_open_lem c head fuel file w ns is h.file inside in
        let (pos, same) =
          one_outcome (λ (f : OpenFile) (u : World c.State). (f.f_pos ≡ 0) × (u.fs ≡ w.fs)) _ file'
            v w' (chunkfs_open c fuel head file w) e' returned (start, still) in
        rw is_event ((pos, ap (seen c held sizes head fuel ns is) same), subst Good (sym same) h)

    -- A file, whose clients' files keep to the ranges of their continuations (`Holds`), answers any
    -- sequence of opens, reads, writes and syncs that return as one sequence of bytes does: a read
    -- brings bytes that stand at its offset, at most as many as asked for and none behind the end, a
    -- write replaces as many bytes as it says and no others, and a sync or an open changes nothing.
    -- Writes begin inside the file and do not cross the end of the range that they begin in. The file
    -- is such a one afterwards.
    pub session_refines :
        (w w' : World c.State) (es : List Event)
        → Good w.fs
        → Runs w es w'
        → Answered (end_from 0 ns) (bytes_of w) es (bytes_of w') × Good w'.fs
    session_refines w w' es h done = (refl, h)
    session_refines w w' es h (call {w' = v} {e} {es = rest} s runs) =
        let (answers, good) = Step-Answers w v e h s in
        let (answered, last) = session_refines v w' rest good runs in
        ((bytes_of v, answers, answered), last)
