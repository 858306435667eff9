-- ===== src/File/Isolated.antt =====
-- file.c and cont.c: calls on one file, and another file that shares nothing with it.
use chunkfs.Base.{ℕ, ◌-◌, ◌≡◌, ◌≢◌, inl, inr, refl, sym, ap, ◌∙◌, List, [], ◌∷◌, ◌++◌}
use mathlib.Core.Path.{subst}
use chunkfs.Client.{Dentry, Client}
use chunkfs.Cont.{Continuation, Head, World}
use chunkfs.Walk.Search.{end_from, Has, lt-or-le}
use chunkfs.Walk.Unique.{ContPath-unique}
use chunkfs.Create.Kept.{with_next}
use chunkfs.File.{Returned, chunkfs_write}
use chunkfs.File.Overwriting.{Bytes}
use chunkfs.File.View.{accepted}
use chunkfs.File.Opening.{at_offset}
use chunkfs.File.Reading.{read_inside, write_inside}
use chunkfs.File.Ends.{chunkfs_read_past}
use chunkfs.File.Syncing.{chunkfs_fsync_file-ContPath}
use chunkfs.File.Longer.{longer, inodes_of, Has-end, Has-before, Has-added}
use chunkfs.File.Appended.{AppendSo, chunkfs_write_end_refines}
use chunkfs.File.Session.{Event, Step, reads, writes, syncs, opens, one_outcome}
use chunkfs.File.Life.{Moves, within, at_end, Life, over, move, shown, Kept, Moves-Moved}
use chunkfs.File.AtStart.{chunkfs_open_lem}
use chunkfs.File.Bystander.{
  Leaves, Leaves-self, Leaves-trans, read-Leaves, write-Leaves, synced-Leaves, Holds-Leaves,
}

-- No continuation of the one file has the client's file or inode of one of the other.
abbrev pub Disjoint : List Continuation → List Continuation → Type 0
Disjoint ns ms =
    (n m : Continuation)
    → Has n ns
    → Has m ms
    → (m.co_dentry ≢ n.co_dentry) × (m.co_inode ≢ n.co_inode)

module _ (c : Client) (held : c.State → Dentry → Bytes) (sizes : c.State → Dentry → ℕ) (head : Head)
    (fuel : ℕ) (ms : List Continuation) where
  Step-Leaves :
      (w w' : World c.State) (ns : List Continuation) (e : Event)
      → Kept c held sizes head fuel w ns
      → Disjoint ns ms
      → Step c head fuel ns w e w'
      → Leaves c held sizes ms w.fs w'.fs
  Step-Leaves w w' ns e h apart (reads file len ppos x returned is_event) =
      elim (lt-or-le ppos (end_from 0 ns)) [
        | inl inside ↦
            let (n, holder, v, fs, e') =
              read_inside c head fuel file len ppos w ns (inodes_of ns) h.file h.laws.read_same
                inside in
            let there : w'.fs ≡ (c.read w.fs (at_offset n ppos) len (ppos - n.co_cd.cd_start)).fs =
              ap (λ r. r.1.fs) (sym returned ∙ e') ∙ fs in
            subst (Leaves c held sizes ms w.fs) (sym there) (
              read-Leaves c held sizes ms h.laws w.fs (at_offset n ppos) len
                (ppos - n.co_cd.cd_start))
        | inr past ↦
            let (r, fs) =
              chunkfs_read_past c head fuel file len ppos w ns h.file.memory h.file.path
                h.file.adjoin h.file.size h.file.rounds past in
            subst (Leaves c held sizes ms w.fs) (sym fs ∙ ap (λ r. r.1.fs) returned)
              (Leaves-self c held sizes ms w.fs)
      ]
  Step-Leaves w w' ns e h apart (writes file bs ppos x inside fits returned is_event) =
      let (n, holder, v, fs, e') =
        write_inside c head fuel file bs ppos w ns (inodes_of ns) h.file h.laws.write_same inside in
      let there : w'.fs ≡ (c.write w.fs (at_offset n ppos) bs (ppos - n.co_cd.cd_start)).fs =
        ap (λ r. r.1.fs) (sym returned ∙ e') ∙ fs in
      subst (Leaves c held sizes ms w.fs) (sym there) (
        write-Leaves c held sizes ms h.laws w.fs (at_offset n ppos) bs (ppos - n.co_cd.cd_start)
          (λ m has. (apart n m holder.member has).0))
  Step-Leaves w w' ns e h apart (syncs returned is_event) =
      let (r, fs) =
        chunkfs_fsync_file-ContPath c head fuel w ns h.file.memory h.laws.fsync_same h.file.path
          h.file.rounds in
      subst (Leaves c held sizes ms w.fs) (sym fs ∙ ap (λ r. r.1.fs) returned)
        (synced-Leaves c held sizes ms h.laws ns w.fs)
  Step-Leaves w w' ns e h apart (opens file file' inside returned is_event) =
      let (n, holder, v, still, e', start) =
        chunkfs_open_lem c head fuel file w ns (inodes_of ns) h.file inside in
      subst (Leaves c held sizes ms w.fs) (sym still ∙ ap (λ r. r.1.fs) (sym e' ∙ returned))
        (Leaves-self c held sizes ms w.fs)

  -- The last continuation is in the longer list too, with another pointer.
  Has-pointed :
      (before : List Continuation) (p n : Continuation) (next : ℕ)
      → Has (with_next p next) (longer before p next n)
  Has-pointed [] p n next = inl refl
  Has-pointed (b ∷ before) p n next = inr (Has-pointed before p n next)

  Disjoint-longer :
      (before : List Continuation) (p n : Continuation) (next : ℕ)
      → Disjoint (longer before p next n) ms
      → Disjoint (before ++ p ∷ []) ms
  Disjoint-longer before p n next apart x m hx hm = elim (Has-end before p x hx) [
    | inl early ↦ apart x m (Has-before before (with_next p next ∷ (n ∷ [])) x early) hm
    | inr e ↦ rw e (apart (with_next p next) m (Has-pointed before p n next) hm)
  ]

  pub Moves-Leaves :
      (w w' : World c.State) (ns ns' : List Continuation) (e : Event)
      → Kept c held sizes head fuel w ns
      → Moves c held sizes head fuel w ns e w' ns'
      → Disjoint ns' ms
      → Leaves c held sizes ms w.fs w'.fs × Disjoint ns ms
  Moves-Leaves w w' ns ns' e h (within s same) apart =
      let apart : Disjoint ns ms = subst (λ x. Disjoint x ms) same apart in
      (Step-Leaves w w' ns e h apart s, apart)
  Moves-Leaves w w' ns ns' e h (at_end before p f s file bs x is_ns g few returned is_event path)
        apart =
      let (y, v, e', so) =
        chunkfs_write_end_refines c held sizes head fuel before p file bs w f s
          (subst (Kept c held sizes head fuel w) is_ns h) g few in
      let so =
        one_outcome
          (λ (r : Returned ℕ) u.
            AppendSo c held sizes head fuel before p w.fs bs (accepted r.result) u.fs)
          y x v w' (chunkfs_write c fuel head file bs (end_from 0 (before ++ p ∷ [])) w) e' returned
          so in
      let apart : Disjoint (longer before p so.next so.n) ms =
        subst (λ x. Disjoint x ms) (sym (ContPath-unique c w'.fs head so.holds.file.path path))
          apart in
      (
        so.leaves ms (λ m has.
            let (d, i) = apart so.n m (Has-added before p so.n so.next) has in
            (d, i, (apart (with_next p so.next) m (Has-pointed before p so.n so.next) has).1)),
        subst (λ x. Disjoint x ms) (sym is_ns) (Disjoint-longer before p so.n so.next apart),
      )

  Life-Leaves :
      (w w' : World c.State) (ns ns' : List Continuation) (es : List Event)
      → Kept c held sizes head fuel w ns
      → Life c held sizes head fuel w ns es w' ns'
      → Disjoint ns' ms
      → Leaves c held sizes ms w.fs w'.fs × Disjoint ns ms
  Life-Leaves w w' ns ns' es h over apart = (Leaves-self c held sizes ms w.fs, apart)
  Life-Leaves w w' ns ns' es h (move {w' = v} {ns' = ks} {e} {es = rest} m life) apart =
      let good = (Moves-Moved c held sizes head fuel w v ns ks e h m).2 in
      let (later, apart) = Life-Leaves v w' ks ns' rest good life apart in
      let (first, apart) = Moves-Leaves w v ns ks e h m apart in
      (Leaves-trans c held sizes ms w.fs v.fs w'.fs first later, apart)

  -- Calls on one file (`Life`: opens, reads, writes, syncs, opens, and writes at the end that make it grow) leave
  -- another file alone: where both keep to their ranges (`Holds`) and no continuation that the
  -- first has at the end shares its client's file or inode with one of the second, the second shows
  -- the same bytes afterwards and still keeps to its ranges.
  pub Life-isolated :
      (other : Head) (w w' : World c.State) (ns ns' : List Continuation) (es : List Event)
      → Kept c held sizes head fuel w ns
      → Kept c held sizes other fuel w ms
      → Life c held sizes head fuel w ns es w' ns'
      → Disjoint ns' ms
      → (shown c held sizes other fuel w' ms ≡ shown c held sizes other fuel w ms)
        × Kept c held sizes other fuel w' ms
  Life-isolated other w w' ns ns' es h k life apart =
      Holds-Leaves c held sizes other w.fs w'.fs fuel ms (Life-Leaves w w' ns ns' es h life apart).0
        k
