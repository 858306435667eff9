-- ===== src/File/Appended.antt =====
-- file.c: `chunkfs_write` at the end of a file against one sequence of bytes.
use chunkfs.Base.{
  ℕ, ◌+◌, ◌-◌, ◌%◌, ◌^◌, ◌≤◌, ◌≡◌, refl, sym, ap, ◌∙◌, List, [], ◌∷◌, ◌++◌, arith, length, take,
}
use mathlib.Core.Path.{subst, fun_ext}
use chunkfs.Kernel.{ok, err, enoent}
use chunkfs.Client.{Dentry, ClientFile, Client}
use chunkfs.Cont.{Continuation, Head, World}
use chunkfs.Walk.Search.{end_from, Holder}
use chunkfs.Create.Behind.{new_open, loaded_world}
use chunkfs.Create.Extends.{create_done}
use chunkfs.File.{OpenFile, Returned, open_cont_file, write_at_cont, chunkfs_write}
use chunkfs.File.View.{accepted, Holder-unique}
use chunkfs.File.Overwriting.{Bytes, overwrite}
use chunkfs.File.Opening.{at_offset, write_result, write_at_cont_lem}
use chunkfs.File.Ends.{open_past, end_from_last}
use chunkfs.File.Refines.{Holds, Fits, seen}
use chunkfs.File.Written.{WriteSo, wrote, write_at}
use chunkfs.File.Longer.{Has-added, longer, inodes_of, view-longer}
use chunkfs.File.Bystander.{Leaves, Leaves-trans, write-Leaves}
use chunkfs.File.Untouched.{Clear, grown-Leaves}
use chunkfs.File.Growing.{grown, added, pointer, held_kept, new_blank, not_new, grown-Holds}
use chunkfs.File.Grows.{Grows}

module _ (c : Client) (held : c.State → Dentry → Bytes) (sizes : c.State → Dentry → ℕ) (head : Head)
    (fuel : ℕ) (before : List Continuation) (p : Continuation) where
  -- The file as it was, and as it is with the new continuation.
  abbrev pub old : c.State → Bytes
  old = seen c held sizes head fuel (before ++ p ∷ []) (inodes_of (before ++ p ∷ []))

  -- What a write at the end leaves, that took `k` of the bytes: the continuation `n` behind the
  -- last one, which points to it by `next`, and the bytes behind those that were there.
  pub record AppendSo (fs : c.State) (bs : List ℕ) (k : ℕ) (fs' : c.State) : Type 0 where
    pub next : ℕ
    pub n : Continuation
    pub holds :
        Holds c held sizes head fuel
          (longer before p next n)
          (inodes_of (longer before p next n))
          fs'
    pub range : n.co_cd.cd_start ≡ end_from 0 (before ++ p ∷ [])
    pub len : n.co_cd.cd_len ≡ 40960
    pub most : k ≤ length bs
    pub bytes :
        seen c held sizes head fuel
          (longer before p next n)
          (inodes_of (longer before p next n))
          fs'
        ≡ overwrite (old fs) (end_from 0 (before ++ p ∷ [])) (take k bs)
    -- Other files are as they were.
    pub leaves : (ms : List Continuation) → Clear ms p n → Leaves c held sizes ms fs fs'

  -- The write, where the world has the clients that the search left.
  module _ (w : World c.State) (f : ClientFile) (s : c.State)
      (h : Holds c held sizes head fuel (before ++ p ∷ []) (inodes_of (before ++ p ∷ [])) w.fs)
      (g : Grows c held sizes head fuel before p w.fs f s) (v : World c.State) (at_s : v.fs ≡ s)
      (bs : List ℕ) (few : length bs ≤ 40960) where
    abbrev end_ : ℕ
    end_ = end_from 0 (before ++ p ∷ [])

    abbrev here : c.State
    here = grown c held sizes head fuel before p w f s h g v at_s

    abbrev n_new : Continuation
    n_new = added c held sizes head fuel before p w f s h g v at_s

    abbrev to_new : ℕ
    to_new = pointer c held sizes head fuel before p w f s h g v at_s

    start : n_new.co_cd.cd_start ≡ end_
    start = omega (arith, end_from_last 0 before p h.file.adjoin, g.small)

    there : Holder end_ (longer before p to_new n_new) n_new
    there = record {
      member = Has-added before p n_new to_new;
      from = omega (arith, start);
      to = omega (arith, start);
    }

    holding :
        Holds c held sizes head fuel
          (longer before p to_new n_new)
          (inodes_of (longer before p to_new n_new))
          here
    holding = grown-Holds c held sizes head fuel before p w f s h g v at_s

    room : Fits (longer before p to_new n_new) end_ (length bs)
    room m hm =
        let same = Holder-unique 0 end_ _ m n_new holding.file.adjoin hm there in
        rw same (omega (arith, start, few))

    abbrev taken : ℕ
    taken = accepted (c.write here (at_offset n_new end_) bs (end_ - n_new.co_cd.cd_start)).result

    abbrev behind : c.State
    behind =
        wrote c held sizes head fuel (longer before p to_new n_new)
          (inodes_of (longer before p to_new n_new)) here bs end_ n_new

    so :
        WriteSo c held sizes head fuel
          (longer before p to_new n_new)
          (inodes_of (longer before p to_new n_new))
          here
          bs
          end_
          taken
          behind
    so =
        write_at c held sizes head fuel (longer before p to_new n_new)
          (inodes_of (longer before p to_new n_new)) here bs end_ n_new holding there room

    pub appended : AppendSo w.fs bs taken behind
    appended = record {
      next = to_new;
      n = n_new;
      holds = so.holds;
      range = start;
      len = refl;
      most = so.most;
      bytes =
          so.written
          ∙ ap (λ g. overwrite g end_ (take taken bs))
              (fun_ext (λ o.
                view-longer (held w.fs) (held here) 0 before p to_new n_new o h.file.adjoin
                  (new_blank c held sizes head fuel before p w f s h g v at_s)
                  (λ m has.
                    held_kept c held sizes head fuel before p w f s h g v at_s m.co_dentry _
                      (not_new c held sizes head fuel before p w f s h g v at_s m has))));
      leaves = λ ms clear.
          Leaves-trans c held sizes ms w.fs here behind
            (grown-Leaves c held sizes head fuel before p w f s h g v at_s ms clear)
            (write-Leaves c held sizes ms h.laws here (at_offset n_new end_) bs
              (end_ - n_new.co_cd.cd_start) (λ m has. (clear m has).0));
    }

    abbrev loaded : World c.State
    loaded =
        loaded_world c g.laws g.open_laws h.file.memory g.settable head before p w f s g.opens g.new
          h.file.path v at_s

    abbrev pub outcome : OpenFile → Returned ℕ
    outcome file =
        write_result c head fuel file here (inodes_of (longer before p to_new n_new)) bs end_ n_new

    abbrev pub final : World c.State
    final = record loaded { fs = behind; conts = loaded.conts - 1 }

    -- What the creation opens is the new continuation at its byte 0.
    pub at_end :
        (file : OpenFile)
        → write_at_cont c fuel head file bs
            (new_open c g.laws g.open_laws h.file.memory g.settable head before p w f s g.opens
              g.new h.file.path v at_s end_)
            loaded
          ≡ (ok (outcome file), final)
    at_end file =
        let pos : (end_ + 2 ^ 64 - n_new.co_cd.cd_start) % 2 ^ 64 ≡ end_ - n_new.co_cd.cd_start =
          omega (arith, start, h.file.size) in
        rw pos (
          write_at_cont_lem c head fuel file n_new end_ loaded
            (inodes_of (longer before p to_new n_new)) holding.file.inodes holding.file.inode_rounds
            bs h.laws.write_same)

  -- The write, once the search has found nothing at the end.
  missed :
      (file : OpenFile) (bs : List ℕ) (f : ClientFile) (s : c.State) (w v : World c.State)
      (h : Holds c held sizes head fuel (before ++ p ∷ []) (inodes_of (before ++ p ∷ [])) v.fs)
      (g : Grows c held sizes head fuel before p v.fs f s)
      → length bs ≤ 40960
      → open_cont_file c fuel head (end_from 0 (before ++ p ∷ [])) w ≡ (err enoent, v)
      → (x : Returned ℕ) × (w' : World c.State) × (chunkfs_write c fuel head file bs
            (end_from 0 (before ++ p ∷ []))
            w
          ≡ (ok x, w'))
        × AppendSo v.fs bs (accepted x.result) w'.fs
  unfolding chunkfs_write
  missed file bs f s w v h g few e =
      let (u, at_s, made) =
        create_done c head fuel (end_from 0 (before ++ p ∷ [])) before p v f s g.laws g.open_laws
          h.file.memory g.settable h.file.path (omega (arith, g.rounds)) g.opens g.new in
      (
        outcome v f s h g u at_s bs few file,
        final v f s h g u at_s bs few,
        rw (e, made) (at_end v f s h g u at_s bs few file),
        appended v f s h g u at_s bs few,
      )

  -- A write of at most 40960 bytes at the very end of such a file (`Holds`), where it can grow by
  -- the clients' file that is opened for it (`Grows`: that file is new and empty, memory does not
  -- run out, no attribute is refused and no other file's bytes change), returns. The file then has
  -- one continuation more, whose range starts where the file ended: as many of the bytes as the
  -- result says stand there, and every byte before is as it was (`AppendSo`). It is such a file
  -- afterwards.
  pub chunkfs_write_end_refines :
      (file : OpenFile) (bs : List ℕ) (w : World c.State) (f : ClientFile) (s : c.State)
      → Holds c held sizes head fuel (before ++ p ∷ []) (inodes_of (before ++ p ∷ [])) w.fs
      → Grows c held sizes head fuel before p w.fs f s
      → length bs ≤ 40960
      → (x : Returned ℕ) × (w' : World c.State) × (chunkfs_write c fuel head file bs
            (end_from 0 (before ++ p ∷ []))
            w
          ≡ (ok x, w'))
        × AppendSo w.fs bs (accepted x.result) w'.fs
  chunkfs_write_end_refines file bs w f s h g few =
      let ns = before ++ p ∷ [] in
      let (v, fs, nothing) =
        open_past c head fuel (end_from 0 ns) w ns h.file.memory h.file.path h.file.adjoin
          h.file.size h.file.rounds (omega arith) in
      let (x, w', e, so) =
        missed file bs f s w v (subst (Holds c held sizes head fuel ns (inodes_of ns)) (sym fs) h)
          (subst (λ y. Grows c held sizes head fuel before p y f s) (sym fs) g) few nothing in
      (x, w', e, subst (λ y. AppendSo y bs (accepted x.result) w'.fs) fs so)
