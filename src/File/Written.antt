-- ===== src/File/Written.antt =====
-- file.c: `chunkfs_write` against one sequence of bytes.
use chunkfs.Base.{
  ℕ, zero, suc, refl, ◌+◌, ◌-◌, ◌≤◌, ◌<◌, ◌≡◌, ◌⊎◌, inl, inr, sym, ap, ◌∙◌, List, [], ◌∷◌, arith,
  length, take,
}
use mathlib.Core.Path.{subst, fun_ext}
use chunkfs.Kernel.{ok}
use chunkfs.Client.{Dentry, Inode, Client}
use chunkfs.Cont.{Continuation, Head, World}
use chunkfs.Walk.Search.{end_from, lt-or-le, Holder}
use chunkfs.File.{OpenFile, Returned, chunkfs_write}
use chunkfs.File.View.{accepted, view-Holder, view_other, Holder-unique}
use chunkfs.File.Overwriting.{Bytes, overwrite, overwrite-shift, overwrite_before, overwrite_behind}
use chunkfs.File.Reading.{write_inside}
use chunkfs.File.Opening.{at_offset, write_result}
use chunkfs.File.Refines.{Holds, Fits, IsFile-Same, seen}

length-take-le : (k : ℕ) (bs : List ℕ) → length (take k bs) ≤ length bs
length-take-le zero bs = omega arith
length-take-le (suc k) [] = omega arith
length-take-le (suc k) (b ∷ bs) = omega (arith, length-take-le k bs)

pub length-take : (k : ℕ) (bs : List ℕ) → k ≤ length bs → length (take k bs) ≡ k
length-take zero bs h = refl
length-take (suc k) [] h = absurd (omega arith)
length-take (suc k) (b ∷ bs) h = ap suc (length-take k bs (omega arith))

module _ (c : Client) (held : c.State → Dentry → Bytes) (sizes : c.State → Dentry → ℕ) (head : Head)
    (fuel : ℕ) (ns : List Continuation) (is : List Inode) where
  abbrev shown : c.State → Bytes
  shown = seen c held sizes head fuel ns is

  -- What a write leaves, that took `k` of the bytes: these are in the file at the offset.
  pub record WriteSo (fs : c.State) (bs : List ℕ) (ppos k : ℕ) (fs' : c.State) : Type 0 where
    pub most : k ≤ length bs
    pub written : shown fs' ≡ overwrite (shown fs) ppos (take k bs)
    pub holds : Holds c held sizes head fuel ns is fs'

  -- The world of the clients behind a write to the continuation `n`.
  abbrev pub wrote : c.State → List ℕ → ℕ → Continuation → c.State
  wrote fs bs ppos n = (c.write fs (at_offset n ppos) bs (ppos - n.co_cd.cd_start)).fs

  module _ (fs : c.State) (bs : List ℕ) (ppos : ℕ) (n : Continuation)
      (h : Holds c held sizes head fuel ns is fs) (holder : Holder ppos ns n) where
    -- Outside the range of `n` a write to it changes nothing.
    outside :
        (o : ℕ)
        → (o < n.co_cd.cd_start) ⊎ (n.co_cd.cd_start + n.co_cd.cd_len ≤ o)
        → shown (wrote fs bs ppos n) o ≡ shown fs o
    outside o out =
        view_other (held fs) (held (wrote fs bs ppos n)) 0 ns o h.file.adjoin (omega arith)
          (λ m has lo hi.
            h.laws.write_other fs (at_offset n ppos) bs (ppos - n.co_cd.cd_start) m.co_dentry
              (o - m.co_cd.cd_start)
              (λ same.
                let e = h.apart m n has holder.member same in
                let start = ap (λ x. x.co_cd.cd_start) e in
                let len = ap (λ x. x.co_cd.cd_len) e in
                absurd (omega (arith, start, len, lo, hi, out))))

    inside :
        (o : ℕ)
        → n.co_cd.cd_start ≤ o
        → o < n.co_cd.cd_start + n.co_cd.cd_len
        → let k = accepted (c.write fs (at_offset n ppos) bs (ppos - n.co_cd.cd_start)).result in
          shown (wrote fs bs ppos n) o ≡ overwrite (shown fs) ppos (take k bs) o
    inside o lo hi =
        let start = n.co_cd.cd_start in
        let pos = ppos - start in
        let a = c.write fs (at_offset n ppos) bs pos in
        let bs' = take (accepted a.result) bs in
        let here : start + (o - start) ≡ o = omega arith in
        let there : start + pos ≡ ppos = omega (arith, holder.from) in
        let before : shown fs (start + (o - start)) ≡ held fs n.co_dentry (o - start) =
          ap (shown fs) here ∙ view-Holder (held fs) 0 ns n o h.file.adjoin holder.member lo hi in
        view-Holder (held a.fs) 0 ns n o h.file.adjoin holder.member lo hi
        ∙ h.laws.write_held fs (at_offset n ppos) bs pos (o - start)
        ∙ sym (overwrite-shift (shown fs) (held fs n.co_dentry) start pos bs' (o - start) before)
        ∙ ap (λ p. overwrite (shown fs) p bs' (start + (o - start))) there
        ∙ ap (overwrite (shown fs) ppos bs') here

    pub write_at :
        Fits ns ppos (length bs)
        → WriteSo fs bs ppos
            (accepted (c.write fs (at_offset n ppos) bs (ppos - n.co_cd.cd_start)).result)
            (wrote fs bs ppos n)
    write_at fits =
        let f = at_offset n ppos in
        let pos = ppos - n.co_cd.cd_start in
        let a = c.write fs f bs pos in
        let k = accepted a.result in
        let short = length-take-le k bs in
        let room = fits n holder in
        record {
          most = h.laws.write_takes fs f bs pos;
          written = fun_ext (λ o. elim (lt-or-le o n.co_cd.cd_start) [
            | inl before ↦
                outside o (inl before)
                ∙ sym (overwrite_before (shown fs) ppos (take k bs) o (omega (arith, holder.from)))
            | inr lo ↦ elim (lt-or-le o (n.co_cd.cd_start + n.co_cd.cd_len)) [
              | inl hi ↦ inside o lo hi
              | inr behind ↦
                  outside o (inr behind)
                  ∙ sym (overwrite_behind (shown fs) ppos (take k bs) o (omega arith))
            ]
          ]);
          holds = record {
            file = IsFile-Same c head fuel fs a.fs ns is (h.laws.write_same fs f bs pos) h.file;
            laws = h.laws;
            bounded = λ m has. elim (h.laws.write_sizes fs f bs pos m.co_dentry) [
              | inl less ↦ omega (arith, h.bounded m has)
              | inr (same, most) ↦
                  let len = ap (λ x. x.co_cd.cd_len) (h.apart m n has holder.member same) in
                  omega (arith, h.laws.write_takes fs f bs pos, holder.from)
            ];
            apart = h.apart;
          };
        }

  -- A write to such a file (`Holds`) at an offset inside it, of bytes that do not cross the end of
  -- the range that the offset lies in, returns. The file then has as many of the bytes as the
  -- result says at the offset, and is otherwise as before; it is such a one afterwards.
  pub chunkfs_write_refines :
      (file : OpenFile) (bs : List ℕ) (ppos : ℕ) (w : World c.State)
      → Holds c held sizes head fuel ns is w.fs
      → ppos < end_from 0 ns
      → Fits ns ppos (length bs)
      → (x : Returned ℕ) × (w' : World c.State) × (chunkfs_write c fuel head file bs ppos w
          ≡ (ok x, w'))
        × WriteSo w.fs bs ppos (accepted x.result) w'.fs
  chunkfs_write_refines file bs ppos w h inside fits =
      let (n, holder, w', fs, e) =
        write_inside c head fuel file bs ppos w ns is h.file h.laws.write_same inside in
      (
        write_result c head fuel file w.fs is bs ppos n,
        w',
        e,
        subst (WriteSo w.fs bs ppos _) (sym fs) (write_at w.fs bs ppos n h holder fits),
      )

  -- A write to such a file (`Holds`) at an offset in the range of the continuation `n` changes no
  -- byte of the file outside that range, however many bytes it is given and whatever number of
  -- bytes it returns as written.
  pub chunkfs_write_across :
      (file : OpenFile) (bs : List ℕ) (ppos o : ℕ) (n : Continuation) (w : World c.State)
      → Holds c held sizes head fuel ns is w.fs
      → ppos < end_from 0 ns
      → Holder ppos ns n
      → (o < n.co_cd.cd_start) ⊎ (n.co_cd.cd_start + n.co_cd.cd_len ≤ o)
      → (x : Returned ℕ) × (w' : World c.State) × (chunkfs_write c fuel head file bs ppos w
          ≡ (ok x, w'))
        × (shown w'.fs o ≡ shown w.fs o)
  chunkfs_write_across file bs ppos o n w h inside holder out =
      let (m, holds, w', fs, e) =
        write_inside c head fuel file bs ppos w ns is h.file h.laws.write_same inside in
      let same = Holder-unique 0 ppos ns m n h.file.adjoin holds holder in
      (
        write_result c head fuel file w.fs is bs ppos m,
        w',
        e,
        ap (λ s. shown s o) fs
            ∙ outside w.fs bs ppos m h holds o (
                subst
                  (λ (x : Continuation).
                    (o < x.co_cd.cd_start) ⊎ (x.co_cd.cd_start + x.co_cd.cd_len ≤ o))
                  (sym same) out),
      )
