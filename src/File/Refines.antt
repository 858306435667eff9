-- ===== src/File/Refines.antt =====
-- file.c: `chunkfs_read`, `chunkfs_write` and `chunkfs_fsync_file` against one sequence of bytes.
use chunkfs.Base.{ℕ, ◌+◌, ◌-◌, ◌≤◌, ◌≡◌, inl, inr, refl, sym, ap, ◌∙◌, List, [], arith, length}
use mathlib.Core.Path.{subst, fun_ext}
use chunkfs.Kernel.{ok}
use chunkfs.Client.{Dentry, Inode, Transfer, moved, refused_io, Client}
use chunkfs.Cont.{Continuation, Head, World}
use chunkfs.Walk.Same.{Same, ContPath-Same}
use chunkfs.Walk.Search.{end_from, lt-or-le, Holder}
use chunkfs.File.{OpenFile, Returned, no_problemo, chunkfs_read}
use chunkfs.File.View.{
  delivered, view, ByteLaws, view-Holder, range-le-end, view_other, Apart, Bounded,
}
use chunkfs.File.Overwriting.{Bytes, window, window-shift}
use chunkfs.File.Reading.{read_inside}
use chunkfs.File.Opening.{IsFile, InodePath-Same, at_offset, read_result}
use chunkfs.File.Ends.{chunkfs_read_past}

-- A file whose clients' files keep to their ranges.
pub record Holds (c : Client) (held : c.State → Dentry → Bytes) (sizes : c.State → Dentry → ℕ)
    (head : Head) (fuel : ℕ) (ns : List Continuation) (is : List Inode) (fs : c.State)
    : Type 0 where
  pub file : IsFile c head fuel fs ns is
  pub laws : ByteLaws c held sizes
  pub bounded : Bounded (sizes fs) ns
  pub apart : Apart ns

-- The `k` bytes from `ppos` on lie in the range that `ppos` lies in.
abbrev pub Fits : List Continuation → ℕ → ℕ → Type 0
Fits ns ppos k =
    (n : Continuation) → Holder ppos ns n → ppos + k ≤ n.co_cd.cd_start + n.co_cd.cd_len

pub IsFile-Same :
    (c : Client) (head : Head) (fuel : ℕ) (fs fs' : c.State) (ns : List Continuation)
    (is : List Inode)
    → Same c fs fs'
    → IsFile c head fuel fs ns is
    → IsFile c head fuel fs' ns is
IsFile-Same c head fuel fs fs' ns is same f = record {
  memory = f.memory;
  openable = f.openable;
  path = ContPath-Same c fs fs' same head f.path;
  adjoin = f.adjoin;
  size = f.size;
  rounds = f.rounds;
  inodes = InodePath-Same c fs fs' head same f.inodes;
  inode_rounds = f.inode_rounds;
}

delivered-no_problemo :
    (c : Client) (t : Transfer (List ℕ)) → delivered (no_problemo c t) ≡ delivered t
delivered-no_problemo c (moved bs) = refl
delivered-no_problemo c (refused_io e) = ground arith

module _ (c : Client) (held : c.State → Dentry → Bytes) (sizes : c.State → Dentry → ℕ) (head : Head)
    (fuel : ℕ) (ns : List Continuation) (is : List Inode) where
  abbrev pub seen : c.State → Bytes
  seen fs = view (held fs) ns

  -- What a read leaves: bytes of the file at the offset, and the file as it was.
  pub record ReadSo (fs : c.State) (len ppos : ℕ) (bs : List ℕ) (fs' : c.State) : Type 0 where
    pub bytes : bs ≡ window (seen fs) ppos (length bs)
    pub most : length bs ≤ len
    pub until : length bs ≤ end_from 0 ns - ppos
    pub still : seen fs' ≡ seen fs
    pub holds : Holds c held sizes head fuel ns is fs'

  read_at :
      (fs : c.State) (len ppos : ℕ) (n : Continuation) (h : Holds c held sizes head fuel ns is fs)
      → Holder ppos ns n
      → let a = c.read fs (at_offset n ppos) len (ppos - n.co_cd.cd_start) in
        ReadSo fs len ppos (delivered (no_problemo c a.result)) a.fs
  read_at fs len ppos n h holder =
      let f = at_offset n ppos in
      let start = n.co_cd.cd_start in
      let pos = ppos - start in
      let a = c.read fs f len pos in
      let (brings, most, until) = h.laws.read_brings fs f len pos in
      let bs = delivered a.result in
      let bound = h.bounded n holder.member in
      let last = range-le-end 0 ns n h.file.adjoin holder.member in
      let there : start + pos ≡ ppos = omega (arith, holder.from) in
      let agree : window (seen fs) (start + pos) (length bs)
          ≡ window (held fs n.co_dentry) pos (length bs) =
        window-shift (seen fs) (held fs n.co_dentry) start pos (length bs) (λ i lt.
          view-Holder (held fs) 0 ns n (start + pos + i) h.file.adjoin holder.member (omega arith)
            (omega (arith, holder.to, until, bound))
          ∙ ap (held fs n.co_dentry) (omega arith)) in
      rw (delivered-no_problemo c a.result) (record {
        bytes = brings ∙ sym agree ∙ ap (λ p. window (seen fs) p (length bs)) there;
        most = most;
        until = omega (arith, holder.to, until, bound, last);
        still = fun_ext (λ o.
            view_other (held fs) (held a.fs) 0 ns o h.file.adjoin (omega arith)
              (λ m has lo hi. h.laws.read_held fs f len pos m.co_dentry (o - m.co_cd.cd_start)));
        holds = record {
          file = IsFile-Same c head fuel fs a.fs ns is (h.laws.read_same fs f len pos) h.file;
          laws = h.laws;
          bounded = λ m has. rw (h.laws.read_sizes fs f len pos m.co_dentry) (h.bounded m has);
          apart = h.apart;
        };
      })

  -- A read of such a file (`Holds`) at any offset returns, and the bytes that it brings are those
  -- of the file at the offset, at most as many as asked for and none behind the end; the file's
  -- bytes stay, and it is such a one afterwards.
  pub chunkfs_read_refines :
      (file : OpenFile) (len ppos : ℕ) (w : World c.State)
      → Holds c held sizes head fuel ns is w.fs
      → (x : Returned (List ℕ)) × (w' : World c.State) × (chunkfs_read c fuel head file len ppos w
          ≡ (ok x, w'))
        × ReadSo w.fs len ppos (delivered x.result) w'.fs
  chunkfs_read_refines file len ppos w h = elim (lt-or-le ppos (end_from 0 ns)) [
    | inl inside ↦
        let (n, holder, w', fs, e) =
          read_inside c head fuel file len ppos w ns is h.file h.laws.read_same inside in
        (
          read_result c head fuel file w.fs is len ppos n,
          w',
          e,
          subst (ReadSo w.fs len ppos _) (sym fs) (read_at w.fs len ppos n h holder),
        )
    | inr past ↦
        let (r, fs) =
          chunkfs_read_past c head fuel file len ppos w ns h.file.memory h.file.path h.file.adjoin
            h.file.size h.file.rounds past in
        (
          record { result = moved []; ppos = ppos; file = file },
          (chunkfs_read c fuel head file len ppos w).1,
          ap (λ x. (x, (chunkfs_read c fuel head file len ppos w).1)) r,
          subst (ReadSo w.fs len ppos []) (sym fs) (record {
            bytes = refl;
            most = omega arith;
            until = omega arith;
            still = refl;
            holds = h;
          }),
        )
  ]
