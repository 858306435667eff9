-- ===== src/File/Opening.antt =====
-- file.c: the opening of the continuation at an offset, and what follows once it is open.
use chunkfs.Base.{
  ℕ, ◌+◌, ◌-◌, ◌%◌, ◌^◌, ◌≤◌, ◌<◌, ◌≡◌, ap, Option, none, some, List, arith, length, add64,
}
use chunkfs.Kernel.{ok}
use chunkfs.Client.{Inode, Dentry, ClientFile, opened, Client}
use chunkfs.Cont.{Continuation, Head, World, put_continuation}
use chunkfs.Walk.{get_cont_at_offset}
use chunkfs.Walk.Path.{ContPath, HasMemory}
use chunkfs.Walk.Search.{Adjoin, end_from, Holder, get_cont_at_offset-cases}
use chunkfs.Walk.Same.{Same, HasData-Same}
use chunkfs.Create.{OpenCont, copy_down_file}
use chunkfs.File.{
  OpenFile, Returned, no_problemo, copy_up_file, open_cont_file, close_cont_file, read_at_cont,
  chunkfs_read, write_at_cont, chunkfs_write,
}
use chunkfs.File.Sizes.{InodePath, over, onward, Leads, sizes_from, copy_up_inode-InodePath}

-- `dentry_open` gives a file that stands at its beginning.
abbrev pub Openable : Client → Type 0
Openable c =
    (s : c.State) (d : Dentry) → c.dentry_open s d ≡ opened (record { f_dentry = d; f_pos = 0 })

abbrev pub ReadKeeps : Client → Type 0
ReadKeeps c = (s : c.State) (f : ClientFile) (len pos : ℕ) → Same c s (c.read s f len pos).fs

abbrev pub WriteKeeps : Client → Type 0
WriteKeeps c =
    (s : c.State) (f : ClientFile) (bs : List ℕ) (pos : ℕ) → Same c s (c.write s f bs pos).fs

Leads-Same :
    (c : Client) (fs fs' : c.State) (head : Head) (prev : Option Inode) (i : Inode)
    → Same c fs fs'
    → Leads c fs head prev i
    → Leads c fs' head prev i
Leads-Same c fs fs' head none i same l = l
Leads-Same c fs fs' head (some prev) i same b = record {
  cd = b.cd;
  attributes = HasData-Same c fs fs' same prev b.cd b.attributes;
  more = b.more;
  chunk = b.chunk;
  found = b.found;
  gets = b.gets;
}

pub InodePath-Same :
    (c : Client) (fs fs' : c.State) (head : Head) {prev : Option Inode} {is : List Inode}
    → Same c fs fs'
    → InodePath c fs head prev is
    → InodePath c fs' head prev is
InodePath-Same c fs fs' head same (over {i} cd has ends) =
    over cd (HasData-Same c fs fs' same i cd has) ends
InodePath-Same c fs fs' head same (onward {prev} {i} l path) =
    onward (Leads-Same c fs fs' head prev i same l) (InodePath-Same c fs fs' head same path)

-- The file of chunkfs after its client's file was closed.
abbrev pub closed : (c : Client) → c.State → List Inode → ClientFile → Continuation → OpenFile
closed c fs is f n = record {
  f_pos = add64 f.f_pos n.co_cd.cd_start;
  i_size = sizes_from c fs 0 is;
  i_attrs = c.attrs fs (c.d_inode fs f.f_dentry);
}

-- The client's file of the continuation, at the position that the offset has in it.
abbrev pub at_offset : Continuation → ℕ → ClientFile
at_offset n ppos = record { f_dentry = n.co_dentry; f_pos = ppos - n.co_cd.cd_start }

module _ (c : Client) (head : Head) (fuel : ℕ) (file : OpenFile) where
  pub close_cont_file_lem :
      (f : ClientFile) (n : Continuation) (w : World c.State) (is : List Inode)
      → InodePath c w.fs head none is
      → length is < fuel
      → close_cont_file c fuel head file f n w
        ≡ (ok (closed c w.fs is f n), record w { conts = w.conts - 1 })
  unfolding close_cont_file copy_up_file put_continuation
  close_cont_file_lem f n w is path h = rw (
      copy_up_inode-InodePath c head fuel (c.d_inode w.fs f.f_dentry)
        (record file { f_pos = add64 f.f_pos n.co_cd.cd_start }) is w path h)

  pub open_cont_file_lem :
      (ppos : ℕ) (w : World c.State) (n : Continuation)
      → Openable c
      → (get_cont_at_offset c fuel head ppos w).0 ≡ ok n
      → n.co_cd.cd_start ≤ ppos
      → ppos < 2 ^ 64
      → open_cont_file c fuel head ppos w ≡ (
        ok (record { client_file = at_offset n ppos; cont = n; ppos = ppos - n.co_cd.cd_start }),
        (get_cont_at_offset c fuel head ppos w).1,
      )
  unfolding open_cont_file copy_down_file
  open_cont_file_lem ppos w n openable e lo hi =
      let pos : (ppos + 2 ^ 64 - n.co_cd.cd_start) % 2 ^ 64 ≡ ppos - n.co_cd.cd_start =
        omega arith in
      rw (e, openable, pos)

  -- What `chunkfs_read` returns from the clients' state `fs` and the continuation `n`.
  abbrev pub read_result : c.State → List Inode → ℕ → ℕ → Continuation → Returned (List ℕ)
  read_result fs is len ppos n =
      let a = c.read fs (at_offset n ppos) len (ppos - n.co_cd.cd_start) in
      record { result = no_problemo c a.result; ppos = a.ppos; file = closed c a.fs is a.file n }

  abbrev pub write_result : c.State → List Inode → List ℕ → ℕ → Continuation → Returned ℕ
  write_result fs is bs ppos n =
      let a = c.write fs (at_offset n ppos) bs (ppos - n.co_cd.cd_start) in
      record { result = a.result; ppos = a.ppos; file = closed c a.fs is a.file n }

  module _ (n : Continuation) (ppos : ℕ) (w : World c.State) (is : List Inode)
      (path : InodePath c w.fs head none is) (h : length is < fuel) where
    abbrev here : OpenCont
    here = record { client_file = at_offset n ppos; cont = n; ppos = ppos - n.co_cd.cd_start }

    pub read_at_cont_lem :
        (len : ℕ)
        → ReadKeeps c
        → let a = c.read w.fs (at_offset n ppos) len (ppos - n.co_cd.cd_start) in
          read_at_cont c fuel head file len here w
          ≡ (ok (read_result w.fs is len ppos n), record w { fs = a.fs; conts = w.conts - 1 })
    unfolding read_at_cont
    read_at_cont_lem len keeps =
        let a = c.read w.fs (at_offset n ppos) len (ppos - n.co_cd.cd_start) in
        rw (
          close_cont_file_lem a.file n (record w { fs = a.fs }) is
            (InodePath-Same c w.fs a.fs head (keeps w.fs _ len _) path) h)

    pub write_at_cont_lem :
        (bs : List ℕ)
        → WriteKeeps c
        → let a = c.write w.fs (at_offset n ppos) bs (ppos - n.co_cd.cd_start) in
          write_at_cont c fuel head file bs here w
          ≡ (ok (write_result w.fs is bs ppos n), record w { fs = a.fs; conts = w.conts - 1 })
    unfolding write_at_cont
    write_at_cont_lem bs keeps =
        let a = c.write w.fs (at_offset n ppos) bs (ppos - n.co_cd.cd_start) in
        rw (
          close_cont_file_lem a.file n (record w { fs = a.fs }) is
            (InodePath-Same c w.fs a.fs head (keeps w.fs _ bs _) path) h)

  pub read_opened :
      (len ppos : ℕ) (w w' : World c.State) (o : OpenCont)
      → open_cont_file c fuel head ppos w ≡ (ok o, w')
      → chunkfs_read c fuel head file len ppos w ≡ read_at_cont c fuel head file len o w'
  unfolding chunkfs_read
  read_opened len ppos w w' o e = rw (ap (λ x. x.0) e, chunkfs_read, ap (λ x. x.1) e)

  pub write_opened :
      (bs : List ℕ) (ppos : ℕ) (w w' : World c.State) (o : OpenCont)
      → open_cont_file c fuel head ppos w ≡ (ok o, w')
      → chunkfs_write c fuel head file bs ppos w ≡ write_at_cont c fuel head file bs o w'
  unfolding chunkfs_write
  write_opened bs ppos w w' o e = rw e

-- The file has the continuations `ns`, whose ranges adjoin, and the inodes `is`; fuel is enough.
pub record IsFile (c : Client) (head : Head) (fuel : ℕ) (fs : c.State) (ns : List Continuation)
    (is : List Inode) : Type 0 where
  pub memory : HasMemory c
  pub openable : Openable c
  pub path : ContPath c fs head none ns
  pub adjoin : Adjoin 0 ns
  pub size : end_from 0 ns < 2 ^ 64
  pub rounds : length ns < fuel
  pub inodes : InodePath c fs head none is
  pub inode_rounds : length is < fuel

-- Where the search finds a continuation it is opened, in a world with the same clients.
pub opened_at :
    (c : Client) (head : Head) (fuel : ℕ) (file : OpenFile) (ppos : ℕ) (w : World c.State)
    (ns : List Continuation) (is : List Inode)
    → IsFile c head fuel w.fs ns is
    → ppos < end_from 0 ns
    → (n : Continuation) × Holder ppos ns n
      × (w' : World c.State) × (w'.fs ≡ w.fs)
      × (open_cont_file c fuel head ppos w ≡ (
        ok (record { client_file = at_offset n ppos; cont = n; ppos = ppos - n.co_cd.cd_start }),
        w',
      ))
opened_at c head fuel file ppos w ns is f inside =
    let (fs, found, past) =
      get_cont_at_offset-cases c head ppos fuel w ns f.memory f.path f.adjoin f.size f.rounds in
    let (n, e, holds) = found inside in
    (
      n,
      holds,
      (get_cont_at_offset c fuel head ppos w).1,
      fs,
      open_cont_file_lem c head fuel file ppos w n f.openable e holds.from (omega (arith, f.size)),
    )
