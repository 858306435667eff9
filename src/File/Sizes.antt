-- ===== src/File/Sizes.antt =====
-- inode.c: `chunkfs_copy_up_inode` along the inodes of a file.
use chunkfs.Base.{
  ℕ, zero, suc, ◌<◌, ◌≡◌, ◌≢◌, ap, false, Option, none, some, List, [], ◌∷◌, arith, length, add64,
  ◌==◌,
}
use chunkfs.Uino.{uino_to_chunk_id, uino_to_ino}
use chunkfs.Kernel.{ok}
use chunkfs.Mount.{ChunkInfo, find_chunk}
use chunkfs.Client.{Inode, Client}
use chunkfs.Cont.{ContData, Head, World}
use chunkfs.Cont.Attributes.{HasData, get_cont_data-HasData}
use chunkfs.Walk.{get_next_inode}
use chunkfs.File.{OpenFile, total_size, copy_up_inode}

-- `iget_locked` gives the inode `i`, and it is no bad one.
abbrev pub Gets : Client → ℕ → ℕ → Inode → Type 0
Gets c sb ino i = (c.iget sb ino ≡ some i) × (c.is_bad i ≡ false)

-- The inode `i` comes behind `prev`, or first.
pub record Behind (c : Client) (fs : c.State) (prev i : Inode) : Type 0 where
  pub cd : ContData
  pub attributes : HasData c fs prev cd
  pub more : cd.cd_next ≢ 0
  pub chunk : ChunkInfo
  pub found : find_chunk c.pool (uino_to_chunk_id cd.cd_next) ≡ some chunk
  pub gets : Gets c chunk.ci_mnt.mnt_sb (uino_to_ino cd.cd_next) i

abbrev pub Leads : (c : Client) → c.State → Head → Option Inode → Inode → Type 0
Leads c fs head none i = Gets c (c.i_sb head.client_inode) (c.i_ino head.client_inode) i
Leads c fs head (some prev) i = Behind c fs prev i

pub data InodePath (c : Client) (fs : c.State) (head : Head)
    : Option Inode → List Inode → Type 0 where
  over :
      {i : Inode} (cd : ContData)
      → HasData c fs i cd
      → cd.cd_next ≡ 0
      → InodePath c fs head (some i) []
  onward :
      {prev : Option Inode} {i : Inode} {is : List Inode}
      → Leads c fs head prev i
      → InodePath c fs head (some i) is
      → InodePath c fs head prev (i ∷ is)

-- The sum of the sizes, which wraps.
abbrev pub sizes_from : (c : Client) → c.State → ℕ → List Inode → ℕ
sizes_from c fs total [] = total
sizes_from c fs total (i ∷ is) = sizes_from c fs (add64 total (c.i_size fs i)) is

module _ (c : Client) (head : Head) (w : World c.State) where
  get_next_inode-Leads :
      (prev : Option Inode) (i : Inode)
      → Leads c w.fs head prev i
      → get_next_inode c head prev w ≡ (ok (some i), w)
  unfolding get_next_inode
  get_next_inode-Leads none i (got, good) = rw (got, good)
  get_next_inode-Leads (some prev) i b =
      let more : (b.cd.cd_next == 0) ≡ false = ground (arith, b.more) in
      rw (get_cont_data-HasData c prev b.cd w b.attributes, more, b.found, b.gets.0, b.gets.1)

  total_size-InodePath :
      (fuel : ℕ) (prev : Option Inode) (total : ℕ) (is : List Inode)
      → InodePath c w.fs head prev is
      → length is < fuel
      → total_size c head fuel prev total w ≡ (ok (sizes_from c w.fs total is), w)
  unfolding total_size
  total_size-InodePath zero prev total is path h = absurd (omega arith)
  total_size-InodePath (suc fuel) prev total [] (over {i} cd has ends) h =
      let stops : get_next_inode c head (some i) w ≡ (ok none, w) =
        unfold get_next_inode in rw (get_cont_data-HasData c i cd w has, ends) in
      rw (ap (λ x. x.0) stops, total_size, ap (λ x. x.1) stops)
  total_size-InodePath (suc fuel) prev total (i ∷ is) (onward l path) h =
      let next = get_next_inode-Leads prev i l in
      rw (ap (λ x. x.0) next, total_size, ap (λ x. x.1) next)
        (total_size-InodePath fuel (some i) (add64 total (c.i_size w.fs i)) is path (omega arith))

-- The size that `copy_up_inode` gives a file is the sum of the sizes of its clients' inodes, which
-- wraps at `2 ^ 64`, and the attributes are those of the inode given; nothing else changes. The
-- inodes can be had, and the fuel exceeds their number.
pub copy_up_inode-InodePath :
    (c : Client) (head : Head) (fuel : ℕ) (i : Inode) (file : OpenFile) (is : List Inode)
    (w : World c.State)
    → InodePath c w.fs head none is
    → length is < fuel
    → copy_up_inode c fuel head i file w
      ≡ (ok (record file { i_size = sizes_from c w.fs 0 is; i_attrs = c.attrs w.fs i }), w)
unfolding copy_up_inode
copy_up_inode-InodePath c head fuel i file is w path h =
    rw (total_size-InodePath c head w fuel none 0 is path h)
