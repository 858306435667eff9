-- ===== src/Names/Started.antt =====
-- namei.c: an inode that `chunkfs_init_cont_data` has given the data of a new file.
use chunkfs.Base.{ℕ, ◌^◌, ◌≡◌, ◌<◌, refl, sym, ap, ◌∙◌, inr, none, some, [], ◌∷◌, arith}
use chunkfs.Uino.{uino_to_chunk_id}
use chunkfs.Uino.RoundTrip.{split_make_uino}
use mathlib.Core.Path.{subst}
use chunkfs.Kernel.{ok}
use chunkfs.Mount.{ChunkInfo, find_chunk}
use chunkfs.Client.{Inode, Dentry, Client, XattrLaws}
use chunkfs.Cont.{ContData, Continuation, Head, World, set_cont_data, set_cont_value}
use chunkfs.Cont.Attributes.{
  HasData, Settable, set_cont_data_ok, set_cont_data_keeps, set_cont_data-HasData,
}
use chunkfs.Walk.Path.{built, Loaded, ContPath, last, step}
use chunkfs.Create.{init_cont_data}
use chunkfs.Create.Restart.{initial_data}
use chunkfs.File.Sizes.{Gets, InodePath, over, onward}
use chunkfs.Names.{Dirs, head_of}

pub set_cont_data_counts :
    (c : Client) (i : Inode) (cd : ContData) (w : World c.State)
    → Settable c
    → (set_cont_data c i cd w).1.inodes ≡ w.inodes
unfolding set_cont_data set_cont_value
set_cont_data_counts c i cd w settable = simp settable refl

module _ (c : Client) (dirs : Dirs c) (laws : XattrLaws c) (settable : Settable c) (d : Dentry)
    (chunk_id : ℕ) (chunk : ChunkInfo) (found : find_chunk c.pool chunk_id ≡ some chunk)
    (v : World c.State) where
  abbrev pub inode : Inode
  inode = c.d_inode v.fs d

  -- The world once the client's inode has its continuation data.
  abbrev pub given : World c.State
  given = (set_cont_data c inode initial_data v).1

  pub given_init : init_cont_data c d v ≡ (ok tt, given)
  unfolding init_cont_data
  given_init = ap (λ r. (r, given)) (set_cont_data_ok c inode initial_data v settable)

  pub given_inode : c.d_inode given.fs d ≡ inode
  given_inode =
      set_cont_data_keeps c (λ s. c.d_inode s d)
        (λ s s' j name b r h. laws.d_inode_set s s' j name b r d h) inode initial_data v
        (set_cont_data_ok c inode initial_data v settable)

  given_HasData : HasData c given.fs inode initial_data
  given_HasData =
      set_cont_data-HasData c laws inode initial_data v
        (set_cont_data_ok c inode initial_data v settable)
        (record { next = omega arith; prev = omega arith; start = omega arith; len = omega arith })

  abbrev pub first : Continuation
  first = built c given.fs d chunk_id chunk initial_data

  module _ (small_chunk : chunk_id < 16) (small_ino : c.i_ino inode < 2 ^ 28)
      (gets : Gets c (c.i_sb inode) (c.i_ino inode) inode) where
    abbrev pub head : Head
    head = head_of c dirs d inode chunk_id

    own_chunk : uino_to_chunk_id head.i_ino ≡ chunk_id
    own_chunk = (split_make_uino chunk_id (c.i_ino inode) (omega arith) small_ino).0 ∙ omega arith

    pub first_path : ContPath c given.fs head none (first ∷ [])
    first_path =
        step
          (subst (λ id. Loaded c given.fs d id first) (sym own_chunk)
            (record {
              chunk = chunk;
              found = found;
              attributes =
                  subst (λ i. HasData c given.fs i initial_data) (sym given_inode) given_HasData;
              same = refl;
            }))
          (last (inr refl))

    pub first_inodes : InodePath c given.fs head none (inode ∷ [])
    first_inodes = onward gets (over initial_data given_HasData refl)
