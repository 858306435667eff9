-- ===== src/Create/Restart.antt =====
-- cont.c: `chunkfs_init_cont_data` on a file that has continuations.
use chunkfs.Base.{◌≡◌, refl, ap, inr, none, List, [], ◌∷◌, arith}
use mathlib.Core.Path.{subst}
use chunkfs.Kernel.{ok}
use chunkfs.Client.{Client, XattrLaws}
use chunkfs.Cont.{ContData, Continuation, Head, World, set_cont_data}
use chunkfs.Cont.Attributes.{
  HasData, Settable, set_cont_data_ok, set_cont_data_keeps, set_cont_data-HasData,
}
use chunkfs.Walk.Path.{ContPath, last, step}
use chunkfs.Create.{init_cont_data}
use chunkfs.Create.Kept.{with_data, Loaded-Kept}

-- The data of a file that has just been made.
abbrev pub initial_data : ContData
initial_data = record { cd_next = 0; cd_prev = 0; cd_start = 0; cd_len = 40960 }

-- `init_cont_data` on the head of a file that has continuations, where no attribute is refused,
-- returns 0 and leaves the file with its first continuation alone, which then holds the first 40960
-- bytes: all others are cut off.
pub init_cont_data-ContPath :
    (c : Client) (head : Head) (n : Continuation) (ns : List Continuation) (w : World c.State)
    → XattrLaws c
    → Settable c
    → ContPath c w.fs head none (n ∷ ns)
    → let (r, w') = init_cont_data c head.client_dentry w in
      (r ≡ ok tt) × ContPath c w'.fs head none (with_data n initial_data ∷ [])
unfolding init_cont_data
init_cont_data-ContPath c head n ns w laws settable (step f rest) =
    let d = head.client_dentry in
    let i = c.d_inode w.fs d in
    let own : i ≡ n.co_inode = ap (λ x. x.co_inode) f.same in
    let done = set_cont_data_ok c i initial_data w settable in
    (
      done,
      step
          (Loaded-Kept c w.fs (set_cont_data c i initial_data w).1.fs head d _ n initial_data f
            (record {
              inode =
                  set_cont_data_keeps c (λ s. c.d_inode s n.co_dentry)
                    (λ s s' j name v r h. laws.d_inode_set s s' j name v r n.co_dentry h) i
                    initial_data w done;
              has =
                  subst (λ j. HasData c (set_cont_data c i initial_data w).1.fs j initial_data) own
                    (set_cont_data-HasData c laws i initial_data w done (record {
                      next = omega arith;
                      prev = omega arith;
                      start = omega arith;
                      len = omega arith;
                    }));
            }))
          (last (inr refl)),
    )
