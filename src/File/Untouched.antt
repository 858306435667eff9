-- ===== src/File/Untouched.antt =====
-- cont.c: the growth of a file leaves other files alone.
use chunkfs.Base.{ℕ, ◌≡◌, ◌≢◌, sym, ◌∙◌, List, [], ◌∷◌, ◌++◌, arith}
use chunkfs.Client.{Dentry, ClientFile, Client}
use chunkfs.Cont.{Continuation, Head, World}
use chunkfs.Walk.Search.{Has}
use chunkfs.Create.Behind.{path_kept, dentry_kept}
use chunkfs.File.Overwriting.{Bytes}
use chunkfs.File.Refines.{Holds}
use chunkfs.File.Longer.{inodes_of}
use chunkfs.File.Grows.{Grows}
use chunkfs.File.Growing.{grown, added, own, held_kept, sizes_kept, data_kept}
use chunkfs.File.Bystander.{Leaves}

-- Another file and inode than those of the new continuation and of the last one.
abbrev pub Clear : List Continuation → Continuation → Continuation → Type 0
Clear ms p n =
    (m : Continuation)
    → Has m ms
    → (m.co_dentry ≢ n.co_dentry) × (m.co_inode ≢ n.co_inode) × (m.co_inode ≢ p.co_inode)

module _ (c : Client) (held : c.State → Dentry → Bytes) (sizes : c.State → Dentry → ℕ) (head : Head)
    (fuel : ℕ) (before : List Continuation) (p : Continuation) (w : World c.State) (f : ClientFile)
    (s : c.State)
    (h : Holds c held sizes head fuel (before ++ p ∷ []) (inodes_of (before ++ p ∷ [])) w.fs)
    (g : Grows c held sizes head fuel before p w.fs f s) (v : World c.State) (at_s : v.fs ≡ s) where
  pub grown-Leaves :
      (ms : List Continuation)
      → Clear ms p (added c held sizes head fuel before p w f s h g v at_s)
      → Leaves c held sizes ms w.fs (grown c held sizes head fuel before p w f s h g v at_s)
  grown-Leaves ms clear = record {
    paths = λ q d e.
        path_kept c g.laws g.open_laws h.file.memory g.settable head before p w f s g.opens g.new
          h.file.path v at_s q
        ∙ g.open_laws.paths w.fs s _ f q d g.opens e;
    inodes = λ m has.
        dentry_kept c g.laws g.open_laws h.file.memory g.settable head before p w f s g.opens g.new
          h.file.path v at_s m.co_dentry
        ∙ g.open_laws.dentries w.fs s _ f m.co_dentry g.opens (clear m has).0;
    attributes = λ m has. data_kept c held sizes head fuel before p w f s h g v at_s m (
      (clear m has).0,
      λ e. (clear m has).1 (e ∙ sym (own c held sizes head fuel before p w f s h g v at_s)),
      (clear m has).2,
    );
    bytes = λ m o has.
        held_kept c held sizes head fuel before p w f s h g v at_s m.co_dentry o (clear m has).0;
    lengths = λ m has. omega (
      arith,
      sizes_kept c held sizes head fuel before p w f s h g v at_s m.co_dentry (clear m has).0,
    );
  }
