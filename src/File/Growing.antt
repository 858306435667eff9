-- ===== src/File/Growing.antt =====
-- file.c and cont.c: a write at the very end of a file, which gets one continuation more for it.
use chunkfs.Base.{
  ℕ, ◌+◌, ◌≡◌, ◌≢◌, inl, inr, refl, sym, ap, ◌∙◌, none, some, List, [], ◌∷◌, ◌++◌, arith,
  length-append,
}
use mathlib.Core.Path.{subst}
use chunkfs.Uino.{uino_to_chunk_id}
use chunkfs.Uino.RoundTrip.{split_make_uino, make_uino_arith}
use chunkfs.Client.{Dentry, Inode, Status, ClientFile, Client}
use chunkfs.Cont.{Continuation, Head, World}
use chunkfs.Cont.Attributes.{HasData, set_cont_data_ok, set_cont_data-HasData_other}
use chunkfs.Walk.Search.{end_from, Has}
use chunkfs.Create.Kept.{with_next}
use chunkfs.Create.Behind.{
  next, set_last, keeps, new_HasData, last_HasData, opened_HasData, new_cont, extended, dentry_kept,
}
use chunkfs.Create.Opens.{data_after}
use chunkfs.Create.Extends.{Adjoin-extended}
use chunkfs.File.Sizes.{Behind, InodePath, over}
use chunkfs.File.View.{Apart, Bounded}
use chunkfs.File.Overwriting.{Bytes}
use chunkfs.File.Refines.{Holds}
use chunkfs.File.Longer.{
  DataKept, length-inodes_of, Has-end, All-map, longer, inodes_of, Has-longer, Has-before, Has-last,
  All-Has, end_from-longer, InodePath-longer,
}
use chunkfs.File.Grows.{Grows}

module _ (c : Client) (held : c.State → Dentry → Bytes) (sizes : c.State → Dentry → ℕ) (head : Head)
    (fuel : ℕ) (before : List Continuation) (p : Continuation) (w : World c.State) (f : ClientFile)
    (s : c.State)
    (h : Holds c held sizes head fuel (before ++ p ∷ []) (inodes_of (before ++ p ∷ [])) w.fs)
    (g : Grows c held sizes head fuel before p w.fs f s) (v : World c.State) (at_s : v.fs ≡ s) where
  abbrev end_ : ℕ
  end_ = end_from 0 (before ++ p ∷ [])

  -- The clients' state with the new continuation, and the continuation.
  abbrev pub grown : c.State
  grown =
      (set_last c g.laws g.open_laws h.file.memory g.settable head before p w f s g.opens g.new
        h.file.path v).fs

  abbrev pub added : Continuation
  added =
      new_cont c g.laws g.open_laws h.file.memory g.settable head before p w f s g.opens g.new
        h.file.path v at_s

  abbrev pub pointer : ℕ
  pointer =
      next c g.laws g.open_laws h.file.memory g.settable head before p w f s g.opens g.new
        h.file.path

  pub kept :
      {A : Type 0} (get : c.State → A)
      → ((s s' : c.State) (i : Inode) (name v : List ℕ) (r : Status)
          → c.setxattr s i name v ≡ (r, s')
          → get s' ≡ get s)
      → get grown ≡ get s
  kept get k =
      keeps c g.laws g.open_laws h.file.memory g.settable head before p w f s g.opens g.new
        h.file.path v at_s get k

  pub held_kept : (d : Dentry) (o : ℕ) → d ≢ f.f_dentry → held grown d o ≡ held w.fs d o
  held_kept d o ne =
      kept (λ x. held x d o) (λ x x' i name b r e. g.grow.set_held x x' i name b r d o e)
      ∙ g.grow.open_held w.fs s _ f d o g.opens ne

  pub new_blank : (o : ℕ) → held grown f.f_dentry o ≡ 0
  new_blank o =
      kept (λ x. held x f.f_dentry o)
        (λ x x' i name b r e. g.grow.set_held x x' i name b r f.f_dentry o e)
      ∙ g.blank o

  pub sizes_kept : (d : Dentry) → d ≢ f.f_dentry → sizes grown d ≡ sizes w.fs d
  sizes_kept d ne =
      kept (λ x. sizes x d) (λ x x' i name b r e. g.grow.set_sizes x x' i name b r d e)
      ∙ g.grow.open_sizes w.fs s _ f d g.opens ne

  -- The file's continuations so far have other files than the new one.
  pub not_new : (m : Continuation) → Has m (before ++ p ∷ []) → m.co_dentry ≢ f.f_dentry
  not_new m has = elim (Has-end before p m has) [
    | inl early ↦ (All-Has _ before m g.new.others early).0
    | inr e ↦ λ q. g.new.last_dentry (sym (ap (λ x. x.co_dentry) e) ∙ q)
  ]

  grown-Bounded : Bounded (sizes grown) (longer before p pointer added)
  grown-Bounded m has = elim (Has-longer before (with_next p pointer) added m has) [
    | inl early ↦
        let old = Has-before before (p ∷ []) m early in
        omega (arith, sizes_kept m.co_dentry (not_new m old), h.bounded m old)
    | inr (inl e) ↦
        let old = Has-last before p in
        rw e (omega (arith, sizes_kept p.co_dentry (not_new p old), h.bounded p old))
    | inr (inr e) ↦
        let same =
          kept (λ x. sizes x f.f_dentry)
            (λ x x' i name b r e. g.grow.set_sizes x x' i name b r f.f_dentry e) in
        rw e (omega (arith, same, g.empty))
  ]

  -- Those before the last have other files than it.
  not_last : (m : Continuation) → Has m before → m.co_dentry ≢ p.co_dentry
  not_last m early same =
      let e = h.apart m p (Has-before before (p ∷ []) m early) (Has-last before p) same in
      (All-Has _ before m g.new.others early).2 (ap (λ x. x.co_inode) e)

  grown-Apart : Apart (longer before p pointer added)
  grown-Apart n m hn hm same = elim (Has-longer before (with_next p pointer) added n hn) [
    | inl a ↦ elim (Has-longer before (with_next p pointer) added m hm) [
      | inl b ↦ h.apart n m (Has-before before (p ∷ []) n a) (Has-before before (p ∷ []) m b) same
      | inr (inl b) ↦ absurd (not_last n a (same ∙ ap (λ x. x.co_dentry) b))
      | inr (inr b) ↦
          absurd (not_new n (Has-before before (p ∷ []) n a) (same ∙ ap (λ x. x.co_dentry) b))
    ]
    | inr (inl a) ↦ elim (Has-longer before (with_next p pointer) added m hm) [
      | inl b ↦ absurd (not_last m b (sym same ∙ ap (λ x. x.co_dentry) a))
      | inr (inl b) ↦ a ∙ sym b
      | inr (inr b) ↦ absurd (
          not_new p (Has-last before p)
            (sym (ap (λ x. x.co_dentry) a) ∙ same ∙ ap (λ x. x.co_dentry) b))
    ]
    | inr (inr a) ↦ elim (Has-longer before (with_next p pointer) added m hm) [
      | inl b ↦
          absurd (not_new m (Has-before before (p ∷ []) m b) (sym same ∙ ap (λ x. x.co_dentry) a))
      | inr (inl b) ↦ absurd (
          not_new p (Has-last before p)
            (sym (ap (λ x. x.co_dentry) b) ∙ sym same ∙ ap (λ x. x.co_dentry) a))
      | inr (inr b) ↦ a ∙ sym b
    ]
  ]

  pub data_kept :
      (m : Continuation)
      → (m.co_dentry ≢ f.f_dentry)
        × (m.co_inode ≢ c.d_inode s f.f_dentry)
        × (m.co_inode ≢ p.co_inode)
      → DataKept c w.fs grown (some (m.co_inode))
  data_kept m (ne_d, ne_new, ne_last) cd has =
      set_cont_data-HasData_other c g.laws p.co_inode m.co_inode _ cd _
        (set_cont_data_ok c _ _ _ g.settable) (λ e. ne_last (sym e))
        (set_cont_data-HasData_other c g.laws (c.d_inode s f.f_dentry) m.co_inode _ cd v
          (set_cont_data_ok c _ _ _ g.settable) (λ e. ne_new (sym e))
          (subst (λ x. HasData c x m.co_inode cd) (sym at_s)
            (opened_HasData c g.laws g.open_laws h.file.memory g.settable head before p w f s
              g.opens g.new h.file.path v at_s m.co_inode cd ne_new has)))

  pub own : added.co_inode ≡ c.d_inode s f.f_dentry
  own =
      dentry_kept c g.laws g.open_laws h.file.memory g.settable head before p w f s g.opens g.new
        h.file.path v at_s f.f_dentry

  behind : Behind c grown p.co_inode (c.d_inode s f.f_dentry)
  behind =
      let (id, ino) =
        split_make_uino (p.co_chunk_id + 1) (c.i_ino (c.d_inode s f.f_dentry))
          (omega (arith, g.new.chunk_id)) g.new.ino in
      let far =
        make_uino_arith (p.co_chunk_id + 1) (c.i_ino (c.d_inode s f.f_dentry))
          (omega (arith, g.new.chunk_id)) g.new.ino in
      let whole : uino_to_chunk_id pointer ≡ p.co_chunk_id + 1 =
        id ∙ omega (arith, g.new.chunk_id) in
      record {
        cd = (with_next p pointer).co_cd;
        attributes =
            last_HasData c g.laws g.open_laws h.file.memory g.settable head before p w f s g.opens
              g.new h.file.path v at_s;
        more = λ z. absurd (omega (arith, far, z));
        chunk = g.new.chunk;
        found = rw whole g.new.found;
        gets = rw ino g.gets;
      }

  grown-InodePath : InodePath c grown head none (inodes_of (longer before p pointer added))
  grown-InodePath =
      InodePath-longer c w.fs grown head none before p added pointer h.file.inodes tt
        (All-map _ _ before data_kept g.new.others)
        (subst (Behind c grown p.co_inode) (sym own) behind)
        (subst (λ i. InodePath c grown head (some i) []) (sym own)
          (over (data_after p)
            (new_HasData c g.laws g.open_laws h.file.memory g.settable head before p w f s g.opens
              g.new h.file.path v at_s)
            refl))

  pub grown-Holds :
      Holds c held sizes head fuel
        (longer before p pointer added)
        (inodes_of (longer before p pointer added))
        grown
  grown-Holds = record {
    file = record {
      memory = h.file.memory;
      openable = h.file.openable;
      path =
          extended c g.laws g.open_laws h.file.memory g.settable head before p w f s g.opens g.new
            h.file.path v at_s;
      adjoin = Adjoin-extended 0 before p added pointer h.file.adjoin h.file.size refl;
      size = omega (arith, end_from-longer 0 before p pointer added, g.small);
      rounds = omega (arith, length-append before (with_next p pointer ∷ (added ∷ [])), g.rounds);
      inodes = grown-InodePath;
      inode_rounds = omega (
        arith,
        length-inodes_of (longer before p pointer added),
        length-append before (with_next p pointer ∷ (added ∷ [])),
        g.rounds,
      );
    };
    laws = h.laws;
    bounded = grown-Bounded;
    apart = grown-Apart;
  }
