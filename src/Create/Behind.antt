-- ===== src/Create/Behind.antt =====
-- cont.c: the steps of `chunkfs_create_continuation` behind its loop, and the list that they leave.
use chunkfs.Base.{
  ℕ, ◌+◌, ◌*◌, ◌%◌, ◌^◌, ◌≡◌, ◌≢◌, refl, sym, ap, ◌∙◌, inr, none, List, [], ◌∷◌, ◌++◌, arith, sub64,
}
use mathlib.Core.Path.{subst}
use chunkfs.Uino.{uino_to_chunk_id, make_uino}
use chunkfs.Uino.RoundTrip.{split_make_uino, make_uino_arith}
use chunkfs.Kernel.{ok}
use chunkfs.Client.{Inode, Dentry, Status, ClientFile, opened, Client, XattrLaws}
use chunkfs.Cont.{ContData, Continuation, Head, World, set_cont_data}
use chunkfs.Cont.Attributes.{
  HasData, Settable, set_cont_data_ok, set_cont_data_keeps, set_cont_data-HasData,
  set_cont_data-HasData_other,
}
use chunkfs.Walk.Path.{built, Loaded, Linked, ContPath, HasMemory, load_continuation-Loaded}
use chunkfs.Create.{OpenCont, copy_down_file, continue_from}
use chunkfs.Create.Kept.{with_next, Kept, Held, ContPath-extended, last_Held, AllKept-ContPath}
use chunkfs.Create.Opens.{OpenLaws, New, new_path, data_after}

module _ (c : Client) (laws : XattrLaws c) (open_laws : OpenLaws c) (memory : HasMemory c)
    (settable : Settable c) (head : Head) (before : List Continuation) (p : Continuation)
    (w : World c.State) (f : ClientFile) (s : c.State)
    (e : c.filp_open w.fs (new_path p) ≡ (opened f, s)) (new : New c head s f p before)
    (there : ContPath c w.fs head none (before ++ p ∷ [])) where
  abbrev pub made : Inode
  made = c.d_inode s f.f_dentry

  abbrev pub next : ℕ
  next = make_uino (p.co_chunk_id + 1) (c.i_ino made)

  -- The clients' state with the new data, and with the pointer to it.
  abbrev pub set_new : World c.State → World c.State
  set_new v = (set_cont_data c made (data_after p) v).1

  abbrev pub set_last : World c.State → World c.State
  set_last v = (set_cont_data c p.co_inode (with_next p next).co_cd (set_new v)).1

  pub next_lem : next ≡ (p.co_chunk_id + 1) * 2 ^ 28 + c.i_ino made
  next_lem =
      make_uino_arith (p.co_chunk_id + 1) (c.i_ino made) (omega (arith, new.chunk_id)) new.ino

  pub next_chunk : uino_to_chunk_id next ≡ p.co_chunk_id + 1
  next_chunk =
      let (id, ino) =
        split_make_uino (p.co_chunk_id + 1) (c.i_ino made) (omega (arith, new.chunk_id)) new.ino in
      id ∙ omega (arith, new.chunk_id)

  module _ (v : World c.State) (at_s : v.fs ≡ s) where
    pub keeps :
        {A : Type 0} (g : c.State → A)
        → ((s s' : c.State) (i : Inode) (name v : List ℕ) (r : Status)
            → c.setxattr s i name v ≡ (r, s')
            → g s' ≡ g s)
        → g (set_last v).fs ≡ g s
    keeps g k =
        set_cont_data_keeps c g k p.co_inode _ (set_new v) (set_cont_data_ok c _ _ _ settable)
        ∙ set_cont_data_keeps c g k made _ v (set_cont_data_ok c _ _ _ settable)
        ∙ ap g at_s

    pub dentry_kept : (d : Dentry) → c.d_inode (set_last v).fs d ≡ c.d_inode s d
    dentry_kept d =
        keeps (λ x. c.d_inode x d) (λ x x' i name b r h. laws.d_inode_set x x' i name b r d h)

    pub path_kept : (q : List ℕ) → c.kern_path (set_last v).fs q ≡ c.kern_path s q
    path_kept q =
        keeps (λ x. c.kern_path x q) (λ x x' i name b r h. laws.kern_path_set x x' i name b q r h)

    pub new_HasData : HasData c (set_last v).fs made (data_after p)
    new_HasData =
        set_cont_data-HasData_other c laws p.co_inode made (with_next p next).co_cd (data_after p)
          (set_new v) (set_cont_data_ok c _ _ _ settable) new.last_inode
          (set_cont_data-HasData c laws made (data_after p) v (set_cont_data_ok c _ _ _ settable)
            (record {
              next = omega arith;
              prev = new.uino;
              start = omega arith;
              len = omega arith;
            }))

    pub last_HasData : HasData c (set_last v).fs p.co_inode (with_next p next).co_cd
    last_HasData =
        set_cont_data-HasData c laws p.co_inode (with_next p next).co_cd (set_new v)
          (set_cont_data_ok c _ _ _ settable)
          (record {
            next = omega (arith, next_lem, new.chunk_id, new.ino);
            prev = new.fits.prev;
            start = new.fits.start;
            len = new.fits.len;
          })

    pub opened_HasData :
        (i : Inode) (cd : ContData) → i ≢ made → HasData c w.fs i cd → HasData c s i cd
    opened_HasData i cd ne h = record {
      next = rw (open_laws.attributes w.fs s _ f i _ e ne) h.next;
      prev = rw (open_laws.attributes w.fs s _ f i _ e ne) h.prev;
      start = rw (open_laws.attributes w.fs s _ f i _ e ne) h.start;
      len = rw (open_laws.attributes w.fs s _ f i _ e ne) h.len;
    }

    other_Kept :
        (n : Continuation)
        → Held c w.fs n
        → (n.co_dentry ≢ f.f_dentry) × (n.co_inode ≢ made) × (n.co_inode ≢ p.co_inode)
        → Kept c w.fs (set_last v).fs n.co_cd n
    other_Kept n (inode, has) (ne_d, ne_new, ne_last) = record {
      inode = dentry_kept n.co_dentry ∙ open_laws.dentries w.fs s _ f n.co_dentry e ne_d;
      has =
          set_cont_data-HasData_other c laws p.co_inode n.co_inode _ n.co_cd (set_new v)
            (set_cont_data_ok c _ _ _ settable) (λ h. ne_last (sym h))
            (set_cont_data-HasData_other c laws made n.co_inode _ n.co_cd v
              (set_cont_data_ok c _ _ _ settable) (λ h. ne_new (sym h))
              (subst (λ x. HasData c x n.co_inode n.co_cd) (sym at_s)
                (opened_HasData n.co_inode n.co_cd ne_new has)));
    }

    abbrev pub new_cont : Continuation
    new_cont = built c (set_last v).fs f.f_dentry (p.co_chunk_id + 1) new.chunk (data_after p)

    new_Loaded : Loaded c (set_last v).fs f.f_dentry (p.co_chunk_id + 1) new_cont
    new_Loaded = record {
      chunk = new.chunk;
      found = new.found;
      attributes =
          subst (λ i. HasData c (set_last v).fs i (data_after p)) (sym (dentry_kept f.f_dentry))
            new_HasData;
      same = refl;
    }

    new_Linked : Linked c (set_last v).fs head (with_next p next) new_cont
    new_Linked = record {
      not_head = new.not_head;
      not_zero = λ z. absurd (omega (arith, next_lem, z));
      dentry = f.f_dentry;
      path = rw next_chunk (path_kept (new_path p) ∙ open_laws.opens w.fs s _ f e);
      loaded =
          subst (λ id. Loaded c (set_last v).fs f.f_dentry id new_cont) (sym next_chunk) new_Loaded;
    }

    pub extended :
        ContPath c (set_last v).fs head none (before ++ with_next p next ∷ (new_cont ∷ []))
    extended =
        ContPath-extended c w.fs (set_last v).fs head before none p new_cont next
          (λ q d h. path_kept q ∙ open_laws.paths w.fs s _ f q d e h) there
          (AllKept-ContPath c w.fs head (set_last v).fs _ other_Kept before none p there new.others)
          (record {
            inode =
                dentry_kept p.co_dentry
                ∙ open_laws.dentries w.fs s _ f p.co_dentry e new.last_dentry;
            has = last_HasData;
          })
          new_Linked (inr refl)

    -- The world after the new continuation is loaded.
    abbrev pub loaded_world : World c.State
    loaded_world = let x = set_last v in record x { conts = x.conts + 1; calls = x.calls + 1 }

    abbrev pub new_open : ℕ → OpenCont
    new_open ppos = record {
      client_file = record f { f_pos = sub64 ppos new_cont.co_cd.cd_start };
      cont = new_cont;
      ppos = sub64 ppos new_cont.co_cd.cd_start;
    }

  last_inode_kept :
      (v : World c.State) → v.fs ≡ s → c.d_inode (set_new v).fs p.co_dentry ≡ p.co_inode
  last_inode_kept v at_s =
      set_cont_data_keeps c (λ x. c.d_inode x p.co_dentry)
        (λ x x' i name b r h. laws.d_inode_set x x' i name b r p.co_dentry h) made (data_after p) v
        (set_cont_data_ok c _ _ _ settable)
      ∙ ap (λ x. c.d_inode x p.co_dentry) at_s
      ∙ open_laws.dentries w.fs s _ f p.co_dentry e new.last_dentry
      ∙ (last_Held c w.fs head before none p there).0

  pub continued :
      (ppos : ℕ) (v₀ : World c.State)
      → v₀.fs ≡ w.fs
      → let v : World c.State = record v₀ { fs = s; calls = v₀.calls + 1 } in
        continue_from c p ppos v₀ ≡ (ok (new_open v refl ppos), loaded_world v refl)
  unfolding continue_from copy_down_file
  continued ppos v₀ same =
      let v : World c.State = record v₀ { fs = s; calls = v₀.calls + 1 } in
      let to : (p.co_chunk_id + 1) % 2 ^ 64 ≡ p.co_chunk_id + 1 = omega (arith, new.chunk_id) in
      rw (
        memory.getname v₀.calls,
        to,
        same,
        e,
        last_inode_kept v refl,
        load_continuation-Loaded c memory f.f_dentry (p.co_chunk_id + 1) (new_cont v refl)
            (set_last v) (new_Loaded v refl),
      )
