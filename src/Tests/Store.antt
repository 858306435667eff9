-- ===== src/Tests/Store.antt =====
-- Client file systems that keep everything in lists and functions, with the laws that they meet.
use chunkfs.Base.{
  ℕ, ◌+◌, ◌≡◌, ◌≢◌, ◌⊎◌, inl, inr, refl, sym, ap, ◌∙◌, Bool, true, false, ◌&&◌, Option, none, some,
  List, [], ◌∷◌, arith, ◌-◌, ltb, ◌==◌, if◌then◌else◌, length, Bool-cases, Option-cases,
}
use chunkfs.Mount.{ChunkInfo, DevInfo}
use chunkfs.File.Overwriting.{Bytes, window, overwrite}
use chunkfs.Create.Opens.{OpenLaws}
use chunkfs.Client.{
  ClientFile, Inode, Xattr, value, Status, success, failure, Opened, opened, unopened, moved,
  Client, XattrLaws,
}
use chunkfs.Cont.Attributes.{Settable}
use chunkfs.Walk.Path.{HasMemory}

abbrev pub same : List ℕ → List ℕ → Bool
same [] [] = true
same [] (y ∷ ys) = false
same (x ∷ xs) [] = false
same (x ∷ xs) (y ∷ ys) = let rest = same xs ys in (x == y) && rest

pub same_self : (xs : List ℕ) → same xs xs ≡ true
same_self [] = refl
same_self (x ∷ xs) = ground (arith, same_self xs)

same_sound : (xs ys : List ℕ) → same xs ys ≡ true → xs ≡ ys
same_sound [] [] h = refl
same_sound [] (y ∷ ys) h = cc
same_sound (x ∷ xs) [] h = cc
same_sound (x ∷ xs) (y ∷ ys) h =
    let (p, q) : ((x == y) ≡ true) × (same xs ys ≡ true) = ground (arith, h) in
    let e : x ≡ y = ground arith in cc (e, same_sound xs ys q)

-- The attributes of each inode.
abbrev pub Attrs : Type 0
Attrs = Inode → List ℕ → Xattr

abbrev pub put : Attrs → Inode → List ℕ → List ℕ → Attrs
put s i name v j other = if (i == j) && same name other then value v else s j other

-- The client file systems: attributes, the dentries that paths lead to, and the files' bytes.
pub record Store : Type 0 where
  pub attrs : Attrs
  pub names : List ℕ → Option ℕ
  pub files : ℕ → Bytes
  pub sizes : ℕ → ℕ

abbrev pub chunk : ℕ → ChunkInfo
chunk id = record {
  ci_bh = [];
  ci_mnt = record { mnt = id; mnt_sb = id };
  ci_flags = 0;
  ci_chunk_id = id;
  ci_client_fs = [];
}

abbrev pub dev : DevInfo
dev = record {
  di_bh = [];
  di_flags = 0;
  di_chunks = chunk 1 ∷ (chunk 2 ∷ (chunk 3 ∷ []));
  di_root_chunk = some (chunk 1);
}

abbrev pub stands_at_start : ℕ → ClientFile
stands_at_start d = record { f_dentry = d; f_pos = 0 }

-- A path that leads nowhere is made to lead to dentry 8.
abbrev pub open_or_make : Store → List ℕ → Option ℕ → Opened × Store
open_or_make s path (some d) = (opened (stands_at_start d), s)
open_or_make s path none = (
  opened (stands_at_start 8),
  record s { names = λ q. if same path q then some 8 else s.names q },
)

-- A read ends at the end of its file.
abbrev pub readable : Store → ℕ → ℕ → ℕ → ℕ
readable s d len pos = if ltb (s.sizes d - pos) len then s.sizes d - pos else len

-- A write takes all its bytes, and the file grows.
abbrev pub put_bytes : Store → ℕ → List ℕ → ℕ → Store
put_bytes s d bs pos = record s {
  files = λ e o. if e == d then overwrite (s.files d) pos bs o else s.files e o;
  sizes = λ e.
      if e == d
      then (if ltb (s.sizes d) (pos + length bs) then pos + length bs else s.sizes d)
      else s.sizes e;
}

abbrev pub client : Client
client = record {
  State = Store;
  i_ino = λ i. i;
  d_inode = λ s d. d;
  getxattr = λ s i name. s.attrs i name;
  setxattr = λ s i name v. (success, record s { attrs = put s.attrs i name v });
  kern_path = λ s path. s.names path;
  filp_open = λ s path. open_or_make s path (s.names path);
  dentry_open = λ s d. opened (record { f_dentry = d; f_pos = 0 });
  i_size = λ s i. s.sizes i;
  attrs = λ s i. 0;
  iget = λ sb ino. some ino;
  is_bad = λ i. false;
  i_sb = λ i. 1;
  read = λ s f len pos. record {
    result = moved (window (s.files f.f_dentry) pos (readable s f.f_dentry len pos));
    file = f;
    ppos = pos + readable s f.f_dentry len pos;
    fs = s;
  };
  write = λ s f bs pos. record {
    result = moved (length bs);
    file = f;
    ppos = pos + length bs;
    fs = put_bytes s f.f_dentry bs pos;
  };
  fsync = λ s d. (failure 5, s);
  kzalloc = λ n. true;
  getname = λ n. true;
  pool = record { pi_bh = []; pi_flags = 0; pi_devs = dev ∷ []; pi_root_dev = some dev };
}

pub memory : HasMemory client
memory = record { kzalloc = λ n. refl; getname = λ n. refl }

put_self : (s : Attrs) (i : Inode) (name v : List ℕ) → put s i name v i name ≡ value v
put_self s i name v = ground (arith, same_self name)

put_other :
    (s : Attrs) (i j : Inode) (name other v : List ℕ)
    → (i ≢ j) ⊎ (name ≢ other)
    → put s i name v j other ≡ s j other
put_other s i j name other v (inl ne) = ground (arith, ne)
put_other s i j name other v (inr ne) = elim (Bool-cases (same name other)) [
  | inl e ↦ absurd (ne (same_sound name other e))
  | inr e ↦ ground (arith, e)
]

pub laws : XattrLaws client
laws = record {
  get_set = λ s s' i name v e h.
      ap (λ (p : Status × Store). p.1.attrs i name) (sym e) ∙ put_self s.attrs i name v;
  get_set_other = λ s s' i j name other v r e ne.
      ap (λ (p : Status × Store). p.1.attrs j other) (sym e)
      ∙ put_other s.attrs i j name other v ne;
  kern_path_set = λ s s' i name v path r e. ap (λ (p : Status × Store). p.1.names path) (sym e);
  d_inode_set = λ s s' i name v r d e. refl;
}

pub settable : Settable client
settable s i name v = refl

abbrev pub dentry_of : Opened → ℕ
dentry_of (opened f) = f.f_dentry
dentry_of (unopened e) = 0

-- After an opening its path leads to its file, and what led somewhere still does.
makes :
    (s : Store) (path : List ℕ)
    → let (r, s') = open_or_make s path (s.names path) in s'.names path ≡ some (dentry_of r)
makes s path = elim (Option-cases (s.names path)) [
  | inl e ↦ rw e (rw (same_self path))
  | inr (d, e) ↦ rw e e
]

still :
    (s : Store) (path q : List ℕ) (d : ℕ)
    → s.names q ≡ some d
    → (open_or_make s path (s.names path)).1.names q ≡ some d
still s path q d h = elim (Option-cases (s.names path)) [
  | inl e ↦
      rw e (elim (Bool-cases (same path q)) [
        | inl p ↦ cc (e, h, same_sound path q p)
        | inr p ↦ rw p h
      ])
  | inr (x, e) ↦ rw e h
]

attrs_still : (s : Store) (path : List ℕ) → (open_or_make s path (s.names path)).1.attrs ≡ s.attrs
attrs_still s path = elim (Option-cases (s.names path)) [ inl e ↦ rw e | inr (x, e) ↦ rw e ]

pub open_laws : OpenLaws client
open_laws = record {
  opens = λ s s' path f e.
      ap (λ (p : Opened × Store). p.1.names path) (sym e)
      ∙ makes s path
      ∙ ap (λ (p : Opened × Store). some (dentry_of p.0)) e;
  paths =
      λ s s' path f q d e h. ap (λ (p : Opened × Store). p.1.names q) (sym e) ∙ still s path q d h;
  dentries = λ s s' path f d e ne. refl;
  attributes = λ s s' path f i name e ne.
      ap (λ (p : Opened × Store). p.1.attrs i name) (sym e)
      ∙ ap (λ (a : Attrs). a i name) (attrs_still s path);
}
