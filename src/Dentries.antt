-- ===== src/Dentries.antt =====
-- namei.c and chunkfs_i.h: the private data of a dentry of chunkfs, which holds the client's dentry
-- and a nameidata for the client: how it is set up and released. One dentry is looked at: the one that
-- is looked up, or the root. References to client dentries and mounts are counted.
pub mod Lookup
pub mod Private
pub mod Balance
pub mod Outcomes
use chunkfs.Base.{
  ℕ, ◌+◌, ◌-◌, Bool, true, false, Option, none, some, List, [], ◌∷◌, ◌==◌, if◌then◌else◌,
}
use chunkfs.Uino.{uino_to_chunk_id}
use chunkfs.Kernel.{Ret, ok, err, bug, out_of_fuel, enomem}
use chunkfs.Mount.{ChunkInfo, find_chunk}
use chunkfs.Client.{Inode, Dentry, Client}
use chunkfs.Cont.{Head, World, C}
use chunkfs.Create.{init_cont_data}
use chunkfs.Names.{Dirs, Node, found_inode}

-- A `struct path`, and what chunkfs copies of a nameidata.
pub record FilePath : Type 0 where
  pub dentry : Dentry
  pub mnt : ℕ

pub record Nameidata : Type 0 where
  pub path : Option FilePath
  pub flags : ℕ
  pub seq : ℕ
  pub depth : ℕ
  pub saved_names : ℕ → ℕ

-- `__chunkfs_copy_nd`: one saved name goes along, the one at the source's depth.
unfoldable pub copy_nd : Nameidata → Nameidata → Nameidata
copy_nd dst src = record dst {
  flags = src.flags;
  seq = src.seq;
  depth = src.depth;
  saved_names = λ i. if i == src.depth then src.saved_names i else dst.saved_names i;
}

unfoldable pub copy_up_nd : Nameidata → Nameidata → Nameidata
unfolding copy_nd
copy_up_nd nd client_nd = copy_nd nd client_nd

unfoldable pub copy_down_nd : Nameidata → Nameidata → Nameidata
unfolding copy_nd
copy_down_nd nd client_nd = copy_nd client_nd nd

-- What `kzalloc` gives.
abbrev pub zero_nd : Nameidata
zero_nd = record { path = none; flags = 0; seq = 0; depth = 0; saved_names = λ i. 0 }

pub record DentryPriv : Type 0 where
  pub dp_client_dentry : Option Dentry
  pub dp_client_nd : Nameidata

-- The clients, the private data of the dentry, and how many objects of `kzalloc`, references to client
-- dentries and references to mounts are held.
pub record Pins (S : Type 0) : Type 0 where
  pub world : World S
  pub d_fsdata : Option DentryPriv
  pub objs : ℕ
  pub drefs : ℕ
  pub mnts : ℕ

abbrev pub D : Type 0 → Type 0 → Type 0
D S A = Pins S → Ret A × Pins S

module _ {S : Type 0} where
  abbrev pub dput : Pins S → Pins S
  dput p = record p { drefs = p.drefs - 1 }

  abbrev pub dget : Pins S → Pins S
  dget p = record p { drefs = p.drefs + 1 }

  -- `dput` and `mntput` of what a path names; of NULL they do nothing.
  abbrev path_put : Option FilePath → Pins S → Pins S
  path_put none p = p
  path_put (some path) p = record p { drefs = p.drefs - 1; mnts = p.mnts - 1 }

  abbrev dput_of : Option Dentry → Pins S → Pins S
  dput_of none p = p
  dput_of (some d) p = dput p

  -- Each of these reads the private data, which must be there.
  abbrev with_priv : Option DentryPriv → (DentryPriv → Pins S → Pins S) → D S (Unit {0})
  with_priv none f p = (bug, p)
  with_priv (some dp) f p = (ok tt, f dp p)

  unfoldable pub release_nd : D S (Unit {0})
  release_nd p = with_priv p.d_fsdata (λ dp. path_put dp.dp_client_nd.path) p

  unfoldable pub remove_dentry : D S (Unit {0})
  remove_dentry p = with_priv p.d_fsdata (λ dp. dput_of dp.dp_client_dentry) p

  unfoldable pub free_dentry : D S (Unit {0})
  free_dentry p =
      with_priv p.d_fsdata (λ dp q. record q { objs = q.objs - 1 - 1; d_fsdata = none }) p

  unfoldable pub add_dentry : Dentry → D S (Unit {0})
  add_dentry d p =
      with_priv p.d_fsdata
        (λ dp q. record q { d_fsdata = some (record dp { dp_client_dentry = some d }) }) p

module _ {S A B : Type 0} where
  abbrev pub after : Ret A → (A → D S B) → D S B
  after (ok a) f p = f a p
  after (err e) f p = (err e, p)
  after bug f p = (bug, p)
  after out_of_fuel f p = (out_of_fuel, p)

  infixl 5 ◌>>=◌ ◌>>◌
  abbrev pub ◌>>=◌ : D S A → (A → D S B) → D S B
  ◌>>=◌ m f p = let (r, q) = m p in after r f q

  abbrev pub ◌>>◌ : D S A → D S B → D S B
  m >> n = m >>= λ _. n

module _ {S A : Type 0} where
  abbrev pub pure : A → D S A
  pure a p = (ok a, p)

  -- A call of the code that knows of no dentries of chunkfs.
  abbrev pub lifted : C S A → D S A
  lifted m p = let (r, w) = m p.world in (r, record p { world = w })

  -- An error is returned after the statements behind a label were run.
  abbrev pub undone : Ret A → D S (Unit {0}) → D S A
  undone (ok a) cleanup p = (ok a, p)
  undone (err e) cleanup p = (cleanup >>= λ _. λ q. (err e, q)) p
  undone bug cleanup p = (bug, p)
  undone out_of_fuel cleanup p = (out_of_fuel, p)

  abbrev pub or_undo : D S A → D S (Unit {0}) → D S A
  or_undo m cleanup p = let (r, q) = m p in undone r cleanup q

unfoldable pub release_dentry : {S : Type 0} → D S (Unit {0})
unfolding release_nd remove_dentry free_dentry
release_dentry = do release_nd; remove_dentry; free_dentry

module _ (c : Client) where
  abbrev kzalloc : D c.State (Unit {0})
  kzalloc p =
      if c.kzalloc p.world.calls
      then (
        ok tt,
        record p { objs = p.objs + 1; world = record (p.world) { calls = p.world.calls + 1 } },
      )
      else (err enomem, record p { world = record (p.world) { calls = p.world.calls + 1 } })

  abbrev kfree : D c.State (Unit {0})
  kfree p = (ok tt, record p { objs = p.objs - 1 })

  -- `BUG_ON(dentry->d_fsdata)`.
  abbrev no_fsdata : Option DentryPriv → D c.State (Unit {0})
  no_fsdata none p = (ok tt, p)
  no_fsdata (some dp) p = (bug, p)

  abbrev set_fsdata : DentryPriv → D c.State (Unit {0})
  set_fsdata dp p = (ok tt, record p { d_fsdata = some dp })

  unfoldable pub init_dentry : D c.State (Unit {0})
  init_dentry = do
    λ p. no_fsdata p.d_fsdata p
    kzalloc
    or_undo kzalloc kfree
    set_fsdata (record { dp_client_dentry = none; dp_client_nd = zero_nd })

  abbrev set_path : Option ChunkInfo → Dentry → DentryPriv → D c.State (Unit {0})
  set_path none d dp p = (bug, p)
  set_path (some ci) d dp p = (
    ok tt,
    record p {
      d_fsdata = some (record dp {
        dp_client_nd = record (dp.dp_client_nd) {
          path = some (record { dentry = d; mnt = ci.ci_mnt.mnt });
        };
      });
      drefs = p.drefs + 1;
      mnts = p.mnts + 1;
    },
  )

  abbrev init_nd_of : Option DentryPriv → Dentry → ℕ → D c.State (Unit {0})
  init_nd_of none d chunk_id p = (bug, p)
  init_nd_of (some dp) d chunk_id p = set_path (find_chunk c.pool chunk_id) d dp p

  unfoldable pub init_nd : Dentry → ℕ → D c.State (Unit {0})
  init_nd d chunk_id p = init_nd_of p.d_fsdata d chunk_id p
