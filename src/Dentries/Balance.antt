-- ===== src/Dentries/Balance.antt =====
-- namei.c: what `chunkfs_lookup` holds when it returns, and what the release of the dentry gives back.
use chunkfs.Base.{ℕ, ◌+◌, ◌-◌, ◌≡◌, refl, Option, none, some, arith, inl, inr}
use chunkfs.Kernel.{Ret, ok, err, bug, out_of_fuel}
use chunkfs.Client.{Dentry, Client}
use chunkfs.Cont.{Head, World}
use chunkfs.Names.{Dirs, Node, found_inode}
use chunkfs.Uino.{uino_to_chunk_id}
use chunkfs.Mount.{ChunkInfo, find_chunk}
use chunkfs.Dentries.Private.{allocated, init_dentry-cases}
use chunkfs.Dentries.{
  Pins, D, init_nd, release_nd, remove_dentry, free_dentry, add_dentry, release_dentry, after,
  or_undo, FilePath, zero_nd, ◌>>◌, pure, dget, ◌>>=◌,
}
use chunkfs.Dentries.Lookup.{
  Dcache, chunkfs_lookup, out_dput, Found, hooked, unhooked, hook, hook_with, cloned, clone_dentry,
  replaced, Replaced, null, other, refused,
}

-- `q` holds `o` objects, `d` references to dentries and `m` to mounts more than `p`.
abbrev pub Pinned : {S : Type 0} → Pins S → ℕ → ℕ → ℕ → Pins S → Type 0
Pinned p o d m q = (q.objs ≡ p.objs + o) × (q.drefs ≡ p.drefs + d) × (q.mnts ≡ p.mnts + m)

-- What a lookup leaves: nothing where it failed or hooked nothing up, and else what the release of the
-- dentry gives back.
abbrev pub LooksUp : {S : Type 0} → Pins S → Ret Found × Pins S → Type 0
LooksUp p (ok unhooked, q) = Pinned p 0 0 0 q × (q.d_fsdata ≡ none)
LooksUp p (ok (hooked inode), q) =
    Pinned p 2 2 1 q
    × ((release_dentry q).0 ≡ ok tt)
    × Pinned p 0 0 0 (release_dentry q).1
    × ((release_dentry q).1.d_fsdata ≡ none)
LooksUp p (err e, q) = Pinned p 0 0 0 q × (q.d_fsdata ≡ none)
LooksUp p (bug, q) = Unit
LooksUp p (out_of_fuel, q) = Unit

module _ (c : Client) (dirs : Dirs c) (dcache : Dcache c) (fuel : ℕ) (dir : Head)
    (p : Pins c.State) where
  -- What is held once the client's dentry and the mount are in the nameidata.
  abbrev set_up : FilePath → ℕ → World c.State → Pins c.State
  set_up path n w = record {
    world = w;
    d_fsdata =
        some
          (record { dp_client_dentry = none; dp_client_nd = record zero_nd { path = some path } });
    objs = p.objs + 1 + 1;
    drefs = n;
    mnts = p.mnts + 1;
  }

  abbrev undo : D c.State (Unit {0})
  undo = out_dput c dirs dcache

  hooked_up :
      (path : FilePath) (d : Dentry) (n : ℕ) (w : World c.State) (r : Ret (Option Node))
      → n ≡ p.drefs + 2
      → LooksUp p (
          or_undo
            (λ q. after r (λ node. add_dentry d >> pure (hooked node)) q)
            undo
            (set_up path n w))
  unfolding release_nd remove_dentry free_dentry add_dentry release_dentry
  hooked_up path d n w (ok inode) two = ground arith
  hooked_up path d n w (err e) two = ground arith
  hooked_up path d n w bug two = tt
  hooked_up path d n w out_of_fuel two = tt

  hook_with-LooksUp :
      (path : FilePath) (d : Dentry) (n : ℕ) (w : World c.State)
      → n ≡ p.drefs + 2
      → LooksUp p (or_undo (hook_with c dirs dcache fuel dir d) undo (set_up path n w))
  hook_with-LooksUp path d n w two =
      let (r, w') =
        found_inode c dirs fuel (uino_to_chunk_id dir.i_ino) d (dcache.is_negative w.fs d) w in
      hooked_up path d n w' r two

  replaced-LooksUp :
      (path : FilePath) (d : Dentry) (w : World c.State) (r : Replaced)
      → LooksUp p (
          or_undo
            (λ q. (replaced c dirs dcache d r >>= hook_with c dirs dcache fuel dir) q)
            undo
            (set_up path (p.drefs + 1 + 1) w))
  unfolding release_nd remove_dentry free_dentry
  replaced-LooksUp path d w null = hook_with-LooksUp path d (p.drefs + 1 + 1) w (omega arith)
  replaced-LooksUp path d w (other e) =
      hook_with-LooksUp path e (p.drefs + 1 + 1 + 1 - 1) w (omega arith)
  replaced-LooksUp path d w (refused e) = ground arith

  hook-LooksUp :
      (path : FilePath) (d : Dentry) (w : World c.State)
      → LooksUp p (or_undo (hook c dirs dcache fuel dir d) undo (set_up path (p.drefs + 1 + 1) w))
  hook-LooksUp path d w =
      let (r, fs') = dcache.lookup w.fs dir.client_inode d 0 in
      replaced-LooksUp path d (record w { fs = fs' }) r

  init_nd-LooksUp :
      (d : Dentry) (w : World c.State) (ci : Option ChunkInfo)
      → find_chunk c.pool (uino_to_chunk_id dir.i_ino) ≡ ci
      → LooksUp p (cloned c dirs dcache fuel dir (ok d) (dget (allocated p w)))
  unfolding init_nd
  init_nd-LooksUp d w none e = rw e tt
  init_nd-LooksUp d w (some ci) e =
      rw e (hook-LooksUp (record { dentry = d; mnt = ci.ci_mnt.mnt }) d w)

  cloned-LooksUp :
      (d : Option Dentry) (w : World c.State)
      → let (r, q) = clone_dentry c dirs dcache d (allocated p w) in
        LooksUp p (cloned c dirs dcache fuel dir r q)
  unfolding remove_dentry free_dentry
  cloned-LooksUp none w = ground arith
  cloned-LooksUp (some d) w = init_nd-LooksUp d w _ refl

  -- However `chunkfs_lookup` ends, short of a bug or of fuel, on a dentry without private data:
  -- after an error, and where it returns with nothing set up, as many objects and references to
  -- dentries and mounts are held as before and the dentry has no private data; after a success the
  -- release of the dentry gives back all that is held.
  pub chunkfs_lookup-LooksUp :
      p.d_fsdata ≡ none → LooksUp p (chunkfs_lookup c dirs dcache fuel dir p)
  unfolding chunkfs_lookup free_dentry
  chunkfs_lookup-LooksUp e = elim (init_dentry-cases c p e) [
    | inl done ↦ rw done (
        cloned-LooksUp (dcache.d_alloc_name (p.world.calls + 1 + 1))
          (record (p.world) { calls = p.world.calls + 1 + 1 }))
    | inr (q, fails, none_left) ↦ rw (fails, none_left.fsdata) tt
  ]
