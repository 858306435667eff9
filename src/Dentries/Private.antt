-- ===== src/Dentries/Private.antt =====
-- namei.c: `chunkfs_init_dentry` with and without memory.
use chunkfs.Base.{ℕ, ◌+◌, ◌-◌, ◌≡◌, ◌⊎◌, inl, inr, refl, true, none, some, arith, Bool-cases}
use chunkfs.Kernel.{ok, err, enomem}
use chunkfs.Client.{Client}
use chunkfs.Cont.{World}
use chunkfs.Dentries.{Pins, init_dentry, zero_nd}

-- One more call of the allocator.
abbrev pub called : {S : Type 0} → ℕ → World S → World S
called n w = record w { calls = w.calls + n }

-- The private data, with two objects more.
abbrev pub allocated : {S : Type 0} → Pins S → World S → Pins S
allocated p w = record {
  world = w;
  d_fsdata = some (record { dp_client_dentry = none; dp_client_nd = zero_nd });
  objs = p.objs + 1 + 1;
  drefs = p.drefs;
  mnts = p.mnts;
}

-- Without memory nothing is held and nothing is set.
pub record Unallocated {S : Type 0} (p q : Pins S) : Type 0 where
  pub fsdata : q.d_fsdata ≡ none
  pub objs : q.objs ≡ p.objs
  pub drefs : q.drefs ≡ p.drefs
  pub mnts : q.mnts ≡ p.mnts
  pub fs : q.world.fs ≡ p.world.fs
  pub inodes : q.world.inodes ≡ p.world.inodes

module _ (c : Client) (p : Pins c.State) (e : p.d_fsdata ≡ none) where
  init_dentry_ok :
      c.kzalloc p.world.calls ≡ true
      → c.kzalloc (p.world.calls + 1) ≡ true
      → init_dentry c p ≡ (ok tt, allocated p (record (p.world) { calls = p.world.calls + 1 + 1 }))
  unfolding init_dentry
  init_dentry_ok one two = rw (e, one, two)

  pub init_dentry-cases :
      (init_dentry c p ≡ (ok tt, allocated p (record (p.world) { calls = p.world.calls + 1 + 1 })))
      ⊎ ((q : Pins c.State) × (init_dentry c p ≡ (err enomem, q)) × Unallocated p q)
  unfolding init_dentry
  init_dentry-cases = elim (Bool-cases (c.kzalloc p.world.calls)) [
    | inl one ↦ elim (Bool-cases (c.kzalloc (p.world.calls + 1))) [
      | inl two ↦ inl (init_dentry_ok one two)
      | inr two ↦ inr (
        record p {
          world = record (p.world) { calls = p.world.calls + 1 + 1 };
          objs = p.objs + 1 - 1;
        },
        rw (e, one, two),
        record {
          fsdata = e;
          objs = omega arith;
          drefs = refl;
          mnts = refl;
          fs = refl;
          inodes = refl;
        },
      )
    ]
    | inr one ↦ inr (
      record p { world = record (p.world) { calls = p.world.calls + 1 } },
      rw (e, one),
      record { fsdata = e; objs = refl; drefs = refl; mnts = refl; fs = refl; inodes = refl },
    )
  ]
