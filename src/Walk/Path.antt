-- ===== src/Walk/Path.antt =====
-- The continuations of a file as the clients' state holds them, and one step of the walk along them.
use chunkfs.Base.{
  ℕ, ◌+◌, ◌≡◌, ◌≢◌, ◌⊎◌, true, false, Option, none, some, List, [], ◌∷◌, arith, ◌==◌,
}
use chunkfs.Uino.{uino_to_chunk_id, uino_to_ino, make_uino}
use chunkfs.Kernel.{ok}
use chunkfs.Mount.{ChunkInfo, find_chunk}
use chunkfs.Client.{Dentry, Client}
use chunkfs.Cont.{ContData, Continuation, Head, World, load_continuation}
use chunkfs.Cont.Attributes.{HasData, get_cont_data-HasData}
use chunkfs.Walk.{cont_path, follow, get_next_cont}

-- The continuation that is loaded from a dentry in chunk `chunk_id`.
abbrev pub built : (c : Client) → c.State → Dentry → ℕ → ChunkInfo → ContData → Continuation
built c fs d chunk_id ci cd = record {
  co_inode = c.d_inode fs d;
  co_dentry = d;
  co_mnt = ci.ci_mnt.mnt;
  co_cd = cd;
  co_chunk_id = chunk_id;
  co_uino = make_uino chunk_id (c.i_ino (c.d_inode fs d));
}

pub record Loaded (c : Client) (fs : c.State) (d : Dentry) (chunk_id : ℕ) (n : Continuation)
    : Type 0 where
  pub chunk : ChunkInfo
  pub found : find_chunk c.pool chunk_id ≡ some chunk
  pub attributes : HasData c fs (c.d_inode fs d) n.co_cd
  pub same : built c fs d chunk_id chunk n.co_cd ≡ n

-- `n` is where the continuation pointer of `p` leads.
pub record Linked (c : Client) (fs : c.State) (head : Head) (p n : Continuation) : Type 0 where
  pub not_head : p.co_cd.cd_next ≢ head.i_ino
  pub not_zero : p.co_cd.cd_next ≢ 0
  pub dentry : Dentry
  pub path :
      c.kern_path fs
        (cont_path (uino_to_chunk_id p.co_cd.cd_next) p.co_chunk_id (uino_to_ino p.co_uino))
      ≡ some dentry
  pub loaded : Loaded c fs dentry (uino_to_chunk_id p.co_cd.cd_next) n

abbrev pub Follows : (c : Client) → c.State → Head → Option Continuation → Continuation → Type 0
Follows c fs head none n = Loaded c fs head.client_dentry (uino_to_chunk_id head.i_ino) n
Follows c fs head (some p) n = Linked c fs head p n

abbrev pub Ends : Head → Continuation → Type 0
Ends head p = (p.co_cd.cd_next ≡ head.i_ino) ⊎ (p.co_cd.cd_next ≡ 0)

-- From `prev`, or from the head, the pointers lead through `cs` to the end.
pub data ContPath (c : Client) (fs : c.State) (head : Head)
    : Option Continuation → List Continuation → Type 0 where
  last : {p : Continuation} → Ends head p → ContPath c fs head (some p) []
  step :
      {prev : Option Continuation} {n : Continuation} {ns : List Continuation}
      → Follows c fs head prev n
      → ContPath c fs head (some n) ns
      → ContPath c fs head prev (n ∷ ns)

-- Memory does not run out.
pub record HasMemory (c : Client) : Type 0 where
  pub kzalloc : (n : ℕ) → c.kzalloc n ≡ true
  pub getname : (n : ℕ) → c.getname n ≡ true

-- The calls of an allocator in one step.
abbrev pub step_calls : Option Continuation → ℕ
step_calls none = 1
step_calls (some p) = 2

-- One continuation more is allocated.
abbrev pub stepped : {S : Type 0} → Option Continuation → World S → World S
stepped prev w = record {
  fs = w.fs;
  conts = w.conts + 1;
  inodes = w.inodes;
  calls = w.calls + step_calls prev;
}

module _ (c : Client) (memory : HasMemory c) where
  pub load_continuation-Loaded :
      (d : Dentry) (chunk_id : ℕ) (n : Continuation) (w : World c.State)
      → Loaded c w.fs d chunk_id n
      → load_continuation c d chunk_id w
        ≡ (ok n, record { fs = w.fs; conts = w.conts + 1; inodes = w.inodes; calls = w.calls + 1 })
  unfolding load_continuation
  load_continuation-Loaded d chunk_id n w l = rw (
    memory.kzalloc w.calls,
    l.found,
    get_cont_data-HasData c (c.d_inode w.fs d) n.co_cd
        (record { fs = w.fs; conts = w.conts + 1; inodes = w.inodes; calls = w.calls + 1 })
        l.attributes,
    l.same,
  )

  pub get_next_cont-Follows :
      (head : Head) (prev : Option Continuation) (n : Continuation) (w : World c.State)
      → Follows c w.fs head prev n
      → get_next_cont c head prev w ≡ (ok (some n), stepped prev w)
  unfolding get_next_cont follow
  get_next_cont-Follows head none n w l =
      rw (load_continuation-Loaded head.client_dentry (uino_to_chunk_id head.i_ino) n w l)
  get_next_cont-Follows head (some p) n w l =
      let not_head : (p.co_cd.cd_next == head.i_ino) ≡ false = ground (arith, l.not_head) in
      let not_zero : (p.co_cd.cd_next == 0) ≡ false = ground (arith, l.not_zero) in
      let w₁ : World c.State = record w { calls = w.calls + 1 } in
      let two : w.calls + 1 + 1 ≡ w.calls + 2 = omega arith in
      rw (
        not_head,
        not_zero,
        memory.getname w.calls,
        l.path,
        load_continuation-Loaded l.dentry (uino_to_chunk_id p.co_cd.cd_next) n w₁ l.loaded,
        two,
      )

  pub get_next_cont-Ends :
      (head : Head) (p : Continuation) (w : World c.State)
      → Ends head p
      → get_next_cont c head (some p) w ≡ (ok none, w)
  unfolding get_next_cont
  get_next_cont-Ends head p w e = ground arith
