-- ===== src/Tests/Walking.antt =====
-- The walk along the two continuations, and continuation data written and read back.
use chunkfs.Base.{none, ◌⊎◌, ◌≤◌, ◌<◌, ◌≡◌, refl, [], ◌∷◌, arith}
use chunkfs.Kernel.{ok, err, enoent}
use chunkfs.Cont.{Continuation, set_cont_value, set_cont_data}
use chunkfs.Cont.Attributes.{
  IsContData, HasData, set_cont_data-HasData, set_cont_data-HasData_other,
}
use chunkfs.Walk.{get_cont_at_offset}
use chunkfs.Walk.Search.{Holder, get_cont_at_offset_lem, get_cont_at_offset_leaks}
use chunkfs.Walk.Path.{ContPath}
use chunkfs.Create.{init_cont_data}
use chunkfs.Create.Kept.{with_data}
use chunkfs.Create.Restart.{initial_data, init_cont_data-ContPath}
use chunkfs.Tests.Clients.{
  head, first_data, second_data, stored, world, second_stored, first_cont, second_cont, file,
}
use chunkfs.Tests.Store.{settable, client, memory, laws}

-- Byte 50000 is held by the second continuation.
get_cont_at_offset_lem_example :
    let (r, w') = get_cont_at_offset client 3 head 50000 world in
    (w'.fs ≡ stored)
    × (((50000 < 81920)
          × ((n : Continuation) × (r ≡ ok n) × Holder 50000 (first_cont ∷ (second_cont ∷ [])) n))
        ⊎ ((81920 ≤ 50000) × (r ≡ err enoent)))
get_cont_at_offset_lem_example =
    get_cont_at_offset_lem client head 50000 3 world (first_cont ∷ (second_cont ∷ [])) memory file
      (refl, (refl, tt)) (omega arith) (omega arith)

get_cont_at_offset_leaks_here :
    let (r, w') = get_cont_at_offset client 3 head 50000 world in
    (r ≡ ok second_cont) × (w'.conts ≡ 2)
get_cont_at_offset_leaks_here =
    get_cont_at_offset_leaks client head 50000 3 world (first_cont ∷ []) second_cont [] memory file
      (refl, (refl, tt)) (omega arith) (omega arith) (omega arith) (omega arith)

first_small : IsContData first_data
first_small = record {
  next = omega arith;
  prev = omega arith;
  start = omega arith;
  len = omega arith;
}

-- The data that inode 5 has, set on inode 7.
set_cont_data-HasData_example :
    HasData client (set_cont_data client 7 first_data world).1.fs 7 first_data
unfolding set_cont_data set_cont_value
set_cont_data-HasData_example =
    set_cont_data-HasData client laws 7 first_data world refl first_small

set_cont_data-HasData_other_here :
    HasData client (set_cont_data client 7 first_data world).1.fs 6 second_data
unfolding set_cont_data set_cont_value
set_cont_data-HasData_other_here =
    set_cont_data-HasData_other client laws 7 6 first_data second_data world refl (omega arith)
      second_stored

-- The file of two continuations is started anew.
init_cont_data-ContPath_here :
    let (r, w') = init_cont_data client 5 world in
    (r ≡ ok tt) × ContPath client w'.fs head none (with_data first_cont initial_data ∷ [])
init_cont_data-ContPath_here =
    init_cont_data-ContPath client head first_cont (second_cont ∷ []) world laws settable file
