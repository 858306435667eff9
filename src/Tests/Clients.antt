-- ===== src/Tests/Clients.antt =====
-- A file of two continuations, which the client file systems hold.
use chunkfs.Base.{ℕ, inr, refl, none, some, List, [], ◌∷◌, ◌++◌, arith, ◌==◌, ltb, if◌then◌else◌}
use chunkfs.Decimal.{print_u64, digits_onto, simple_strtoull, strtoull_from}
use chunkfs.Uino.{uino_to_chunk_id, uino_to_ino, make_uino}
use chunkfs.Mount.{find_chunk, find_in_devs, find_in_chunks}
use chunkfs.Client.{value}
use chunkfs.Cont.{
  ContData, Continuation, Head, World, user_name, next_name, prev_name, start_name, parse_value,
}
use chunkfs.Cont.Attributes.{HasData}
use chunkfs.Walk.{cont_path}
use chunkfs.Walk.Path.{Loaded, Linked, ContPath, last, step, built}
use chunkfs.Tests.Store.{same, same_self, Store, chunk, client}

abbrev pub head : Head
head = record { i_ino = 268435461; client_dentry = 5; client_inode = 5 }

-- Inode 5 of chunk 1 holds the first 40960 bytes, inode 6 of chunk 2 the next.
abbrev pub first_data : ContData
first_data = record { cd_next = 536870918; cd_prev = 0; cd_start = 0; cd_len = 40960 }

abbrev pub second_data : ContData
second_data = record { cd_next = 0; cd_prev = 268435461; cd_start = 40960; cd_len = 40960 }

abbrev pub field : ContData → List ℕ → ℕ
field cd name =
    if same name (user_name next_name)
    then cd.cd_next
    else if same name (user_name prev_name)
    then cd.cd_prev
    else if same name (user_name start_name)
    then cd.cd_start
    else cd.cd_len

abbrev pub stored : Store
stored = record {
  attrs = λ i name.
      value (print_u64 (field (if i == 5 then first_data else second_data) name) ++ 0 ∷ []);
  names = λ path. if same path (cont_path 2 1 5) then some 6 else none;
  files = λ d o. if ltb d 8 then d else 0;
  sizes = λ d. if ltb d 8 then 40960 else 0;
}

abbrev pub world : World Store
world = record { fs = stored; conts = 0; inodes = 0; calls = 0 }

pub first_stored : HasData client stored 5 first_data
unfolding parse_value print_u64 digits_onto simple_strtoull strtoull_from
first_stored = record { next = refl; prev = refl; start = refl; len = refl }

pub second_stored : HasData client stored 6 second_data
unfolding parse_value print_u64 digits_onto simple_strtoull strtoull_from
second_stored = record { next = refl; prev = refl; start = refl; len = refl }

abbrev pub first_cont : Continuation
first_cont = built client stored 5 1 (chunk 1) first_data

abbrev pub second_cont : Continuation
second_cont = built client stored 6 2 (chunk 2) second_data

head_Loaded : Loaded client stored head.client_dentry (uino_to_chunk_id head.i_ino) first_cont
unfolding find_chunk find_in_devs find_in_chunks uino_to_chunk_id make_uino
head_Loaded = record { chunk = chunk 1; found = refl; attributes = first_stored; same = refl }

next_Linked : Linked client stored head first_cont second_cont
unfolding find_chunk find_in_devs find_in_chunks uino_to_chunk_id uino_to_ino make_uino
next_Linked = record {
  not_head = omega arith;
  not_zero = omega arith;
  dentry = 6;
  path = rw (same_self (cont_path 2 1 5));
  loaded = record { chunk = chunk 2; found = refl; attributes = second_stored; same = refl };
}

pub file : ContPath client stored head none (first_cont ∷ (second_cont ∷ []))
file = step head_Loaded (step next_Linked (last (inr refl)))
