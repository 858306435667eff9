-- ===== src/Tests/Entries.antt =====
-- A new entry in a directory of two continuations, and a bad inode.
use chunkfs.Base.{◌%◌, ◌^◌, ◌≡◌, refl, none, some, true, false, [], ◌∷◌, arith}
use chunkfs.Uino.{uino_to_chunk_id, uino_to_ino, make_uino}
use chunkfs.Kernel.{ok}
use chunkfs.Mount.{find_chunk, find_in_devs, find_in_chunks}
use chunkfs.Client.{success}
use chunkfs.Cont.{Continuation, World, set_cont_data}
use chunkfs.Cont.Attributes.{set_cont_data_ok, set_cont_data-HasData_other}
use chunkfs.Walk.Path.{ContPath}
use chunkfs.Create.Restart.{initial_data}
use chunkfs.File.{OpenFile}
use chunkfs.File.Sizes.{InodePath, over, onward, sizes_from}
use chunkfs.Names.{Dirs, Node, regular, fresh, make_node}
use chunkfs.Names.Making.{Entry, behind_op, make_node-ContPath}
use chunkfs.Tests.Clients.{
  head, first_data, second_data, stored, world, first_stored, second_stored,
}
use chunkfs.Tests.Store.{Store, client, chunk, laws, settable}

abbrev pub dirs : Dirs client
dirs = record {
  new_inode = λ n. some false;
  kind = λ s i. regular;
  create = λ s i d mode. (success, s);
  mknod = λ s i d mode dev. (success, s);
  mkdir = λ s i d mode. (success, s);
  symlink_to = λ s i d oldname. (success, s);
  link = λ s old i d. (success, s);
  unlink = λ s i d. (success, s);
  rmdir = λ s i d. (success, s);
}

-- The directory's continuations as they are after inode 9 was given its data.
pub dir_inodes :
    InodePath client
      (set_cont_data client 9 initial_data (behind_op stored world)).1.fs
      head
      none
      (5 ∷ (6 ∷ []))
unfolding find_chunk find_in_devs find_in_chunks uino_to_chunk_id uino_to_ino
dir_inodes =
    let v = behind_op stored world in
    let done = set_cont_data_ok client 9 initial_data v settable in
    onward (refl, refl)
      (onward
        (record {
          cd = first_data;
          attributes =
              set_cont_data-HasData_other client laws 9 5 initial_data first_data v done
                (omega arith) first_stored;
          more = omega arith;
          chunk = chunk 2;
          found = refl;
          gets = (refl, refl);
        })
        (over second_data
          (set_cont_data-HasData_other client laws 9 6 initial_data second_data v done (omega arith)
            second_stored)
          refl))

pub entry : Entry client head stored 9 (5 ∷ (6 ∷ [])) (behind_op stored world)
unfolding find_chunk find_in_devs find_in_chunks uino_to_chunk_id
entry = record {
  chunk = chunk 1;
  found = refl;
  ino = omega arith;
  gets = (refl, refl);
  inodes = dir_inodes;
}

make_node-ContPath_example :
    (node : Node) × (shown' : OpenFile) × (w' : World Store) × (n : Continuation) × (make_node
        client dirs 3 head fresh 9
        (λ s. dirs.mknod s 5 9 420 7)
        world
      ≡ (ok (node, shown'), w'))
    × ContPath client w'.fs node.head none (n ∷ [])
    × (n.co_cd ≡ initial_data)
    × (node.head.i_ino ≡ make_uino (uino_to_chunk_id head.i_ino) 9)
    × (node.shown.i_size ≡ client.i_size w'.fs 9 % 2 ^ 64)
    × (shown'.i_size ≡ sizes_from client w'.fs 0 (5 ∷ (6 ∷ [])))
    × (w'.inodes ≡ 1)
make_node-ContPath_example =
    make_node-ContPath client dirs 3 head fresh 9 (λ s. dirs.mknod s 5 9 420 7) stored world
      (5 ∷ (6 ∷ [])) laws settable refl refl entry (omega arith) (omega arith)

-- `new_inode` gives bad inodes.
abbrev bad_dirs : Dirs client
bad_dirs = record dirs { new_inode = λ n. some true }
