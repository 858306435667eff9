-- ===== src/Tests/Removals.antt =====
-- The removal of a file from a directory of two continuations.
use chunkfs.Base.{refl, none, [], ◌∷◌, arith}
use chunkfs.Cont.{World, set_cont_data}
use chunkfs.Cont.Attributes.{set_cont_data_ok, set_cont_data-HasData}
use chunkfs.Create.Restart.{initial_data}
use chunkfs.File.Sizes.{InodePath, over, onward}
use chunkfs.Names.{Node, file_iops, file_fops, fresh}
use chunkfs.Names.Making.{behind_op}
use chunkfs.Names.Removing.{unlinking, Removes, removal, client_removal, removal-Removes}
use chunkfs.Tests.Clients.{head, stored, world}
use chunkfs.Tests.Store.{Store, client, laws, settable}
use chunkfs.Tests.Entries.{dirs, dir_inodes}

-- Inode 9 has the data of a new file.
abbrev made : World Store
made = (set_cont_data client 9 initial_data (behind_op stored world)).1

abbrev node : Node
node = record {
  head = record { i_ino = 9; client_dentry = 9; client_inode = 9 };
  shown = fresh;
  i_op = file_iops;
  i_fop = file_fops;
}

own_inodes : InodePath client made.fs node.head none (9 ∷ [])
own_inodes =
    let v = behind_op stored world in
    onward (refl, refl)
      (over initial_data
        (set_cont_data-HasData client laws 9 initial_data v
          (set_cont_data_ok client 9 initial_data v settable)
          (record {
            next = omega arith;
            prev = omega arith;
            start = omega arith;
            len = omega arith;
          }))
        refl)

removal-Removes_example :
    Removes client dirs 3 head fresh node 9 unlinking
      (5 ∷ (6 ∷ []))
      (9 ∷ [])
      (client_removal client dirs unlinking made.fs head.client_inode 9)
      (removal client dirs unlinking 3 head fresh node 9 made)
removal-Removes_example =
    removal-Removes client dirs 3 head fresh node 9 unlinking made (5 ∷ (6 ∷ [])) (9 ∷ [])
      dir_inodes own_inodes (omega arith) (omega arith)
