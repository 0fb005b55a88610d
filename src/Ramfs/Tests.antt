-- ===== src/Ramfs/Tests.antt =====
-- Runs of the file system on a table of four inodes, of which inode 2 is a file of three bytes.
use ocean_linux.Ramfs.Names.{Ready, handle_lookup-handle_create}
use ocean_linux.Ramfs.Contents.{handle_read-handle_write, handle_write-none_iff}
use ocean_linux.Protocol.{value, error, e_noent}
use ocean_linux.Ramfs.{
  Ramfs, zero_inode, Inode, handle_write, inode_file, handle_read, inode_at, max_data_size,
  inode_dir, handle_create, dir_lookup, find_entry, handle_lookup, alloc_inode, max_name, word_mod,
}
use ocean_linux.Base.{
  ℕ, ◌∷◌, [], ◌≡◌, some, none, ◌↔◌, arith, ◌<◌, length-replicate, refl, if◌then◌else◌, ltb,
  first_index, ◌⊎◌, ◌≤◌, ◌+◌,
}

abbrev small_file : Inode
small_file = record zero_inode { type = inode_file; nlink = 1 }

abbrev small_fs : Ramfs
small_fs = record {
  inodes = zero_inode ∷ zero_inode ∷ small_file ∷ zero_inode ∷ [];
  num_inodes = 1;
}

handle_read-handle_write_example :
    (after : Ramfs) × (handle_write small_fs 2 10 (72 ∷ 105 ∷ []) ≡ some (after, value 2))
    × (handle_read after 2 10 2 ≡ some (72 ∷ 105 ∷ []))
handle_read-handle_write_example =
    handle_read-handle_write small_fs 2 10 (72 ∷ 105 ∷ []) (omega arith) refl
      (length-replicate {A = ℕ} max_data_size 0) (omega arith)

handle_write-none_iff_example :
    (handle_write small_fs 2 5000 (1 ∷ []) ≡ none)
    ↔ (((inode_at small_fs 2).type ≡ inode_file) × ((max_data_size < 5000) ⊎ (word_mod ≤ 5000 + 1)))
handle_write-none_iff_example =
    handle_write-none_iff small_fs 2 5000 (1 ∷ []) (omega arith) (omega arith)

abbrev small_dir : Inode
small_dir = record zero_inode { type = inode_dir; nlink = 2 }

abbrev dir_fs : Ramfs
dir_fs = record { inodes = zero_inode ∷ small_dir ∷ zero_inode ∷ []; num_inodes = 1 }

dir_fs-Ready : Ready dir_fs 1 (97 ∷ []) 2
unfolding dir_lookup find_entry alloc_inode first_index
dir_fs-Ready = record {
  inside = omega arith;
  is_dir = refl;
  room = omega arith;
  absent = refl;
  fresh = refl;
  other = λ e. absurd (omega (arith, e));
  ino_inside = omega arith;
}

handle_lookup-handle_create_example :
    ((handle_create dir_fs 1 (97 ∷ []) 420).1 ≡ value 2)
    × (handle_lookup (handle_create dir_fs 1 (97 ∷ []) 420).0 1 (97 ∷ [])
        ≡ (if ltb 1 max_name then value 2 else error e_noent))
handle_lookup-handle_create_example = handle_lookup-handle_create {fs = dir_fs} 420 dir_fs-Ready
