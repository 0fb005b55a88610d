-- ===== src/Ramfs.antt =====
-- fs/ramfs/main.c: the file system in memory. A C string is the list of its bytes before the NUL.
-- A directory keeps the entries up to its count; the union of an inode is two fields, since the
-- type is tested before either is used and init_inode clears both. An inode number is an index
-- into the table; one out of range, undefined in C, reads as a free inode here, and the theorems
-- take the number in range where it matters. The uid, the gid and the times, which are always 0,
-- and the statistics are left out, and so are printing and the service loop, a self-test.
pub mod Contents
pub mod Names
mod Tests
use ocean_linux.Protocol.{Reply, error, e_inval, e_noent, e_ok, e_nomem, value, e_perm, e_exist}
use ocean_linux.Base.{
  ℕ, replicate, List, ◌^◌, ◌+◌, Bool, if◌then◌else◌, Option, get_or, set, ◌-◌, ltb, ◌==◌, not, ◌%◌,
  none, first_index, [], ◌∷◌, take, leb, true, some, length, ◌++◌, drop, bit_or, false, ◌&&◌,
}

pub record Dirent : Type 0 where
  pub inode : ℕ
  pub name : List ℕ

pub record Inode : Type 0 where
  pub type : ℕ
  pub mode : ℕ
  pub nlink : ℕ
  pub size : ℕ
  pub bytes : List ℕ
  pub entries : List Dirent

pub record Ramfs : Type 0 where
  pub inodes : List Inode
  pub num_inodes : ℕ

abbrev pub max_inodes : ℕ
max_inodes = 128

abbrev pub max_name : ℕ
max_name = 64

abbrev pub max_data_size : ℕ
max_data_size = 4096

abbrev pub max_dir_entries : ℕ
max_dir_entries = 32

abbrev pub inode_free : ℕ
inode_free = 0

abbrev pub inode_file : ℕ
inode_file = 1

abbrev pub inode_dir : ℕ
inode_dir = 2

abbrev pub word_mod : ℕ
word_mod = 2 ^ 64

abbrev pub s_ifdir : ℕ
s_ifdir = 16384

abbrev pub s_ifreg : ℕ
s_ifreg = 32768

abbrev pub zero_inode : Inode
zero_inode = record {
  type = inode_free;
  mode = 0;
  nlink = 0;
  size = 0;
  bytes = replicate max_data_size 0;
  entries = [];
}

abbrev pub inode_at : Ramfs → ℕ → Inode
inode_at fs ino = get_or fs.inodes ino zero_inode

abbrev pub set_inode : Ramfs → ℕ → Inode → Ramfs
set_inode fs ino inode = record fs { inodes = set fs.inodes ino inode }

abbrev pub is_free : Inode → Bool
is_free inode = inode.type == inode_free

-- The search begins at inode 1.
unfoldable pub alloc_inode : Ramfs → Option ℕ
alloc_inode fs = first_index is_free (drop 1 fs.inodes) 1

unfoldable pub init_inode : Ramfs → ℕ → ℕ → ℕ → Ramfs
init_inode fs ino type mode = record fs {
  inodes = set fs.inodes ino (record zero_inode { type = type; mode = mode; nlink = 1 });
  num_inodes = (fs.num_inodes + 1) % 2 ^ 32;
}

-- `strcmp(a, b) == 0`
unfoldable pub same_name : List ℕ → List ℕ → Bool
same_name [] [] = true
same_name [] (b ∷ bs) = false
same_name (a ∷ rest) [] = false
same_name (a ∷ rest) (b ∷ bs) = (a == b) && same_name rest bs

unfoldable pub find_entry : List Dirent → List ℕ → Option ℕ
unfolding same_name
find_entry [] name = none
find_entry (e ∷ es) name = if same_name e.name name then some e.inode else find_entry es name

unfoldable pub dir_lookup : Ramfs → ℕ → List ℕ → Option ℕ
unfolding find_entry
dir_lookup fs dir_ino name =
    if not ((inode_at fs dir_ino).type == inode_dir)
    then none
    else find_entry (inode_at fs dir_ino).entries name

-- strncpy copies 63 bytes at most; the last byte of the field stays NUL.
unfoldable pub dir_add_entry : Ramfs → ℕ → List ℕ → ℕ → Ramfs × ℕ
unfolding dir_lookup
dir_add_entry fs dir_ino name entry_ino =
    let dir = inode_at fs dir_ino in
    if not (dir.type == inode_dir)
    then (fs, e_inval)
    else if leb max_dir_entries (length dir.entries)
    then (fs, e_nomem)
    else elim (dir_lookup fs dir_ino name) [
      | some ino ↦ (fs, e_exist)
      | none ↦ (
        set_inode fs dir_ino (record dir {
          entries =
              dir.entries ++ (record { inode = entry_ino; name = take (max_name - 1) name } ∷ []);
        }),
        e_ok,
      )
    ]

-- The entries after the first of the name move down by one; nothing where there is none.
unfoldable pub remove_entry : List Dirent → List ℕ → Option (List Dirent)
unfolding same_name
remove_entry [] name = none
remove_entry (e ∷ es) name =
    let rest = remove_entry es name in
    if same_name e.name name
    then some es
    else elim rest [ none ↦ none | some left ↦ some (e ∷ left) ]

unfoldable pub dir_remove_entry : Ramfs → ℕ → List ℕ → Ramfs × ℕ
unfolding remove_entry
dir_remove_entry fs dir_ino name =
    let dir = inode_at fs dir_ino in
    if not (dir.type == inode_dir) then (fs, e_inval) else elim (remove_entry dir.entries name) [
      | none ↦ (fs, e_noent)
      | some left ↦ (set_inode fs dir_ino (record dir { entries = left }), e_ok)
    ]

abbrev pub dot : List ℕ
dot = 46 ∷ []

abbrev pub dot_dot : List ℕ
dot_dot = 46 ∷ 46 ∷ []

-- A new directory with its first two entries.
abbrev pub new_dir : Ramfs → ℕ → ℕ → ℕ → Ramfs
new_dir fs ino parent_ino mode =
    let made = init_inode fs ino inode_dir mode in
    let linked = set_inode made ino (record (inode_at made ino) { nlink = 2 }) in
    (dir_add_entry (dir_add_entry linked ino dot ino).0 ino dot_dot parent_ino).0

pub ramfs_init : Ramfs
unfolding dir_add_entry init_inode
ramfs_init = new_dir (record { inodes = replicate max_inodes zero_inode; num_inodes = 0 }) 1 1 493

unfoldable pub handle_lookup : Ramfs → ℕ → List ℕ → Reply
unfolding dir_lookup
handle_lookup fs dir_ino name = elim (dir_lookup fs dir_ino name) [
  | none ↦ error e_noent
  | some ino ↦ value ino
]

-- The inode that no entry names is free again.
abbrev pub drop_inode : Ramfs → ℕ → Ramfs
drop_inode fs ino = record fs {
  inodes = set fs.inodes ino (record (inode_at fs ino) { type = inode_free });
  num_inodes = (fs.num_inodes + 2 ^ 32 - 1) % 2 ^ 32;
}

unfoldable pub handle_create : Ramfs → ℕ → List ℕ → ℕ → Ramfs × Reply
unfolding alloc_inode init_inode dir_add_entry
handle_create fs dir_ino name mode = elim (alloc_inode fs) [
  | none ↦ (fs, error e_nomem)
  | some ino ↦
      let (added, err) = dir_add_entry (init_inode fs ino inode_file mode) dir_ino name ino in
      if not (err == e_ok) then (drop_inode added ino, error err) else (added, value ino)
]

unfoldable pub handle_mkdir : Ramfs → ℕ → List ℕ → ℕ → Ramfs × Reply
unfolding alloc_inode init_inode dir_add_entry
handle_mkdir fs parent_ino name mode = elim (alloc_inode fs) [
  | none ↦ (fs, error e_nomem)
  | some ino ↦
      let (added, err) = dir_add_entry (new_dir fs ino parent_ino mode) parent_ino name ino in
      let parent = inode_at added parent_ino in
      if not (err == e_ok) then (drop_inode added ino, error err) else (
        set_inode added parent_ino (record parent { nlink = (parent.nlink + 1) % 2 ^ 32 }),
        value ino,
      )
]

-- The bytes that the handler copies to the caller, or the error.
unfoldable pub handle_read : Ramfs → ℕ → ℕ → ℕ → Option (List ℕ)
handle_read fs ino offset count =
    let file = inode_at fs ino in
    let avail = file.size - offset in
    let to_read = (if ltb count avail then count else avail) in
    if not (file.type == inode_file)
    then none
    else if leb file.size offset
    then some []
    else some (take to_read (drop offset file.bytes))

-- memcpy of the bytes to `offset`
abbrev pub write_bytes : List ℕ → ℕ → List ℕ → List ℕ
write_bytes old offset new = take offset old ++ (new ++ drop (offset + length new) old)

-- The number of bytes that are copied, which wraps around where the offset is above the limit.
unfoldable pub write_count : ℕ → ℕ → ℕ
write_count offset count =
    if ltb max_data_size ((offset + count) % word_mod)
    then (max_data_size + word_mod - offset) % word_mod
    else count

abbrev pub written : Inode → ℕ → List ℕ → Inode
written file offset new = record file {
  bytes = write_bytes file.bytes offset new;
  size = if ltb file.size (offset + length new) then offset + length new else file.size;
}

-- None where memcpy writes past the data of the inode.
unfoldable pub handle_write : Ramfs → ℕ → ℕ → List ℕ → Option (Ramfs × Reply)
unfolding write_count
handle_write fs ino offset buf =
    let file = inode_at fs ino in
    let count = write_count offset (length buf) in
    if not (file.type == inode_file)
    then some (fs, error e_inval)
    else if ltb max_data_size (offset + count)
    then none
    else some (set_inode fs ino (written file offset (take count buf)), value count)

pub record Stat : Type 0 where
  pub mode : ℕ
  pub size : ℕ
  pub nlink : ℕ

unfoldable pub handle_stat : Ramfs → ℕ → Option Stat
handle_stat fs ino =
    let inode = inode_at fs ino in
    if inode.type == inode_free
    then none
    else some (record {
      mode = bit_or inode.mode (if inode.type == inode_dir then s_ifdir else s_ifreg);
      size = inode.size;
      nlink = inode.nlink;
    })

abbrev pub unlinked : Ramfs → ℕ → Ramfs
unlinked fs ino =
    let inode = inode_at fs ino in
    let nlink = (inode.nlink + 2 ^ 32 - 1) % 2 ^ 32 in
    if nlink == 0
    then record fs {
      inodes = set fs.inodes ino (record inode { nlink = nlink; type = inode_free });
      num_inodes = (fs.num_inodes + 2 ^ 32 - 1) % 2 ^ 32;
    }
    else set_inode fs ino (record inode { nlink = nlink })

unfoldable pub handle_unlink : Ramfs → ℕ → List ℕ → Ramfs × ℕ
unfolding dir_lookup dir_remove_entry
handle_unlink fs dir_ino name = elim (dir_lookup fs dir_ino name) [
  | none ↦ (fs, e_noent)
  | some ino ↦
      if (inode_at fs ino).type == inode_dir
      then (fs, e_perm)
      else dir_remove_entry (unlinked fs ino) dir_ino name
]
