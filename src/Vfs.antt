-- ===== src/Vfs.antt =====
-- servers/vfs/main.c: the server of the file namespace, with its mount table and its table of open
-- files. A C string is the list of its bytes before the NUL. An int argument is given as its 32
-- bits and an int64_t as its 64 bits, so that adding it wraps around as in C. The printing and
-- the service loop, which is a self-test, are left out; the endpoint comes from the kernel. The two
-- int counters are natural numbers: on valid tables they stay between 0 and the tables' sizes.
pub mod Mounts
mod Tests
pub mod Files
pub mod Isolation
pub mod Effects
pub mod Requests
use ocean_linux.Protocol.{
  Reply, error, negative, e_noent, e_nomem, e_inval, value, e_perm, e_exist, e_ok,
}
use ocean_linux.Base.{
  ℕ, ◌+◌, get_or, if◌then◌else◌, replicate, ◌^◌, set, Bool, List, Option, [], take, ◌%◌, ◌∷◌, leb,
  first_index, none, ◌-◌, ◌&&◌, ◌==◌, true, ltb, not, false, length, some, ◌||◌, suc, bit_and,
}

pub record MountEntry : Type 0 where
  pub path : List ℕ
  pub fs_endpoint : ℕ
  pub root_inode : ℕ
  pub flags : ℕ

pub record OpenFile : Type 0 where
  pub owner_pid : ℕ
  pub mount_idx : ℕ
  pub inode : ℕ
  pub offset : ℕ
  pub flags : ℕ
  pub refcount : ℕ

-- The static variables.
pub record Vfs : Type 0 where
  pub mounts : List MountEntry
  pub files : List OpenFile
  pub num_mounts : ℕ
  pub num_open_files : ℕ
  pub open_count : ℕ
  pub read_count : ℕ
  pub write_count : ℕ
  pub close_count : ℕ

abbrev pub max_mounts : ℕ
max_mounts = 16

abbrev pub max_open_files : ℕ
max_open_files = 128

abbrev pub max_path : ℕ
max_path = 256

abbrev pub o_wronly : ℕ
o_wronly = 1

abbrev pub o_rdwr : ℕ
o_rdwr = 2

abbrev pub slash : ℕ
slash = 47

abbrev pub empty_mount : MountEntry
empty_mount = record { path = []; fs_endpoint = 0; root_inode = 0; flags = 0 }

abbrev pub empty_file : OpenFile
empty_file = record { owner_pid = 0; mount_idx = 0; inode = 0; offset = 0; flags = 0; refcount = 0 }

-- The tables after the two calls of memset, with the counters at their initial values.
pub vfs_init : Vfs
vfs_init = record {
  mounts = replicate max_mounts empty_mount;
  files = replicate max_open_files empty_file;
  num_mounts = 0;
  num_open_files = 0;
  open_count = 0;
  read_count = 0;
  write_count = 0;
  close_count = 0;
}

-- `strncmp(path, mount, strlen(mount)) == 0`
unfoldable pub starts_with : List ℕ → List ℕ → Bool
starts_with path [] = true
starts_with [] (m ∷ ms) = false
starts_with (c ∷ cs) (m ∷ ms) = (c == m) && starts_with cs ms

-- The byte after the mount path ends the path or a component of it.
unfoldable pub mount_matches : List ℕ → List ℕ → Bool
unfolding starts_with
mount_matches path mount =
    starts_with path mount
    && ((get_or path (length mount) 0 == 0) || (get_or path (length mount) 0 == slash))

-- The loop of find_mount from entry `i` on, with best_match and best_len.
unfoldable pub find_mount_from : List MountEntry → List ℕ → ℕ → Option ℕ → ℕ → Option ℕ
unfolding mount_matches
find_mount_from [] path i best_match best_len = best_match
find_mount_from (m ∷ ms) path i best_match best_len =
    let better =
      not (m.fs_endpoint == 0) && mount_matches path m.path && ltb best_len (length m.path) in
    find_mount_from ms path (suc i) (if better then some i else best_match)
      (if better then length m.path else best_len)

unfoldable pub find_mount : Vfs → List ℕ → Option ℕ
find_mount vfs path = find_mount_from vfs.mounts path 0 none 0

abbrev pub mount_is_free : MountEntry → Bool
mount_is_free m = m.fs_endpoint == 0

abbrev pub file_is_free : OpenFile → Bool
file_is_free f = f.refcount == 0

unfoldable pub alloc_file : Vfs → Option ℕ
alloc_file vfs = first_index file_is_free vfs.files 0

-- The last bytes of the entry's path stay NUL, since a free entry is all zero.
unfoldable pub add_mount : Vfs → ℕ → List ℕ → ℕ → ℕ → Vfs
add_mount vfs slot target fs_endpoint flags = record vfs {
  mounts = set vfs.mounts slot (record {
    path = take (max_path - 1) target;
    fs_endpoint = fs_endpoint;
    root_inode = 1;
    flags = flags;
  });
  num_mounts = vfs.num_mounts + 1;
}

unfoldable pub handle_mount : Vfs → List ℕ → ℕ → ℕ → Vfs × ℕ
unfolding find_mount add_mount
handle_mount vfs target fs_endpoint flags =
    if leb max_mounts vfs.num_mounts
    then (vfs, e_nomem)
    else elim (first_index mount_is_free vfs.mounts 0) [
      | none ↦ (vfs, e_nomem)
      | some slot ↦ elim (find_mount vfs target) [
        | some m ↦ (vfs, e_exist)
        | none ↦ (add_mount vfs slot target fs_endpoint flags, e_ok)
      ]
    ]

abbrev pub file_at : Vfs → ℕ → OpenFile
file_at vfs fd = get_or vfs.files fd empty_file

abbrev pub word_mod : ℕ
word_mod = 2 ^ 64

unfoldable pub open_file : Vfs → ℕ → ℕ → ℕ → ℕ → Vfs
open_file vfs fd pid mount_idx flags = record vfs {
  files = set vfs.files fd (record {
    owner_pid = pid;
    mount_idx = mount_idx;
    inode = 42;
    offset = 0;
    flags = flags;
    refcount = 1;
  });
  num_open_files = vfs.num_open_files + 1;
}

unfoldable pub handle_open : Vfs → ℕ → List ℕ → ℕ → Vfs × Reply
unfolding find_mount alloc_file open_file
handle_open old pid path flags =
    let vfs = record old { open_count = (old.open_count + 1) % word_mod } in
    elim (find_mount vfs path) [
      | none ↦ (vfs, error e_noent)
      | some mount_idx ↦ elim (alloc_file vfs) [
        | none ↦ (vfs, error e_nomem)
        | some fd ↦ (open_file vfs fd pid mount_idx flags, value fd)
      ]
    ]

-- `fd < 0 || fd >= MAX_OPEN_FILES`
abbrev pub bad_fd : ℕ → Bool
bad_fd fd = negative fd || leb max_open_files fd

-- The reference is dropped; the entry is cleared with the last one.
unfoldable pub release : Vfs → ℕ → Vfs
release vfs fd =
    let f = file_at vfs fd in
    if f.refcount - 1 == 0
    then record vfs { files = set vfs.files fd empty_file; num_open_files = vfs.num_open_files - 1 }
    else record vfs { files = set vfs.files fd (record f { refcount = f.refcount - 1 }) }

unfoldable pub handle_close : Vfs → ℕ → ℕ → Vfs × ℕ
unfolding release
handle_close old pid fd =
    let vfs = record old { close_count = (old.close_count + 1) % word_mod } in
    if bad_fd fd
    then (vfs, e_inval)
    else if (file_at vfs fd).refcount == 0
    then (vfs, e_inval)
    else if not ((file_at vfs fd).owner_pid == pid)
    then (vfs, e_perm)
    else (release vfs fd, e_ok)

abbrev pub seek_to : Vfs → ℕ → ℕ → Vfs
seek_to vfs fd pos = record vfs {
  files = set vfs.files fd (record (file_at vfs fd) { offset = pos });
}

-- The number of bytes read, of which the source fakes one.
unfoldable pub handle_read : Vfs → ℕ → ℕ → ℕ → Vfs × Reply
handle_read old pid fd count =
    let vfs = record old { read_count = (old.read_count + 1) % word_mod } in
    let bytes_read = (if ltb 0 count then 1 else 0) in
    if bad_fd fd
    then (vfs, error e_inval)
    else if (file_at vfs fd).refcount == 0 || not ((file_at vfs fd).owner_pid == pid)
    then (vfs, error e_inval)
    else (seek_to vfs fd (((file_at vfs fd).offset + bytes_read) % word_mod), value bytes_read)

unfoldable pub handle_write : Vfs → ℕ → ℕ → ℕ → Vfs × Reply
handle_write old pid fd count =
    let vfs = record old { write_count = (old.write_count + 1) % word_mod } in
    let flags = (file_at vfs fd).flags in
    if bad_fd fd
    then (vfs, error e_inval)
    else if (file_at vfs fd).refcount == 0 || not ((file_at vfs fd).owner_pid == pid)
    then (vfs, error e_inval)
    else if (bit_and flags o_wronly == 0) && (bit_and flags o_rdwr == 0)
    then (vfs, error e_perm)
    else (seek_to vfs fd (((file_at vfs fd).offset + count) % word_mod), value count)

-- The new position, or nothing for an origin that is none of the three.
unfoldable pub seek_position : ℕ → ℕ → ℕ → Option ℕ
seek_position current offset whence =
    if whence == 0
    then some offset
    else if whence == 1
    then some ((current + offset) % word_mod)
    else if whence == 2
    then some ((1024 + offset) % word_mod)
    else none

unfoldable pub handle_lseek : Vfs → ℕ → ℕ → ℕ → ℕ → Vfs × Reply
unfolding seek_position
handle_lseek vfs pid fd offset whence =
    if bad_fd fd
    then (vfs, error e_inval)
    else if (file_at vfs fd).refcount == 0 || not ((file_at vfs fd).owner_pid == pid)
    then (vfs, error e_inval)
    else elim (seek_position (file_at vfs fd).offset offset whence) [
      | none ↦ (vfs, error e_inval)
      | some new_pos ↦ (seek_to vfs fd new_pos, value new_pos)
    ]
