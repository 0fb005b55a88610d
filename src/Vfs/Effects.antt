-- ===== src/Vfs/Effects.antt =====
-- What each handler does to the table of open files.
use ocean_linux.Vfs.Requests.{
  IsValid, Effect, in_use, touched, untouched, step, Request, mount, open_path, close, read, write,
  lseek,
}
use ocean_linux.Vfs.{
  handle_mount, release, Vfs, handle_open, alloc_file, add_mount, bad_fd, open_file, find_mount,
  file_at, max_open_files, max_mounts, seek_to, file_is_free, mount_is_free, empty_file,
  handle_close, handle_read, handle_lseek, handle_write, seek_position, o_wronly, o_rdwr, word_mod,
}
use ocean_linux.Base.{
  ℕ, List, ◌≡◌, Bool-cases, false, Option-cases, some, leb, ◌<◌, inl, true, subst, ◌-◌, ◌==◌, inr,
  FirstOf, arith, first_index, count_if-set, refl, length-set, first_index-FirstOf, ap, not, Bool,
  ◌||◌, bit_and, ◌&&◌, ◌+◌, ◌%◌,
}

handle_mount-Effect :
    (vfs : Vfs) (target : List ℕ) (fs_endpoint flags sender : ℕ)
    → Effect vfs (handle_mount vfs target fs_endpoint flags).0 sender
unfolding handle_mount add_mount
handle_mount-Effect vfs target fs_endpoint flags sender =
    elim (Bool-cases (leb max_mounts vfs.num_mounts)) [
      | inl full ↦ rw (full, handle_mount) (untouched refl refl refl)
      | inr room ↦
          rw (room, handle_mount)
            (elim (Option-cases (first_index mount_is_free vfs.mounts 0)) [
              | inl e ↦ rw (e, handle_mount) (untouched refl refl refl)
              | inr (slot, e) ↦
                  rw (e, handle_mount)
                    (elim (Option-cases (find_mount vfs target)) [
                      | inl g ↦
                          rw (g, handle_mount) (untouched refl (length-set vfs.mounts slot _) refl)
                      | inr (m, g) ↦ rw (g, handle_mount) (untouched refl refl refl)
                    ])
            ])
    ]

-- The entry that alloc_file finds is free.
pub alloc_file_free :
    {vfs : Vfs}
    → IsValid vfs
    → {fd : ℕ} → alloc_file vfs ≡ some fd
    → (fd < max_open_files) × (in_use (file_at vfs fd) ≡ false)
unfolding alloc_file
alloc_file_free {vfs} v {fd} e =
    let f =
      subst (FirstOf file_is_free vfs.files empty_file 0) e
        (first_index-FirstOf file_is_free vfs.files empty_file 0) in
    let same : f.0 ≡ fd = omega (arith, f.1) in
    (omega (arith, f.2, v.sized), subst (λ n. in_use (file_at vfs n) ≡ false) same (ap not f.3))

handle_open-Effect :
    {vfs : Vfs}
    → IsValid vfs
    → (pid : ℕ) (path : List ℕ) (flags : ℕ) → Effect vfs (handle_open vfs pid path flags).0 pid
unfolding handle_open open_file
handle_open-Effect {vfs} v pid path flags = elim (Option-cases (find_mount vfs path)) [
  | inl e ↦ rw (e, handle_open) (untouched refl refl refl)
  | inr (m, e) ↦
      rw (e, handle_open)
        (elim (Option-cases (alloc_file vfs)) [
          | inl g ↦ rw (g, handle_open) (untouched refl refl refl)
          | inr (fd, g) ↦
              let free = alloc_file_free v g in
              rw (g, handle_open)
                (touched fd _
                  (record {
                    inside = free.0;
                    stored = refl;
                    mounts_same = refl;
                    count_same = ground (arith, free.1);
                  })
                  (inl free.1))
        ])
]

seek_to-Effect :
    (vfs : Vfs) (pid fd pos : ℕ)
    → bad_fd fd ≡ false
    → (file_at vfs fd).owner_pid ≡ pid
    → Effect vfs (seek_to vfs fd pos) pid
seek_to-Effect vfs pid fd pos good owner =
    touched fd _
      (record { inside = ground arith; stored = refl; mounts_same = refl; count_same = refl })
      (inr owner)

release-Effect :
    {vfs : Vfs} (pid fd : ℕ)
    → IsValid vfs
    → bad_fd fd ≡ false
    → in_use (file_at vfs fd) ≡ true
    → (file_at vfs fd).owner_pid ≡ pid
    → Effect vfs (release vfs fd) pid
unfolding release
release-Effect {vfs} pid fd v good used owner =
    elim (Bool-cases ((file_at vfs fd).refcount - 1 == 0)) [
      | inl last ↦
          rw (last, release)
            (touched fd _
              (record {
                inside = ground arith;
                stored = refl;
                mounts_same = refl;
                count_same = ground (
                  arith,
                  v.counted,
                  v.sized,
                  count_if-set in_use vfs.files fd empty_file empty_file,
                );
              })
              (inr owner))
      | inr more ↦
          rw (more, release)
            (touched fd _
              (record {
                inside = ground arith;
                stored = refl;
                mounts_same = refl;
                count_same = ground arith;
              })
              (inr owner))
    ]

-- The statistics do not matter.
abbrev counted_vfs : Vfs → ℕ → ℕ → ℕ → Vfs
counted_vfs vfs reads writes closes = record vfs {
  read_count = reads;
  write_count = writes;
  close_count = closes;
}

module _ (vfs : Vfs) (reads writes closes : ℕ) where
  counted-Effect :
      {after : Vfs} {sender : ℕ}
      → Effect (counted_vfs vfs reads writes closes) after sender
      → Effect vfs after sender
  counted-Effect (untouched fs ms ns) = untouched fs ms ns
  counted-Effect (touched fd f t who) =
      touched fd f
        (record {
          inside = t.inside;
          stored = t.stored;
          mounts_same = t.mounts_same;
          count_same = t.count_same;
        })
        who

handle_close-Effect :
    {vfs : Vfs} → IsValid vfs → (pid fd : ℕ) → Effect vfs (handle_close vfs pid fd).0 pid
unfolding handle_close
handle_close-Effect {vfs} v pid fd = elim (Bool-cases (bad_fd fd)) [
  | inl bad ↦ rw (bad, handle_close) (untouched refl refl refl)
  | inr good ↦
      rw (good, handle_close)
        (elim (Bool-cases ((file_at vfs fd).refcount == 0)) [
          | inl unused ↦ rw (unused, handle_close) (untouched refl refl refl)
          | inr used ↦
              rw (used, handle_close)
                (elim (Bool-cases ((file_at vfs fd).owner_pid == pid)) [
                  | inr other ↦ rw (other, handle_close) (untouched refl refl refl)
                  | inl own ↦
                      rw (own, handle_close)
                        (counted-Effect vfs vfs.read_count vfs.write_count
                          ((vfs.close_count + 1) % word_mod)
                          (release-Effect pid fd
                            (record {
                              sized = v.sized;
                              mounts_sized = v.mounts_sized;
                              counted = v.counted;
                            })
                            good (ground arith) (ground arith)))
                ])
        ])
]

-- A test that the three handlers of an open file share.
abbrev refused : Vfs → ℕ → ℕ → Bool
refused vfs pid fd = (file_at vfs fd).refcount == 0 || not ((file_at vfs fd).owner_pid == pid)

not_refused-owner :
    (vfs : Vfs) (pid fd : ℕ) → refused vfs pid fd ≡ false → (file_at vfs fd).owner_pid ≡ pid
not_refused-owner vfs pid fd h = ground arith

handle_read-Effect :
    (vfs : Vfs) (pid fd count : ℕ) → Effect vfs (handle_read vfs pid fd count).0 pid
unfolding handle_read
handle_read-Effect vfs pid fd count = elim (Bool-cases (bad_fd fd)) [
  | inl bad ↦ rw (bad, handle_read) (untouched refl refl refl)
  | inr good ↦
      rw (good, handle_read)
        (elim (Bool-cases (refused vfs pid fd)) [
          | inl no_file ↦ rw (no_file, handle_read) (untouched refl refl refl)
          | inr held ↦
              rw (held, handle_read)
                (counted-Effect vfs ((vfs.read_count + 1) % word_mod) vfs.write_count
                  vfs.close_count
                  (seek_to-Effect
                    (counted_vfs vfs ((vfs.read_count + 1) % word_mod) vfs.write_count
                      vfs.close_count)
                    pid fd _ good (not_refused-owner vfs pid fd held)))
        ])
]

handle_write-Effect :
    (vfs : Vfs) (pid fd count : ℕ) → Effect vfs (handle_write vfs pid fd count).0 pid
unfolding handle_write
handle_write-Effect vfs pid fd count = elim (Bool-cases (bad_fd fd)) [
  | inl bad ↦ rw (bad, handle_write) (untouched refl refl refl)
  | inr good ↦
      rw (good, handle_write)
        (elim (Bool-cases (refused vfs pid fd)) [
          | inl no_file ↦ rw (no_file, handle_write) (untouched refl refl refl)
          | inr held ↦
              rw (held, handle_write)
                (elim (Bool-cases (read_only vfs fd)) [
                  | inl denied ↦ rw (denied, handle_write) (untouched refl refl refl)
                  | inr granted ↦
                      rw (granted, handle_write)
                        (counted-Effect vfs vfs.read_count ((vfs.write_count + 1) % word_mod)
                          vfs.close_count
                          (seek_to-Effect
                            (counted_vfs vfs vfs.read_count ((vfs.write_count + 1) % word_mod)
                              vfs.close_count)
                            pid fd _ good (not_refused-owner vfs pid fd held)))
                ])
        ])
]
  where
    read_only : Vfs → ℕ → Bool
    read_only w n =
        (bit_and (file_at w n).flags o_wronly == 0) && (bit_and (file_at w n).flags o_rdwr == 0)

handle_lseek-Effect :
    (vfs : Vfs) (pid fd offset whence : ℕ)
    → Effect vfs (handle_lseek vfs pid fd offset whence).0 pid
unfolding handle_lseek
handle_lseek-Effect vfs pid fd offset whence = elim (Bool-cases (bad_fd fd)) [
  | inl bad ↦ rw (bad, handle_lseek) (untouched refl refl refl)
  | inr good ↦
      rw (good, handle_lseek)
        (elim (Bool-cases (refused vfs pid fd)) [
          | inl no_file ↦ rw (no_file, handle_lseek) (untouched refl refl refl)
          | inr held ↦
              rw (held, handle_lseek)
                (elim (Option-cases (seek_position (file_at vfs fd).offset offset whence)) [
                  | inl e ↦ rw (e, handle_lseek) (untouched refl refl refl)
                  | inr (pos, e) ↦
                      rw (e, handle_lseek)
                        (seek_to-Effect vfs pid fd pos good (not_refused-owner vfs pid fd held))
                ])
        ])
]

-- The process that sends a request, or `server` for the server itself.
abbrev pub sender_or : ℕ → Request → ℕ
sender_or server (mount target fs_endpoint flags) = server
sender_or server (open_path pid path flags) = pid
sender_or server (close pid fd) = pid
sender_or server (read pid fd count) = pid
sender_or server (write pid fd count) = pid
sender_or server (lseek pid fd offset whence) = pid

pub step-Effect :
    {vfs : Vfs}
    → IsValid vfs
    → (server : ℕ) (r : Request) → Effect vfs (step vfs r) (sender_or server r)
unfolding step
step-Effect v server (mount target fs_endpoint flags) =
    handle_mount-Effect _ target fs_endpoint flags server
step-Effect v server (open_path pid path flags) = handle_open-Effect v pid path flags
step-Effect v server (close pid fd) = handle_close-Effect v pid fd
step-Effect v server (read pid fd count) = handle_read-Effect _ pid fd count
step-Effect v server (write pid fd count) = handle_write-Effect _ pid fd count
step-Effect v server (lseek pid fd offset whence) = handle_lseek-Effect _ pid fd offset whence
