-- ===== src/Vmm/User.antt =====
-- kernel/mm/uaccess.c: the checks of user pointers and the copies from and to user memory. The
-- address space is that of the current process, if it has one; `load` is the byte that an address
-- of user memory holds. A copy gives the bytes that are stored behind the destination.
use ocean_linux.Vmm.{
  AddressSpace, has_flag, VmArea, vma_read, vma_write, word_mod, vmm_find_vma, user_space_end,
  vma_exec,
}
use ocean_linux.Base.{
  ℕ, Option, Bool, List, [], not, suc, if◌then◌else◌, ◌+◌, ◌==◌, false, ◌∷◌, zero, ◌||◌, ltb, true,
  ◌%◌, ◌&&◌, set, ◌-◌, none, some, length, leb,
}

-- The negated error numbers, and the results that are not negative.
pub data Outcome : Type 0 where
  efault einval enametoolong : Outcome
  done : ℕ → Outcome

-- The three tests of required_vma_flags against the flags of an area.
unfoldable pub allows : ℕ → ℕ → Bool
allows required flags =
    (not (has_flag required vma_read) || has_flag flags vma_read)
    && ((not (has_flag required vma_write) || has_flag flags vma_write)
        && (not (has_flag required vma_exec) || has_flag flags vma_exec))

-- The loop over the areas from `cursor` on. Each round goes on behind one more area, so one round
-- more than there are areas is enough.
unfoldable pub check_from : List VmArea → ℕ → ℕ → ℕ → ℕ → Bool
unfolding allows
check_from vmas required end zero cursor = false
check_from vmas required end (suc n) cursor =
    if not (ltb cursor end) then true else elim (vmm_find_vma vmas cursor) [
      | none ↦ false
      | some vma ↦
          let rest = check_from vmas required end n vma.end in
          if ltb cursor vma.start
          then false
          else if not (allows required vma.flags)
          then false
          else if leb vma.end cursor
          then false
          else if leb end vma.end
          then true
          else rest
    ]

unfoldable pub validate_user_range : Option AddressSpace → ℕ → ℕ → ℕ → Bool
unfolding check_from
validate_user_range mm ptr len required =
    if ptr == 0
    then false
    else if len == 0
    then true
    else if ltb user_space_end ptr
    then false
    else if ltb (user_space_end - ptr) (len - 1)
    then false
    else elim mm [
      | none ↦ false
      | some space ↦
          check_from space.vmas required ((ptr + len) % word_mod) (suc (length space.vmas)) ptr
    ]

-- The bytes of a range.
unfoldable pub load_bytes : (ℕ → ℕ) → ℕ → ℕ → List ℕ
load_bytes load addr zero = []
load_bytes load addr (suc n) = load addr ∷ load_bytes load (addr + 1) n

unfoldable pub copy_from_user : Option AddressSpace → (ℕ → ℕ) → ℕ → ℕ → ℕ → Outcome × List ℕ
unfolding validate_user_range load_bytes
copy_from_user mm load dst src len =
    if dst == 0
    then (einval, [])
    else if len == 0
    then (done 0, [])
    else if not (validate_user_range mm src len vma_read)
    then (efault, [])
    else (done 0, load_bytes load src len)

-- `load` is kernel memory here.
unfoldable pub copy_to_user : Option AddressSpace → (ℕ → ℕ) → ℕ → ℕ → ℕ → Outcome × List ℕ
unfolding validate_user_range load_bytes
copy_to_user mm load dst src len =
    if src == 0
    then (einval, [])
    else if len == 0
    then (done 0, [])
    else if not (validate_user_range mm dst len vma_write)
    then (efault, [])
    else (done 0, load_bytes load src len)

-- The loop of copy_string_from_user, with the rounds left; `i` bytes are copied.
unfoldable pub copy_string_loop : Option AddressSpace → (ℕ → ℕ) → ℕ → ℕ → ℕ → Outcome × List ℕ
unfolding validate_user_range
copy_string_loop mm load src zero i = (enametoolong, [])
copy_string_loop mm load src (suc n) i =
    let addr = (src + i) % word_mod in
    let rest = copy_string_loop mm load src n (suc i) in
    if not (validate_user_range mm addr 1 vma_read)
    then (efault, [])
    else if load addr == 0
    then (done i, 0 ∷ [])
    else (rest.0, load addr ∷ rest.1)

-- On a name that is too long the last byte of the destination becomes NUL.
unfoldable pub copy_string_from_user : Option AddressSpace → (ℕ → ℕ) → ℕ → ℕ → ℕ → Outcome × List ℕ
unfolding copy_string_loop
copy_string_from_user mm load dst dst_size src =
    if (dst == 0) || ((src == 0) || (dst_size == 0))
    then (einval, [])
    else let (outcome, bytes) = copy_string_loop mm load src dst_size 0 in
      elim outcome [
        | enametoolong ↦ (enametoolong, set bytes (dst_size - 1) 0)
        | efault ↦ (efault, bytes)
        | einval ↦ (einval, bytes)
        | done n ↦ (done n, bytes)
      ]
