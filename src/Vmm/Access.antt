-- ===== src/Vmm/Access.antt =====
-- What the check of a user range guarantees, byte by byte.
use ocean_linux.Vmm.User.{allows, check_from, validate_user_range}
use ocean_linux.Vmm.{VmArea, AddressSpace, vmm_find_vma, user_space_end, word_mod}
use ocean_linux.Vmm.Sorted.{area_at, SortedFrom, within, area_at-before, vmm_find_vma-eq-area_at}
use ocean_linux.Base.{
  ℕ, count_if, List, Bool, ◌≤◌, ltb, ◌≡◌, some, none, arith, ◌<◌, false, ◌∷◌, [], true, Bool-cases,
  inl, some_injective, sym, ◌∙◌, ap, subst, inr, dec_lt, refl, length, ◌↔◌, count_if-le-length, ◌≢◌,
  suc, Option-cases, ◌+◌, ◌==◌, leb, zero, ◌-◌, ◌%◌,
}

-- An address lies in an area with the required flags.
abbrev pub granted : List VmArea → ℕ → ℕ → Bool
granted vmas required addr = elim (area_at vmas addr) [
  | none ↦ false
  | some vma ↦ allows required vma.flags
]

pub within_area :
    (vmas : List VmArea) (addr : ℕ) (vma : VmArea)
    → area_at vmas addr ≡ some vma
    → within vma addr ≡ true
unfolding area_at
within_area [] addr vma e = cc
within_area (v ∷ vmas) addr vma e = elim (Bool-cases (within v addr)) [
  | inl here ↦
      let same : v ≡ vma = some_injective (sym (rw here refl) ∙ e) in
      subst (λ x. within x addr ≡ true) same here
  | inr there ↦ within_area vmas addr vma (sym (rw there refl) ∙ e)
]

-- All addresses of an area have that area.
same_area :
    (vmas : List VmArea) (lo cursor addr : ℕ) (vma : VmArea)
    → SortedFrom lo vmas
    → area_at vmas cursor ≡ some vma
    → cursor ≤ addr
    → addr < vma.end
    → area_at vmas addr ≡ some vma
unfolding area_at
same_area [] lo cursor addr vma s e h k = cc
same_area (v ∷ vmas) lo cursor addr vma (a, b, c) e h k = elim (Bool-cases (within v cursor)) [
  | inl here ↦
      let same : v ≡ vma = some_injective (sym (rw here refl) ∙ e) in
      let ends : v.end ≡ vma.end = ap (λ (x : VmArea). x.end) same in
      let inside : within v addr ≡ true = ground arith in
      rw inside (ap (λ (x : VmArea). some x) same)
  | inr there ↦
      let found : area_at vmas cursor ≡ some vma = sym (rw there refl) ∙ e in
      let ih = same_area vmas v.end cursor addr vma c found h k in
      let w = within_area vmas cursor vma found in
      elim (dec_lt cursor v.end) [
        | yes before ↦ absurd (none_some (sym (area_at-before v.end cursor vmas c before) ∙ found))
        | no behind ↦ let outside : within v addr ≡ false = ground arith in rw outside ih
      ]
]
  where
    none_some : none ≡ some vma → ⊥
    none_some q = cc

-- The number of areas that end behind `cursor`, a bound for the rounds.
later : List VmArea → ℕ → ℕ
later vmas cursor = count_if (λ (v : VmArea). ltb cursor v.end) vmas

later_mono : (vmas : List VmArea) (c d : ℕ) → c ≤ d → later vmas d ≤ later vmas c
unfolding later count_if
later_mono [] c d h = omega arith
later_mono (v ∷ vmas) c d h = ground (arith, later_mono vmas c d h)

later-lt :
    (vmas : List VmArea) (cursor : ℕ) (vma : VmArea)
    → area_at vmas cursor ≡ some vma
    → later vmas vma.end < later vmas cursor
unfolding later count_if area_at
later-lt [] cursor vma e = cc
later-lt (v ∷ vmas) cursor vma e = elim (Bool-cases (within v cursor)) [
  | inl here ↦
      let same : v ≡ vma = some_injective (sym (rw here refl) ∙ e) in
      let ends : v.end ≡ vma.end = ap (λ (x : VmArea). x.end) same in
      ground (arith, later_mono vmas cursor vma.end)
  | inr there ↦
      let found : area_at vmas cursor ≡ some vma = sym (rw there refl) ∙ e in
      ground (arith, later-lt vmas cursor vma found, within_area vmas cursor vma found)
]

-- Every address from `cursor` up to `end` is granted.
abbrev pub AllGranted : List VmArea → ℕ → ℕ → ℕ → Type 0
AllGranted vmas required cursor end =
    (addr : ℕ) → cursor ≤ addr → addr < end → granted vmas required addr ≡ true

module _ (vmas : List VmArea) (required lo : ℕ) (s : SortedFrom lo vmas) where
  -- The round of the loop at an area that holds the cursor.
  check_area :
      (end n cursor : ℕ) (vma : VmArea)
      → cursor < end
      → area_at vmas cursor ≡ some vma
      → (check_from vmas required end n vma.end ≡ true) ↔ AllGranted vmas required vma.end end
      → (check_from vmas required end (suc n) cursor ≡ true) ↔ AllGranted vmas required cursor end
  unfolding check_from
  check_area end n cursor vma more found ih =
      let stops : vmm_find_vma vmas cursor ≡ some vma =
        vmm_find_vma-eq-area_at lo cursor vmas s ∙ found in
      let inside = within_area vmas cursor vma found in
      let unfinished : ltb cursor end ≡ true = ground arith in
      let starts : ltb cursor vma.start ≡ false = ground arith in
      let ends : leb vma.end cursor ≡ false = ground arith in
      elim (Bool-cases (allows required vma.flags)) [
        | inr refused ↦
            rw (unfinished, stops, starts, refused, check_from)
              (
                λ h. cc,
                λ all. absurd (
                    clash
                      (sym (all cursor (omega arith) more) ∙ rw (found, refused, granted) refl)),
              )
        | inl allowed ↦
            let here : (addr : ℕ)
                → cursor ≤ addr
                → addr < vma.end
                → granted vmas required addr ≡ true =
              λ addr h k.
                rw (same_area vmas lo cursor addr vma s found h k, allowed, granted) refl in
            elim (Bool-cases (leb end vma.end)) [
              | inl last ↦
                  rw (unfinished, stops, starts, allowed, ends, last, check_from)
                    (λ h addr p q. here addr p (ground arith), λ all. refl)
              | inr goes_on ↦
                  rw (unfinished, stops, starts, allowed, ends, goes_on, check_from)
                    (
                      λ h addr p q. elim (dec_lt addr vma.end) [
                        | yes inner ↦ here addr p inner
                        | no outer ↦ ih.0 h addr (omega arith) q
                      ],
                      λ all. ih.1 (λ addr p q. all addr (ground arith) q),
                    )
            ]
      ]
    where
      clash : true ≡ false → ⊥
      clash q = cc

  check_from_iff :
      (end n cursor : ℕ)
      → later vmas cursor < n
      → (check_from vmas required end n cursor ≡ true) ↔ AllGranted vmas required cursor end
  unfolding check_from
  check_from_iff end zero cursor enough = absurd (omega arith)
  check_from_iff end (suc n) cursor enough = elim (dec_lt cursor end) [
    | no finished ↦
        let finished' : ltb cursor end ≡ false = ground arith in
        rw (finished', check_from) (λ h addr p q. absurd (omega arith), λ all. refl)
    | yes more ↦ elim (Option-cases (area_at vmas cursor)) [
      | inr (vma, found) ↦
          check_area end n cursor vma more found
            (check_from_iff end n vma.end (omega (arith, later-lt vmas cursor vma found)))
      | inl missing ↦
          let stops : vmm_find_vma vmas cursor ≡ none =
            vmm_find_vma-eq-area_at lo cursor vmas s ∙ missing in
          let unfinished : ltb cursor end ≡ true = ground arith in
          rw (unfinished, stops, check_from)
            (
              λ h. cc,
              λ all.
                  absurd (clash (sym (all cursor (omega arith) more) ∙ rw (missing, granted) refl)),
            )
    ]
  ]
    where
      clash : true ≡ false → ⊥
      clash q = cc

later-le-length : (vmas : List VmArea) (cursor : ℕ) → later vmas cursor ≤ length vmas
unfolding later
later-le-length vmas cursor = count_if-le-length (λ (v : VmArea). ltb cursor v.end) vmas

-- validate_user_range, on a process whose areas are sorted, accepts a pointer that is not NULL and
-- a length that is not 0 exactly where every byte of the range lies in user space and in an area
-- that has the required flags.
pub validate_user_range_iff :
    (space : AddressSpace) (ptr len required : ℕ)
    → SortedFrom 0 space.vmas
    → ptr ≢ 0
    → len ≢ 0
    → (validate_user_range (some space) ptr len required ≡ true)
      ↔ ((ptr + len ≤ user_space_end + 1) × AllGranted space.vmas required ptr (ptr + len))
unfolding validate_user_range
validate_user_range_iff space ptr len required s nonnull nonempty =
    let p0 : (ptr == 0) ≡ false = ground arith in
    let l0 : (len == 0) ≡ false = ground arith in
    elim (Bool-cases (ltb user_space_end ptr)) [
      | inl high ↦ rw (p0, l0, high, validate_user_range) (λ h. cc, λ r. absurd (ground arith))
      | inr low ↦ elim (Bool-cases (ltb (user_space_end - ptr) (len - 1))) [
        | inl long ↦
            rw (p0, l0, low, long, validate_user_range) (λ h. cc, λ r. absurd (ground arith))
        | inr fits ↦
            let whole : ptr + len ≤ user_space_end + 1 = ground arith in
            let loop =
              check_from_iff space.vmas required 0 s ((ptr + len) % word_mod)
                (suc (length space.vmas)) ptr (omega (arith, later-le-length space.vmas ptr)) in
            rw (p0, l0, low, fits, validate_user_range)
              (
                λ h. (whole, λ addr p q. loop.0 h addr p (omega arith)),
                λ r. loop.1 (λ addr p q. r.1 addr p (omega arith)),
              )
      ]
    ]
