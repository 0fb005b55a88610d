-- ===== src/Libc/Strings.antt =====
-- lib/libc/src/string.c: the functions on strings. A loop that runs to the end of a string takes a
-- number of rounds, and gives none where the string is longer. The value of a comparison is the
-- pair of the bytes that are subtracted.
use ocean_linux.Libc.{Mem, store}
use ocean_linux.Base.{
  ℕ, Option, suc, if◌then◌else◌, none, zero, ◌+◌, some, not, ◌==◌, ◌&&◌, ◌-◌, ◌%◌,
}

-- The address of the NUL.
unfoldable pub end_of : ℕ → Mem → ℕ → Option ℕ
end_of zero m p = none
end_of (suc limit) m p = let rest = end_of limit m (p + 1) in if m p == 0 then some p else rest

unfoldable pub strlen : ℕ → Mem → ℕ → Option ℕ
unfolding end_of
strlen limit m s = elim (end_of limit m s) [ none ↦ none | some p ↦ some (p - s) ]

unfoldable pub strnlen : Mem → ℕ → ℕ → ℕ
strnlen m s zero = 0
strnlen m s (suc maxlen) = let rest = strnlen m (s + 1) maxlen in if m s == 0 then 0 else rest + 1

-- while ((*d++ = *src++))
unfoldable pub copy_string : ℕ → Mem → ℕ → ℕ → Option Mem
copy_string zero m d src = none
copy_string (suc limit) m d src =
    let copied = store m d (m src) in
    let rest = copy_string limit copied (d + 1) (src + 1) in
    if m src == 0 then some copied else rest

unfoldable pub strcpy : ℕ → Mem → ℕ → ℕ → Option Mem
unfolding copy_string
strcpy limit m dest src = copy_string limit m dest src

-- while (n && (*d++ = *src++)) n--, with where d and n end.
unfoldable pub copy_chars : Mem → ℕ → ℕ → ℕ → Mem × ℕ × ℕ
copy_chars m d src zero = (m, d, 0)
copy_chars m d src (suc n) =
    let copied = store m d (m src) in
    let rest = copy_chars copied (d + 1) (src + 1) n in
    if m src == 0 then (copied, d + 1, suc n) else rest

-- while (n--) *d++ = '\0'
unfoldable pub zero_fill : Mem → ℕ → ℕ → Mem
zero_fill m d zero = m
zero_fill m d (suc n) = zero_fill (store m d 0) (d + 1) n

unfoldable pub strncpy : Mem → ℕ → ℕ → ℕ → Mem
unfolding copy_chars zero_fill
strncpy m dest src n = let (copied, d, left) = copy_chars m dest src n in zero_fill copied d left

unfoldable pub strcat : ℕ → Mem → ℕ → ℕ → Option Mem
unfolding end_of copy_string
strcat limit m dest src = elim (end_of limit m dest) [
  | none ↦ none
  | some d ↦ copy_string limit m d src
]

-- while (n-- && (*d++ = *src++)), with where d ends.
unfoldable pub append_chars : Mem → ℕ → ℕ → ℕ → Mem × ℕ
append_chars m d src zero = (m, d)
append_chars m d src (suc n) =
    let copied = store m d (m src) in
    let rest = append_chars copied (d + 1) (src + 1) n in
    if m src == 0 then (copied, d + 1) else rest

unfoldable pub strncat : ℕ → Mem → ℕ → ℕ → ℕ → Option Mem
unfolding end_of append_chars
strncat limit m dest src n = elim (end_of limit m dest) [
  | none ↦ none
  | some d ↦ let (copied, end) = append_chars m d src n in some (store copied end 0)
]

unfoldable pub strcmp : ℕ → Mem → ℕ → ℕ → Option (ℕ × ℕ)
strcmp zero m s1 s2 = none
strcmp (suc limit) m s1 s2 =
    let rest = strcmp limit m (s1 + 1) (s2 + 1) in
    if not (m s1 == 0) && (m s1 == m s2) then rest else some (m s1, m s2)

-- The loop of strncmp, after n was found not to be 0.
unfoldable pub compare_chars : Mem → ℕ → ℕ → ℕ → ℕ × ℕ
compare_chars m s1 s2 zero = (m s1, m s2)
compare_chars m s1 s2 (suc n) =
    let rest = compare_chars m (s1 + 1) (s2 + 1) n in
    if not (m s1 == 0) && (m s1 == m s2) then rest else (m s1, m s2)

unfoldable pub strncmp : Mem → ℕ → ℕ → ℕ → ℕ × ℕ
unfolding compare_chars
strncmp m s1 s2 zero = (0, 0)
strncmp m s1 s2 (suc n) = compare_chars m s1 s2 n

unfoldable pub strchr : ℕ → Mem → ℕ → ℕ → Option (Option ℕ)
strchr zero m s c = none
strchr (suc limit) m s c =
    let rest = strchr limit m (s + 1) c in
    if m s == 0
    then some (if c == 0 then some s else none)
    else if m s == c % 256
    then some (some s)
    else rest

-- The loop of strrchr, with the place found last.
unfoldable pub last_char : ℕ → Mem → ℕ → ℕ → Option ℕ → Option (Option ℕ)
last_char zero m s c last = none
last_char (suc limit) m s c last =
    let rest = last_char limit m (s + 1) c (if m s == c % 256 then some s else last) in
    if m s == 0 then some (if c == 0 then some s else last) else rest

unfoldable pub strrchr : ℕ → Mem → ℕ → ℕ → Option (Option ℕ)
unfolding last_char
strrchr limit m s c = last_char limit m s c none

-- The loop of strstr.
unfoldable pub search_string : ℕ → Mem → ℕ → ℕ → ℕ → Option (Option ℕ)
unfolding strncmp
search_string zero m haystack needle needle_len = none
search_string (suc limit) m haystack needle needle_len =
    let rest = search_string limit m (haystack + 1) needle needle_len in
    let (c1, c2) = strncmp m haystack needle needle_len in
    if m haystack == 0 then some none else if c1 == c2 then some (some haystack) else rest

unfoldable pub strstr : ℕ → Mem → ℕ → ℕ → Option (Option ℕ)
unfolding strlen search_string
strstr limit m haystack needle =
    if m needle == 0 then some (some haystack) else elim (strlen limit m needle) [
      | none ↦ none
      | some needle_len ↦ search_string limit m haystack needle needle_len
    ]
