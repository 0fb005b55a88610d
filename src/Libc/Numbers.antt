-- ===== src/Libc/Numbers.antt =====
-- lib/libc/src/stdlib.c: the conversions of strings to numbers. A long is given by its 64 bits and
-- an int by its 32; chars above 127, which are negative, are no digits and no letters. A loop over
-- the string takes a number of rounds, and gives none where the string is longer. Overflow of the
-- result, which C leaves open, wraps around. base is at most 36.
use ocean_linux.Libc.{Mem}
use ocean_linux.Base.{
  ℕ, ◌^◌, if◌then◌else◌, Bool, ◌-◌, Option, leb, some, none, ◌==◌, ◌%◌, ◌+◌, suc, ◌||◌, true, ◌&&◌,
  bit_or, false, ◌*◌, zero,
}

abbrev pub long_mod : ℕ
long_mod = 2 ^ 64

-- Two's complement.
abbrev pub negate : ℕ → ℕ → ℕ
negate modulus n = (modulus - n % modulus) % modulus

unfoldable pub abs : ℕ → ℕ
abs j = if leb (2 ^ 31) j then negate (2 ^ 32) j else j

unfoldable pub labs : ℕ → ℕ
labs j = if leb (2 ^ 63) j then negate long_mod j else j

unfoldable pub isspace : ℕ → Bool
isspace c = (c == 32) || (c == 9) || (c == 10) || (c == 13) || (c == 12) || (c == 11)

unfoldable pub isdigit : ℕ → Bool
isdigit c = leb 48 c && leb c 57

unfoldable pub isalpha : ℕ → Bool
isalpha c = (leb 97 c && leb c 122) || (leb 65 c && leb c 90)

-- while (isspace(*s)) s++
unfoldable pub skip_spaces : ℕ → Mem → ℕ → Option ℕ
unfolding isspace
skip_spaces zero m s = none
skip_spaces (suc limit) m s =
    let rest = skip_spaces limit m (s + 1) in if isspace (m s) then rest else some s

-- Whether there is a minus sign, and where the number goes on.
unfoldable pub read_sign : Mem → ℕ → Bool × ℕ
read_sign m s =
    if m s == 45 then (true, s + 1) else if m s == 43 then (false, s + 1) else (false, s)

abbrev pub is_x : ℕ → Bool
is_x c = (c == 120) || (c == 88)

-- The base, and where the digits start.
unfoldable pub read_prefix : Mem → ℕ → ℕ → ℕ × ℕ
read_prefix m s base =
    if base == 0
    then if m s == 48 then if is_x (m (s + 1)) then (16, s + 2) else (8, s + 1) else (10, s)
    else if (base == 16) && (m s == 48) && is_x (m (s + 1))
    then (16, s + 2)
    else (base, s)

-- The value of a digit or a letter.
unfoldable pub digit_value : ℕ → Option ℕ
unfolding isdigit isalpha
digit_value c =
    if isdigit c then some (c - 48) else if isalpha c then some (bit_or c 32 - 97 + 10) else none

-- The loop over the digits, with where it ends.
unfoldable pub read_digits : ℕ → Mem → ℕ → ℕ → ℕ → Option (ℕ × ℕ)
unfolding digit_value
read_digits zero m s base result = none
read_digits (suc limit) m s base result =
    if m s == 0 then some (result, s) else elim (digit_value (m s)) [
      | none ↦ some (result, s)
      | some digit ↦
          let rest = read_digits limit m (s + 1) base ((result * base + digit) % long_mod) in
          if leb base digit then some (result, s) else rest
    ]

-- The number, and what *endptr is set to.
unfoldable pub strtol : ℕ → Mem → ℕ → ℕ → Option (ℕ × ℕ)
unfolding skip_spaces read_sign read_prefix read_digits
strtol limit m nptr base = elim (skip_spaces limit m nptr) [
  | none ↦ none
  | some s ↦
      let (negative, s1) = read_sign m s in
      let (base', s2) = read_prefix m s1 base in
      elim (read_digits limit m s2 base' 0) [
        | none ↦ none
        | some (result, end) ↦ some (if negative then negate long_mod result else result, end)
      ]
]

unfoldable pub atol : ℕ → Mem → ℕ → Option ℕ
unfolding strtol
atol limit m nptr = elim (strtol limit m nptr 10) [ none ↦ none | some (n, end) ↦ some n ]

unfoldable pub atoi : ℕ → Mem → ℕ → Option ℕ
unfolding strtol
atoi limit m nptr = elim (strtol limit m nptr 10) [
  | none ↦ none
  | some (n, end) ↦ some (n % 2 ^ 32)
]

unfoldable pub strtoul : ℕ → Mem → ℕ → ℕ → Option (ℕ × ℕ)
unfolding strtol
strtoul limit m nptr base = strtol limit m nptr base
