-- ===== src/Base/Search.antt =====
-- The first entry of an array that passes a test, and the number of those that do.
use Prim.Native.Nat.{ℕ, zero, suc, ◌+◌, ◌<◌, ◌≤◌}
use mathlib.Core.Path.{◌≡◌, refl}
use mathlib.Core.Logic.{inl, inr}
use mathlib.Core.Bool.{Bool, true, false}
use mathlib.Core.Option.{Option, none, some}
use mathlib.Core.List.{List, [], ◌∷◌}
use native.Mathlib.Omega.{arith}
use ocean_linux.Base.Tests.{if◌then◌else◌, Bool-cases}
use ocean_linux.Base.Lists.{length, get_or, set, replicate}

module _ {ℓ} {A : Type ℓ} (test : A → Bool) where
  -- The array from index `i` on.
  unfoldable pub first_index : List A → ℕ → Option ℕ
  first_index [] i = none
  first_index (x ∷ xs) i = if test x then some i else first_index xs (suc i)

  unfoldable pub count_if : List A → ℕ
  count_if [] = 0
  count_if (x ∷ xs) = (if test x then 1 else 0) + count_if xs

  -- What first_index returns.
  abbrev pub FirstOf : List A → A → ℕ → Option ℕ → Type 0
  FirstOf xs d i none = (k : ℕ) → k < length xs → test (get_or xs k d) ≡ false
  FirstOf xs d i (some r) =
      (k : ℕ) × (r ≡ i + k)
      × (k < length xs)
      × (test (get_or xs k d) ≡ true)
      × ((j : ℕ) → j < k → test (get_or xs j d) ≡ false)

  pub count_if-set :
      (xs : List A) (i : ℕ) (v d : A)
      → i < length xs
      → count_if (set xs i v) + (if test (get_or xs i d) then 1 else 0)
        ≡ count_if xs + (if test v then 1 else 0)
  unfolding count_if
  count_if-set [] i v d h = elim h [ ]
  count_if-set (x ∷ xs) zero v d h = omega arith
  count_if-set (x ∷ xs) (suc i) v d h = omega (arith, count_if-set xs i v d (omega arith))

  pub count_if-le-length : (xs : List A) → count_if xs ≤ length xs
  unfolding count_if
  count_if-le-length [] = omega arith
  count_if-le-length (x ∷ xs) = ground (arith, count_if-le-length xs)

  pub count_if-replicate : (n : ℕ) (a : A) → test a ≡ false → count_if (replicate n a) ≡ 0
  unfolding count_if
  count_if-replicate zero a h = refl
  count_if-replicate (suc n) a h = ground (arith, count_if-replicate n a h)

  next_FirstOf :
      (x : A) (xs : List A) (d : A) (i : ℕ) (r : Option ℕ)
      → test x ≡ false
      → FirstOf xs d (suc i) r
      → FirstOf (x ∷ xs) d i r
  next_FirstOf x xs d i none h f = later
    where
      later : (k : ℕ) → k < length (x ∷ xs) → test (get_or (x ∷ xs) k d) ≡ false
      later zero l = h
      later (suc k) l = f k (omega arith)
  next_FirstOf x xs d i (some r) h (k, e, l, t, before) =
      (suc k, omega arith, omega arith, t, earlier)
    where
      earlier : (j : ℕ) → j < suc k → test (get_or (x ∷ xs) j d) ≡ false
      earlier zero m = h
      earlier (suc j) m = before j (omega arith)

  pub first_index-FirstOf : (xs : List A) (d : A) (i : ℕ) → FirstOf xs d i (first_index xs i)
  unfolding first_index
  first_index-FirstOf [] d i = λ k h. absurd (omega arith)
  first_index-FirstOf (x ∷ xs) d i = elim (Bool-cases (test x)) [
    | inl found ↦ rw found (0, omega arith, omega arith, found, λ j h. absurd (omega arith))
    | inr other ↦ rw other (next_FirstOf x xs d i _ other (first_index-FirstOf xs d (suc i)))
  ]
