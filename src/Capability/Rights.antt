-- ===== src/Capability/Rights.antt =====
-- cap_check_rights as a statement about single rights.
use ocean_linux.Base.Bits.{bit, bit-bit_and, bits_ext, bit_and_lt}
use ocean_linux.Base.{ℕ, ◌≡◌, true, ◌<◌, ◌^◌, some, ◌↔◌, bit_and, ◌==◌, arith, ◌&&◌, sym, ◌∙◌, ap}
use ocean_linux.Capability.{Capability, cap_check_rights}

-- cap_check_rights accepts a capability exactly when each right asked for is among its rights.
pub cap_check_rights_iff :
    (c : Capability) (required : ℕ)
    → required < 2 ^ 32
    → c.rights < 2 ^ 32
    → (cap_check_rights (some c) required ≡ true)
      ↔ ((i : ℕ) → bit required i ≡ true → bit c.rights i ≡ true)
unfolding cap_check_rights
cap_check_rights_iff c required h k = (to, from)
  where
    to :
        (bit_and c.rights required == required) ≡ true
        → (i : ℕ) → bit required i ≡ true
        → bit c.rights i ≡ true
    to e i r =
        let same : bit_and c.rights required ≡ required = ground arith in
        let both : bit c.rights i && bit required i ≡ true =
          sym (bit-bit_and c.rights required i) ∙ ap (λ w. bit w i) same ∙ r in
        ground arith

    from :
        ((i : ℕ) → bit required i ≡ true → bit c.rights i ≡ true)
        → (bit_and c.rights required == required) ≡ true
    from all =
        let same : bit_and c.rights required ≡ required =
          bits_ext 32 _ _ (bit_and_lt 32 c.rights required k) h
            (λ i. ground (arith, bit-bit_and c.rights required i, all i)) in
        ground arith
