-- ===== src/Buddy/Cover.antt =====
-- How often the free lists of a zone cover a page. In a sound zone it is never more than once.
use ocean_linux.Buddy.Split.{in_block}
use ocean_linux.Base.{
  ℕ, Bool, true, false, ◌≤◌, List, ◌<◌, suc, ◌+◌, ◌≡◌, ◌∷◌, ◌≢◌, ℕ_discrete, zero, if◌then◌else◌,
  arith, ap, refl, ◌==◌, [], length,
}
use ocean_linux.Buddy.{Zone, FreeArea, unlink, max_order, update}

-- Of one list, whose blocks have 2 ^ o pages.
unfoldable pub cover_list : List ℕ → ℕ → ℕ → ℕ
cover_list [] o p = 0
cover_list (b ∷ bs) o p = in_block b o p + cover_list bs o p

-- Of the first `n` areas.
unfoldable pub cover_areas : (ℕ → FreeArea) → ℕ → ℕ → ℕ
cover_areas areas zero p = 0
cover_areas areas (suc n) p = cover_list (areas n).free_list n p + cover_areas areas n p

unfoldable pub cover : Zone → ℕ → ℕ
cover zone p = cover_areas zone.free_area max_order p

unfoldable pub listed : ℕ → List ℕ → Bool
listed b [] = false
listed b (c ∷ cs) = if c == b then true else listed b cs

pub cover_areas-update_above :
    (areas : ℕ → FreeArea) (n i p : ℕ) (a : FreeArea)
    → n ≤ i
    → cover_areas (update areas i a) n p ≡ cover_areas areas n p
unfolding cover_areas
cover_areas-update_above areas zero i p a h = refl
cover_areas-update_above areas (suc n) i p a h =
    ground (arith, cover_areas-update_above areas n i p a)

-- A change of area `i` changes the cover by that list's share.
pub cover_areas-update :
    (areas : ℕ → FreeArea) (n i p : ℕ) (a : FreeArea)
    → i < n
    → cover_areas (update areas i a) n p + cover_list (areas i).free_list i p
      ≡ cover_areas areas n p + cover_list a.free_list i p
unfolding cover_areas
cover_areas-update areas zero i p a h = elim h [ ]
cover_areas-update areas (suc n) i p a h = elim (ℕ_discrete i n) [
  | yes same ↦ ground (
    arith,
    cover_areas-update_above areas n i p a,
    ap (λ k. cover_list a.free_list k p) same,
    ap (λ k. cover_list (areas k).free_list k p) same,
  )
  | no other ↦ ground (arith, cover_areas-update areas n i p a)
]

pub cover_list-unlink :
    (b : ℕ) (bs : List ℕ) (o p : ℕ)
    → listed b bs ≡ true
    → cover_list (unlink b bs) o p + in_block b o p ≡ cover_list bs o p
unfolding cover_list listed unlink
cover_list-unlink b [] o p h = cc
cover_list-unlink b (c ∷ cs) o p h = elim (ℕ_discrete c b) [
  | yes same ↦ ground (arith, ap (λ x. in_block x o p) same)
  | no other ↦ ground (arith, cover_list-unlink b cs o p)
]

pub listed-unlink : (b q : ℕ) (bs : List ℕ) → q ≢ b → listed q (unlink b bs) ≡ listed q bs
unfolding listed unlink
listed-unlink b q [] h = refl
listed-unlink b q (c ∷ cs) h = ground (arith, listed-unlink b q cs h)

-- A listed block covers its pages.
pub listed-le-cover_list :
    (b : ℕ) (bs : List ℕ) (o p : ℕ) → listed b bs ≡ true → in_block b o p ≤ cover_list bs o p
unfolding cover_list listed
listed-le-cover_list b [] o p h = cc
listed-le-cover_list b (c ∷ cs) o p h = elim (ℕ_discrete c b) [
  | yes same ↦ ground (arith, ap (λ x. in_block x o p) same)
  | no other ↦ ground (arith, listed-le-cover_list b cs o p)
]

pub cover_list-le-cover_areas :
    (areas : ℕ → FreeArea) (n i p : ℕ)
    → i < n
    → cover_list (areas i).free_list i p ≤ cover_areas areas n p
unfolding cover_areas
cover_list-le-cover_areas areas zero i p h = elim h [ ]
cover_list-le-cover_areas areas (suc n) i p h = elim (ℕ_discrete i n) [
  | yes same ↦ omega (arith, ap (λ k. cover_list (areas k).free_list k p) same)
  | no other ↦ omega (arith, cover_list-le-cover_areas areas n i p (omega arith))
]

pub length-unlink :
    (b : ℕ) (bs : List ℕ) → listed b bs ≡ true → suc (length (unlink b bs)) ≡ length bs
unfolding listed unlink
length-unlink b [] h = cc
length-unlink b (c ∷ cs) h = ground (arith, length-unlink b cs)
