-- ===== src/Common/Keys.antt =====
-- The JavaScript `Set`: members in the order of their first insertion.
use mathlib.Core.Path.{◌≡◌, refl}
use mathlib.Core.Bool.{Bool, false, ◌||◌}
use mathlib.Core.List.{List, [], ◌∷◌}
use native.Mathlib.Omega.{arith}
use code_quest.Common.Tests.{if◌then◌else◌}
use code_quest.Common.Equality.{Eq, ◌==◌}

module _ {ℓ} {K : Type ℓ} ⦃e : Eq K⦄ where
  unfoldable pub member : K → List K → Bool
  member k [] = false
  member k (j ∷ s) = j == k || member k s

  unfoldable pub add : K → List K → List K
  add k [] = k ∷ []
  add k (j ∷ s) = if j == k then j ∷ s else j ∷ add k s

  unfoldable pub remove : K → List K → List K
  remove k [] = []
  remove k (j ∷ s) = let rest = remove k s in if j == k then rest else j ∷ rest

  pub member-add : (k j : K) (s : List K) → member j (add k s) ≡ (k == j || member j s)
  unfolding member add
  member-add k j [] = refl
  member-add k j (i ∷ s) =
      ground (arith, e.is_equal_iff k j, e.is_equal_iff i k, e.is_equal_iff i j, member-add k j s)

  pub member-remove :
      (k j : K) (s : List K) → member j (remove k s) ≡ (if k == j then false else member j s)
  unfolding member remove
  member-remove k j [] = ground arith
  member-remove k j (i ∷ s) =
      ground
        (arith, e.is_equal_iff k j, e.is_equal_iff i k, e.is_equal_iff i j, member-remove k j s)
