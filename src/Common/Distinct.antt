-- ===== src/Common/Distinct.antt =====
-- Maps from ids whose keys are listed once, as the tables of pending promises are.
use code_quest.Common.Tests.{if◌then◌else◌, is_some}
use code_quest.Common.Equality.{Str, str_eq, str_beq, str_beq_iff}
use code_quest.Common.Map.{Map, get, set, delete, keys, get-set, get-delete}
use Prim.Native.Nat.{ℕ, suc}
use mathlib.Core.Path.{◌≡◌}
use mathlib.Core.List.{List, [], ◌∷◌}
use native.Mathlib.Omega.{arith}

abbrev pub occurrences : Str → List Str → ℕ
occurrences id [] = 0
occurrences id (j ∷ js) = if str_beq j id then suc (occurrences id js) else occurrences id js

module _ {ℓ} {V : Type ℓ} where
  abbrev pub waiting : Str → Map Str V → ℕ
  waiting id m = if is_some (get id m) then 1 else 0

  -- No id is listed twice.
  abbrev pub IsDistinct : Map Str V → Type 0
  IsDistinct m = (id : Str) → occurrences id (keys m) ≡ waiting id m

  pub occurrences-set :
      (id j : Str) (v : V) (m : Map Str V)
      → occurrences j (keys (set id v m)) ≡ (
          if is_some (get id m)
          then occurrences j (keys m)
          else if str_beq id j
          then suc (occurrences j (keys m))
          else occurrences j (keys m))
  unfolding set get
  occurrences-set id j v [] = ground arith
  occurrences-set id j v ((i, u) ∷ m) =
      ground (arith, occurrences-set id j v m, str_beq_iff i id, str_beq_iff i j, str_beq_iff id j)

  occurrences-delete :
      (id j : Str) (m : Map Str V)
      → occurrences j (keys (delete id m)) ≡ (if str_beq id j then 0 else occurrences j (keys m))
  unfolding delete
  occurrences-delete id j [] = ground arith
  occurrences-delete id j ((i, u) ∷ m) =
      ground (arith, occurrences-delete id j m, str_beq_iff i id, str_beq_iff i j, str_beq_iff id j)

  pub set-IsDistinct : (id : Str) (v : V) (m : Map Str V) → IsDistinct m → IsDistinct (set id v m)
  set-IsDistinct id v m h j =
      ground (arith, occurrences-set id j v m, get-set id j v m, h j, str_beq_iff id j)

  pub delete-IsDistinct : (id : Str) (m : Map Str V) → IsDistinct m → IsDistinct (delete id m)
  delete-IsDistinct id m h j = ground (arith, occurrences-delete id j m, get-delete id j m, h j)
