-- ===== src/Common/Text.antt =====
-- Operations on strings as lists of code units.
use Prim.Native.Nat.{ℕ, zero, suc, ◌+◌, ◌-◌, ◌*◌, ◌/◌, ◌%◌, ◌<◌}
use Prim.Native.Char.{code}
use Prim.Native.String.{String}
use mathlib.Core.Path.{◌≡◌, refl, ap, sym, ◌∙◌}
use mathlib.Core.Bool.{Bool, true, false, ◌&&◌, ◌||◌}
use mathlib.Core.Logic.{inl, inr}
use mathlib.Core.List.{[], ◌∷◌, ◌++◌}
use native.Mathlib.Omega.{arith}
use code_quest.Common.Tests.{if◌then◌else◌, nat_beq, ltb, leb, Bool-cases}
use code_quest.Common.Equality.{Str}

-- a literal
abbrev pub lit : String → Str
lit String.[] = []
lit (String.◌∷◌ c s) = code c ∷ lit s

unfoldable pub starts_with : Str → Str → Bool
starts_with [] s = true
starts_with (a ∷ p) [] = false
starts_with (a ∷ p) (b ∷ s) = nat_beq a b && starts_with p s

abbrev pub between : ℕ → ℕ → ℕ → Bool
between a b c = leb a c && leb c b

abbrev is_none_left : Str → Bool
is_none_left [] = true
is_none_left (_ ∷ _) = false

abbrev pub is_space : ℕ → Bool
is_space c =
    between 9 13 c
    || nat_beq c 32
    || nat_beq c 160
    || nat_beq c 5760
    || between 8192 8202 c
    || nat_beq c 8232
    || nat_beq c 8233
    || nat_beq c 8239
    || nat_beq c 8287
    || nat_beq c 12_288
    || nat_beq c 65_279

abbrev pub trim_start : Str → Str
trim_start [] = []
trim_start (c ∷ s) = let rest = trim_start s in if is_space c then rest else c ∷ s

abbrev pub trim_end : Str → Str
trim_end [] = []
trim_end (c ∷ s) = let rest = trim_end s in if is_none_left rest && is_space c then [] else c ∷ rest

-- `String.prototype.trim`
unfoldable pub trim : Str → Str
trim s = trim_end (trim_start s)

digits : ℕ → ℕ → Str
digits zero n = []
digits (suc fuel) n =
    let more = digits fuel (n / 10) ++ (48 + n % 10) ∷ [] in
    if ltb n 10 then (48 + n) ∷ [] else more

-- `String(n)` of a natural number
unfoldable pub decimal : ℕ → Str
unfolding digits
decimal n = digits (suc n) n

value_from : ℕ → Str → ℕ
value_from acc [] = acc
value_from acc (c ∷ s) = value_from (acc * 10 + (c - 48)) s

value_from-append :
    (acc : ℕ) (s t : Str) → value_from acc (s ++ t) ≡ value_from (value_from acc s) t
unfolding value_from
value_from-append acc [] t = refl
value_from-append acc (c ∷ s) t = value_from-append (acc * 10 + (c - 48)) s t

value-digits : (fuel n : ℕ) → n < fuel → value_from 0 (digits fuel n) ≡ n
unfolding digits value_from
value-digits zero n h = elim h [ ]
value-digits (suc fuel) n h = elim (Bool-cases (ltb n 10)) [
  | inl small ↦ rw small (ground arith)
  | inr large ↦
      rw (large, value_from-append 0 (digits fuel (n / 10)) ((48 + n % 10) ∷ []))
        (rw (value-digits fuel (n / 10) (ground arith)) (omega arith))
]

-- Different numbers are printed differently.
pub decimal_injective : (m n : ℕ) → decimal m ≡ decimal n → m ≡ n
unfolding decimal
decimal_injective m n h =
    sym (value-digits (suc m) m (omega arith))
    ∙ ap (value_from 0) h
    ∙ value-digits (suc n) n (omega arith)
