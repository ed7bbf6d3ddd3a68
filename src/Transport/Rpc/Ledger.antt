-- ===== src/Transport/Rpc/Ledger.antt =====
-- The ledger of the calls of `request`: which are pending, which timers are set, which are settled.
use code_quest.Common.{
  ℕ, suc, ◌+◌, ◌<◌, ◌≡◌, refl, ap, List, [], ◌∷◌, ◌++◌, map, none, some, Str, if◌then◌else◌, str_eq,
  nat_eq, nat_beq, str_beq_iff, All, All-append, ltb, arith,
}
use code_quest.Common.Text.{decimal, decimal_injective}
use code_quest.Common.Map.{Map, get, set, delete, values, keys, set_absent}
use code_quest.Transport.Rpc.Defs.{
  Effect, send, settle, refuse, invoke, notify, reject_all, clear_all,
}

abbrev pub count : ℕ → List ℕ → ℕ
count n [] = 0
count n (m ∷ ms) = if nat_beq m n then suc (count n ms) else count n ms

-- how often the effects settle call `n`
abbrev pub settlements : ℕ → List Effect → ℕ
settlements n [] = 0
settlements n (settle m _ ∷ es) = if nat_beq m n then suc (settlements n es) else settlements n es
settlements n (send _ ∷ es) = settlements n es
settlements n (refuse _ ∷ es) = settlements n es
settlements n (invoke _ _ _ ∷ es) = settlements n es
settlements n (notify _ _ ∷ es) = settlements n es

-- Each entry stands under the decimal of its call.
abbrev pub IsKeyed : Map Str ℕ → Type 0
IsKeyed m = All (λ e. e.0 ≡ decimal e.1) m

pub settlements-append :
    (n : ℕ) (es fs : List Effect) → settlements n (es ++ fs) ≡ settlements n es + settlements n fs
settlements-append n [] fs = omega arith
settlements-append n (settle m _ ∷ es) fs = ground (arith, settlements-append n es fs)
settlements-append n (send _ ∷ es) fs = settlements-append n es fs
settlements-append n (refuse _ ∷ es) fs = settlements-append n es fs
settlements-append n (invoke _ _ _ ∷ es) fs = settlements-append n es fs
settlements-append n (notify _ _ ∷ es) fs = settlements-append n es fs

pub settlements-reject_all :
    (n : ℕ) (m : Map Str ℕ) → settlements n (reject_all m) ≡ count n (values m)
unfolding reject_all
settlements-reject_all n [] = refl
settlements-reject_all n ((k, i) ∷ m) = ground (arith, settlements-reject_all n m)

pub settlements-notify :
    (n : ℕ) (fns : List ℕ) (payload : _) → settlements n (map (λ fn. notify fn payload) fns) ≡ 0
settlements-notify n [] payload = refl
settlements-notify n (fn ∷ fns) payload = settlements-notify n fns payload

pub count-append : (n : ℕ) (xs ys : List ℕ) → count n (xs ++ ys) ≡ count n xs + count n ys
count-append n [] ys = omega arith
count-append n (x ∷ xs) ys = ground (arith, count-append n xs ys)

module _ {ℓ} {V : Type ℓ} where
  pub count-keys-delete :
      (n j : ℕ) (t : Map ℕ V)
      → count j (keys (delete n t)) ≡ (if nat_beq n j then 0 else count j (keys t))
  unfolding delete
  count-keys-delete n j [] = ground arith
  count-keys-delete n j ((i, v) ∷ t) = ground (arith, count-keys-delete n j t)

  pub count-keys-set_absent :
      (n j : ℕ) (v : V) (t : Map ℕ V)
      → count n (keys t) ≡ 0
      → count j (keys (set n v t)) ≡ count j (keys t) + (if nat_beq n j then 1 else 0)
  unfolding set
  count-keys-set_absent n j v [] h = ground arith
  count-keys-set_absent n j v ((i, w) ∷ t) h = ground (arith, count-keys-set_absent n j v t)

  pub count_of_get : (n : ℕ) (t : Map ℕ V) (v : V) → get n t ≡ some v → 0 < count n (keys t)
  unfolding get
  count_of_get n [] v h = absurd (cc)
  count_of_get n ((i, w) ∷ t) v h = ground (arith, count_of_get n t v)

pub count-keys-clear_all :
    (ns : List ℕ) (j : ℕ) (t : Map ℕ Str)
    → count j (keys (clear_all ns t)) ≡ (if ltb 0 (count j ns) then 0 else count j (keys t))
unfolding clear_all
count-keys-clear_all [] j t = refl
count-keys-clear_all (n ∷ ns) j t =
    ground (arith, count-keys-clear_all ns j (delete n t), count-keys-delete n j t)

pub count-values-delete :
    (n j : ℕ) (m : Map Str ℕ)
    → IsKeyed m
    → count j (values (delete (decimal n) m)) ≡ (if nat_beq n j then 0 else count j (values m))
unfolding delete
count-values-delete n j [] h = ground arith
count-values-delete n j ((k, i) ∷ m) (h, hs) =
    ground (arith, count-values-delete n j m hs, str_beq_iff k (decimal n), decimal_injective i n)

pub key_of_get : (k : Str) (m : Map Str ℕ) (n : ℕ) → IsKeyed m → get k m ≡ some n → k ≡ decimal n
unfolding get
key_of_get k [] n h e = absurd (cc)
key_of_get k ((j, i) ∷ m) n (h, hs) e = ground (arith, key_of_get k m n hs, str_beq_iff j k)

pub count_values_of_get :
    (k : Str) (m : Map Str ℕ) (n : ℕ) → get k m ≡ some n → 0 < count n (values m)
unfolding get
count_values_of_get k [] n e = absurd (cc)
count_values_of_get k ((j, i) ∷ m) n e = ground (arith, count_values_of_get k m n)

pub get_of_count :
    (n : ℕ) (m : Map Str ℕ) → IsKeyed m → count n (values m) ≡ 0 → get (decimal n) m ≡ none
unfolding get
get_of_count n [] h e = refl
get_of_count n ((k, i) ∷ m) (h, hs) e =
    ground (arith, get_of_count n m hs, str_beq_iff k (decimal n), decimal_injective i n)

pub delete-IsKeyed : (k : Str) (m : Map Str ℕ) → IsKeyed m → IsKeyed (delete k m)
unfolding delete
delete-IsKeyed k [] h = tt
delete-IsKeyed k ((j, i) ∷ m) (h, hs) = ground (arith, delete-IsKeyed k m hs)

values-append : (m : Map Str ℕ) (k : Str) (n : ℕ) → values (m ++ (k, n) ∷ []) ≡ (values m ++ n ∷ [])
values-append [] k n = refl
values-append ((j, i) ∷ m) k n = ap (◌∷◌ i) (values-append m k n)

module _ (n : ℕ) (m : Map Str ℕ) (keyed : IsKeyed m) (fresh : count n (values m) ≡ 0) where
  appended : set (decimal n) n m ≡ (m ++ (decimal n, n) ∷ [])
  appended = set_absent (decimal n) n m (get_of_count n m keyed fresh)

  pub set-IsKeyed : IsKeyed (set (decimal n) n m)
  set-IsKeyed = rw appended (All-append _ m ((decimal n, n) ∷ []) keyed (refl, tt))

  pub count-values-set :
      (j : ℕ)
      → count j (values (set (decimal n) n m)) ≡ count j (values m) + (if nat_beq n j then 1 else 0)
  count-values-set j =
      rw (appended, values-append m (decimal n) n, count-append j (values m) (n ∷ []))
        (ground arith)

pub get-decimal :
    (n : ℕ) (m : Map Str ℕ)
    → IsKeyed m
    → get (decimal n) m ≡ (if ltb 0 (count n (values m)) then some n else none)
unfolding get
get-decimal n [] h = refl
get-decimal n ((k, i) ∷ m) (h, hs) =
    ground (arith, get-decimal n m hs, str_beq_iff k (decimal n), decimal_injective i n)
