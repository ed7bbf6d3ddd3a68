-- ===== src/Topics/Counting.antt =====
-- Subscriptions and their counts.
use code_quest.Common.{
  ℕ, zero, suc, ◌+◌, ◌-◌, ◌≡◌, refl, ◌↔◌, Bool, true, false, ◌&&◌, List, [], ◌∷◌, ◌++◌, Option,
  none, some, Str, if◌then◌else◌, str_eq, str_beq, str_beq_iff, or_default, leb, arith,
  Option-cases, inl, inr, is_some, ltb,
}
use code_quest.Common.Map.{Map, get, set, delete, get-set, get-delete}
use code_quest.Topics.Defs.{
  Entry, Closure, Emitter, new, renewed, subscribe, take_down, put_back, release, released,
  unsubscribe, has_subscribers, has_some,
}

abbrev pub matches : Str → Str → Closure → Bool
matches t i c = c.active && str_beq c.topic t && str_beq c.subscriber i

-- how many closures are active for a topic and a subscriber
abbrev pub active : Str → Str → List Closure → ℕ
active t i [] = 0
active t i (c ∷ cs) = (if matches t i c then 1 else 0) + active t i cs

abbrev pub count_of : Option Entry → ℕ
count_of none = 0
count_of (some e) = e.refcount

abbrev pub entry : Str → Str → Map Str (Map Str Entry) → Option Entry
entry t i subs = get i (or_default (get t subs) [])

active-append :
    (t i : Str) (cs ds : List Closure) → active t i (cs ++ ds) ≡ active t i cs + active t i ds
active-append t i [] ds = omega arith
active-append t i (c ∷ cs) ds = omega (arith, active-append t i cs ds)

abbrev was : Str → Str → Option (Str × Str) → ℕ
was t i none = 0
was t i (some (u, j)) = if str_beq u t && str_beq j i then 1 else 0

active-take_down :
    (t i : Str) (n : ℕ) (cs : List Closure)
    → active t i (take_down n cs).0 + was t i (take_down n cs).1 ≡ active t i cs
unfolding take_down
active-take_down t i n [] = ground arith
active-take_down t i zero (c ∷ cs) = ground arith
active-take_down t i (suc n) (c ∷ cs) = omega (arith, active-take_down t i n cs)

-- The count of an entry is the number of active closures, and an entry with no count is not kept.
pub record IsCounted (e : Emitter) : Type 0 where
  pub counted : (t i : Str) → count_of (entry t i e.subs) ≡ active t i e.closures
  pub kept : (t i : Str) → is_some (entry t i e.subs) ≡ ltb 0 (count_of (entry t i e.subs))

entry-subscribe :
    (e : Emitter) (t i : Str) (cb : ℕ) (u j : Str)
    → entry u j (subscribe e t i cb).subs ≡ (
        if str_beq t u && str_beq i j
        then some (renewed cb (entry t i e.subs))
        else entry u j e.subs)
unfolding subscribe
entry-subscribe e t i cb u j =
    let m = or_default (get t e.subs) [] in
    ground (
      arith,
      str_beq_iff t u,
      get-set t u (set i (renewed cb (get i m)) m) e.subs,
      get-set i j (renewed cb (get i m)) m,
    )

closures-subscribe :
    (e : Emitter) (t i : Str) (cb : ℕ) (u j : Str)
    → active u j (subscribe e t i cb).closures
      ≡ active u j e.closures + (if str_beq t u && str_beq i j then 1 else 0)
unfolding subscribe
closures-subscribe e t i cb u j = ground (
  arith,
  active-append u j e.closures ((record { topic = t; subscriber = i; active = true }) ∷ []),
)

subscribe-IsCounted :
    (e : Emitter) (t i : Str) (cb : ℕ) → IsCounted e → IsCounted (subscribe e t i cb)
subscribe-IsCounted e t i cb c = record {
  counted = λ u j. ground (
    arith,
    entry-subscribe e t i cb u j,
    closures-subscribe e t i cb u j,
    c.counted u j,
    c.counted t i,
    str_beq_iff t u,
    str_beq_iff i j,
  );
  kept = λ u j.
      ground (arith, entry-subscribe e t i cb u j, c.kept u j, str_beq_iff t u, str_beq_iff i j);
}

entry-put_back :
    (t : Str) (m : Map Str Entry) (subs : Map Str (Map Str Entry)) (u j : Str)
    → entry u j (put_back t m subs) ≡ (if str_beq t u then get j m else entry u j subs)
unfolding get
entry-put_back t [] subs u j = ground (arith, get-delete t u subs)
entry-put_back t ((k, x) ∷ m) subs u j = ground (arith, get-set t u ((k, x) ∷ m) subs)

get_empty : (k : Str) → get {V = Entry} k [] ≡ none
unfolding get
get_empty k = refl

lowered : Option Entry → Option Entry
lowered none = none
lowered (some x) = if leb x.refcount 1 then none else some (record x { refcount = x.refcount - 1 })

entry-release :
    (subs : Map Str (Map Str Entry)) (t i u j : Str)
    → entry u j (release t i subs)
      ≡ (if str_beq t u && str_beq i j then lowered (entry t i subs) else entry u j subs)
unfolding release lowered
entry-release subs t i u j = elim (Option-cases (get t subs)) [
  | inl h ↦ ground (arith, h, str_beq_iff t u, get_empty i, get_empty j)
  | inr (m, h) ↦ elim (Option-cases (get i m)) [
    | inl k ↦ ground (arith, h, k, str_beq_iff t u, str_beq_iff i j)
    | inr (x, k) ↦
        let less = record x { refcount = x.refcount - 1 } in
        ground (
          arith,
          h,
          k,
          str_beq_iff t u,
          str_beq_iff i j,
          entry-put_back t (delete i m) subs u j,
          get-delete i j m,
          get-set t u (set i less m) subs,
          get-set i j less m,
        )
  ]
]

count-lowered : (o : Option Entry) → count_of (lowered o) ≡ count_of o - 1
unfolding lowered
count-lowered none = omega arith
count-lowered (some x) = ground arith

kept-lowered : (o : Option Entry) → is_some (lowered o) ≡ ltb 0 (count_of (lowered o))
unfolding lowered
kept-lowered none = refl
kept-lowered (some x) = ground arith

none_of :
    (o : Option (Map Str Entry)) (i : Str)
    → has_some o ≡ false
    → count_of (get i (or_default o [])) ≡ 0
unfolding get
none_of none i h = refl
none_of (some []) i h = refl
none_of (some (x ∷ m)) i h = ground (arith, h)

some_of :
    (o : Option (Map Str Entry))
    → ((i : Str) → is_some (get i (or_default o [])) ≡ false)
    → has_some o ≡ false
unfolding get
some_of none h = refl
some_of (some []) h = refl
some_of (some ((k, x) ∷ m)) h = ground (arith, h k, str_beq_iff k k)

count-released :
    (found : Option (Str × Str)) (subs : Map Str (Map Str Entry)) (u j : Str)
    → count_of (entry u j (released found subs)) ≡ count_of (entry u j subs) - was u j found
unfolding released
count-released none subs u j = omega arith
count-released (some (t, i)) subs u j = ground (
  arith,
  entry-release subs t i u j,
  str_beq_iff t u,
  str_beq_iff i j,
  count-lowered (entry t i subs),
)

kept-released :
    (found : Option (Str × Str)) (subs : Map Str (Map Str Entry)) (u j : Str)
    → is_some (entry u j subs) ≡ ltb 0 (count_of (entry u j subs))
    → is_some (entry u j (released found subs)) ≡ ltb 0 (count_of (entry u j (released found subs)))
unfolding released
kept-released none subs u j h = h
kept-released (some (t, i)) subs u j h = ground (
  arith,
  h,
  entry-release subs t i u j,
  str_beq_iff t u,
  str_beq_iff i j,
  kept-lowered (entry t i subs),
)

unsubscribe-IsCounted : (e : Emitter) (n : ℕ) → IsCounted e → IsCounted (unsubscribe e n)
unfolding unsubscribe
unsubscribe-IsCounted e n c = record {
  counted = λ u j. omega (
    arith,
    c.counted u j,
    active-take_down u j n e.closures,
    count-released (take_down n e.closures).1 e.subs u j,
  );
  kept = λ u j. kept-released (take_down n e.closures).1 e.subs u j (c.kept u j);
}

pub data Step : Type 0 where
  subscribes : (topic subscriber : Str) → (cb : ℕ) → Step
  unsubscribes : ℕ → Step

unfoldable pub run : Emitter → List Step → Emitter
run e [] = e
run e (subscribes t i cb ∷ steps) = run (subscribe e t i cb) steps
run e (unsubscribes n ∷ steps) = run (unsubscribe e n) steps

run-IsCounted : (e : Emitter) (steps : List Step) → IsCounted e → IsCounted (run e steps)
unfolding run
run-IsCounted e [] c = c
run-IsCounted e (subscribes t i cb ∷ steps) c =
    run-IsCounted (subscribe e t i cb) steps (subscribe-IsCounted e t i cb c)
run-IsCounted e (unsubscribes n ∷ steps) c =
    run-IsCounted (unsubscribe e n) steps (unsubscribe-IsCounted e n c)

new-IsCounted : IsCounted new
unfolding new get
new-IsCounted = record { counted = λ t i. refl; kept = λ t i. refl }

-- However subscriptions are made and released, also when a closure is called several times: the
-- count of each subscriber of a topic is the number of its closures for it that were not called
-- yet; and it has an entry, which `publish` calls, exactly if that number is not 0.
pub refcount-run :
    (steps : List Step) (t i : Str)
    → (count_of (entry t i (run new steps).subs) ≡ active t i (run new steps).closures)
      × (is_some (entry t i (run new steps).subs) ≡ ltb 0 (active t i (run new steps).closures))
refcount-run steps t i =
    let c = run-IsCounted new steps new-IsCounted in
    (c.counted t i, ground (arith, c.counted t i, c.kept t i))

-- A topic has no subscribers exactly if no closure for it is active.
pub has_subscribers-run :
    (steps : List Step) (t : Str)
    → (has_subscribers (run new steps) t ≡ false)
      ↔ ((i : Str) → active t i (run new steps).closures ≡ 0)
unfolding has_subscribers
has_subscribers-run steps t =
    let e = run new steps in
    let c = run-IsCounted new steps new-IsCounted in
    (
      λ h i. ground (arith, none_of (get t e.subs) i h, c.counted t i),
      λ h. some_of (get t e.subs) (λ i. ground (arith, c.counted t i, c.kept t i, h i)),
    )
