-- ===== src/Router/Wanted.antt =====
-- What is attached to the socket for an event, and which listeners it should have after some steps.
use code_quest.Common.{
  ℕ, ◌+◌, ◌≡◌, refl, List, [], ◌∷◌, ◌++◌, length, Option, none, some, Str, if◌then◌else◌, str_eq,
  str_beq, str_beq_iff, nat_eq, nat_beq, arith, Bool-cases, inl, inr,
}
use code_quest.Common.Map.{Map, get}
use code_quest.Common.Keys.{add, remove}
use code_quest.Router.Defs.{
  EventRegistration, Router, off, is_empty, off_all, Step, subscribes, unsubscribes, registers,
  unregisters, disposes,
}

-- the functions attached for an event
abbrev pub bounds_of : Str → List (Str × ℕ) → List ℕ
bounds_of event [] = []
bounds_of event ((e, b) ∷ rest) =
    let left = bounds_of event rest in if str_beq e event then b ∷ left else left

abbrev pub bounds_in : Option EventRegistration → List ℕ
bounds_in none = []
bounds_in (some entry) = entry.bound ∷ []

abbrev pub listeners_in : Option EventRegistration → List ℕ
listeners_in none = []
listeners_in (some entry) = entry.listeners

-- The listeners of an event, when the events of a list got or lose listeners numbered from `n` on.
abbrev pub joined : Str → List ℕ → List Str → ℕ → List ℕ
joined event ls [] n = ls
joined event ls (e ∷ es) n = joined event (if str_beq e event then add n ls else ls) es (n + 1)

abbrev pub parted : Str → List ℕ → List Str → ℕ → List ℕ
parted event ls [] n = ls
parted event ls (e ∷ es) n = parted event (if str_beq e event then remove n ls else ls) es (n + 1)

-- The listeners that are subscribed to an event after the steps.
abbrev pub wanted_after : Str → List ℕ → Step → List ℕ
wanted_after event ls (subscribes e l) = if str_beq e event then add l ls else ls
wanted_after event ls (unsubscribes e l) = if str_beq e event then remove l ls else ls
wanted_after event ls (registers es n) = joined event ls es n
wanted_after event ls (unregisters es n) = parted event ls es n
wanted_after event ls disposes = []

abbrev pub wanted : Str → List ℕ → List Step → List ℕ
wanted event ls [] = ls
wanted event ls (s ∷ steps) = wanted event (wanted_after event ls s) steps

-- Exactly the function of the registration is attached, and its listeners are those that are wanted.
pub record IsShared (event : Str) (ls : List ℕ) (r : Router) : Type 0 where
  pub attached_is : bounds_of event r.attached ≡ bounds_in (get event r.events)
  pub listeners_are : listeners_in (get event r.events) ≡ ls
  pub kept : length (bounds_in (get event r.events)) ≡ (if is_empty ls then 0 else 1)

pub bounds_of-append :
    (event : Str) (xs ys : List (Str × ℕ))
    → bounds_of event (xs ++ ys) ≡ (bounds_of event xs ++ bounds_of event ys)
bounds_of-append event [] ys = refl
bounds_of-append event ((e, b) ∷ xs) ys = ground (arith, bounds_of-append event xs ys)

abbrev drop_bound : ℕ → List ℕ → List ℕ
drop_bound b [] = []
drop_bound b (c ∷ cs) = let left = drop_bound b cs in if nat_beq c b then left else c ∷ left

pub bounds_of-off :
    (event e : Str) (b : ℕ) (xs : List (Str × ℕ))
    → bounds_of event (off e b xs)
      ≡ (if str_beq e event then drop_bound b (bounds_of event xs) else bounds_of event xs)
unfolding off
bounds_of-off event e b [] = ground arith
bounds_of-off event e b ((f, c) ∷ xs) =
    ground
      (arith, bounds_of-off event e b xs, str_beq_iff f e, str_beq_iff f event, str_beq_iff e event)

bounds_of-off_all_none :
    (event : Str) (m : Map Str EventRegistration) (xs : List (Str × ℕ))
    → bounds_of event xs ≡ []
    → bounds_of event (off_all m xs) ≡ []
unfolding off_all
bounds_of-off_all_none event [] xs h = h
bounds_of-off_all_none event ((e, entry) ∷ m) xs h =
    bounds_of-off_all_none event m (off e entry.bound xs)
      (ground (arith, h, bounds_of-off event e entry.bound xs))

pub bounds_of-off_all :
    (event : Str) (m : Map Str EventRegistration) (xs : List (Str × ℕ))
    → bounds_of event xs ≡ bounds_in (get event m)
    → bounds_of event (off_all m xs) ≡ []
unfolding get off_all
bounds_of-off_all event [] xs h = h
bounds_of-off_all event ((e, entry) ∷ m) xs h = elim (Bool-cases (str_beq e event)) [
  | inl same ↦
      bounds_of-off_all_none event m (off e entry.bound xs)
        (ground (arith, h, same, bounds_of-off event e entry.bound xs))
  | inr apart ↦
      bounds_of-off_all event m (off e entry.bound xs)
        (ground (arith, h, apart, bounds_of-off event e entry.bound xs))
]
