-- ===== src/Router/Sharing.antt =====
-- Whom an event reaches, and that nothing stays attached to the socket.
use code_quest.Common.{
  ℕ, ◌+◌, ◌≡◌, refl, ap, ◌∙◌, false, List, [], ◌∷◌, ◌++◌, append-nil, length, Option, none, some,
  Str, if◌then◌else◌, str_eq, str_beq_iff, nat_eq, nat_beq_iff, arith, Option-cases, inl, inr,
}
use code_quest.Common.Map.{Map, get, get-set, get-delete}
use code_quest.Common.Keys.{add, remove}
use code_quest.Router.Defs.{
  EventRegistration, Router, new, add_listener, is_empty, remove_listener, dispose, listeners_of,
  fire_each, fire, Step, subscribes, unsubscribes, registers, unregisters, register, unregister,
  disposes, step, run,
}
use code_quest.Router.Wanted.{
  bounds_of, bounds_in, listeners_in, joined, parted, wanted_after, wanted, IsShared,
  bounds_of-append, bounds_of-off, bounds_of-off_all,
}

is_empty-add : (l : ℕ) (ls : List ℕ) → is_empty (add l ls) ≡ false
unfolding add
is_empty-add l [] = refl
is_empty-add l (m ∷ ls) = ground arith

add-IsShared :
    (event : Str) (ls : List ℕ) (r : Router) (e : Str) (l : ℕ)
    → IsShared event ls r
    → IsShared event (wanted_after event ls (subscribes e l)) (add_listener r e l)
unfolding add_listener add
add-IsShared event ls r e l h = elim (Option-cases (get e r.events)) [
  | inl k ↦
      let fresh : EventRegistration = record { listeners = l ∷ []; bound = r.next_bound } in
      record {
        attached_is = ground (
          arith,
          k,
          h.attached_is,
          str_beq_iff e event,
          get-set e event fresh r.events,
          bounds_of-append event r.attached ((e, r.next_bound) ∷ []),
        );
        listeners_are = ground (
          arith,
          k,
          h.listeners_are,
          h.kept,
          is_empty-add l ls,
          str_beq_iff e event,
          get-set e event fresh r.events,
        );
        kept = ground (
          arith,
          k,
          h.kept,
          is_empty-add l ls,
          str_beq_iff e event,
          get-set e event fresh r.events,
        );
      }
  | inr (x, k) ↦
      let more : EventRegistration = record x { listeners = add l x.listeners } in
      record {
        attached_is =
            ground (arith, k, h.attached_is, str_beq_iff e event, get-set e event more r.events);
        listeners_are =
            ground (arith, k, h.listeners_are, str_beq_iff e event, get-set e event more r.events);
        kept = ground (
          arith,
          k,
          h.kept,
          is_empty-add l ls,
          str_beq_iff e event,
          get-set e event more r.events,
        );
      }
]

remove-IsShared :
    (event : Str) (ls : List ℕ) (r : Router) (e : Str) (l : ℕ)
    → IsShared event ls r
    → IsShared event (wanted_after event ls (unsubscribes e l)) (remove_listener r e l)
unfolding remove_listener remove
remove-IsShared event ls r e l h = elim (Option-cases (get e r.events)) [
  | inl k ↦ record {
    attached_is = ground (arith, k, h.attached_is);
    listeners_are = ground (arith, k, h.listeners_are, str_beq_iff e event);
    kept = ground (arith, k, h.kept, h.listeners_are, str_beq_iff e event);
  }
  | inr (x, k) ↦
      let less : EventRegistration = record x { listeners = remove l x.listeners } in
      record {
        attached_is = ground (
          arith,
          k,
          h.attached_is,
          str_beq_iff e event,
          get-set e event less r.events,
          get-delete e event r.events,
          bounds_of-off event e x.bound r.attached,
        );
        listeners_are = ground (
          arith,
          k,
          h.listeners_are,
          str_beq_iff e event,
          get-set e event less r.events,
          get-delete e event r.events,
        );
        kept = ground (
          arith,
          k,
          h.kept,
          h.listeners_are,
          str_beq_iff e event,
          get-set e event less r.events,
          get-delete e event r.events,
        );
      }
]

register-IsShared :
    (event : Str) (es : List Str) (n : ℕ) (ls : List ℕ) (r : Router)
    → IsShared event ls r
    → IsShared event (joined event ls es n) (register r es n)
unfolding register
register-IsShared event [] n ls r h = h
register-IsShared event (e ∷ es) n ls r h =
    register-IsShared event es (n + 1) (wanted_after event ls (subscribes e n)) (add_listener r e n)
      (add-IsShared event ls r e n h)

unregister-IsShared :
    (event : Str) (es : List Str) (n : ℕ) (ls : List ℕ) (r : Router)
    → IsShared event ls r
    → IsShared event (parted event ls es n) (unregister r es n)
unfolding unregister
unregister-IsShared event [] n ls r h = h
unregister-IsShared event (e ∷ es) n ls r h =
    unregister-IsShared event es (n + 1) (wanted_after event ls (unsubscribes e n))
      (remove_listener r e n) (remove-IsShared event ls r e n h)

dispose-IsShared :
    (event : Str) (ls : List ℕ) (r : Router) → IsShared event ls r → IsShared event [] (dispose r)
unfolding dispose get
dispose-IsShared event ls r h = record {
  attached_is = bounds_of-off_all event r.events r.attached h.attached_is;
  listeners_are = refl;
  kept = refl;
}

run-IsShared :
    (event : Str) (steps : List Step) (ls : List ℕ) (r : Router)
    → IsShared event ls r
    → IsShared event (wanted event ls steps) (run r steps)
unfolding run step
run-IsShared event [] ls r h = h
run-IsShared event (subscribes e l ∷ steps) ls r h =
    run-IsShared event steps (wanted_after event ls (subscribes e l)) (add_listener r e l)
      (add-IsShared event ls r e l h)
run-IsShared event (unsubscribes e l ∷ steps) ls r h =
    run-IsShared event steps (wanted_after event ls (unsubscribes e l)) (remove_listener r e l)
      (remove-IsShared event ls r e l h)
run-IsShared event (registers es n ∷ steps) ls r h =
    run-IsShared event steps (joined event ls es n) (register r es n)
      (register-IsShared event es n ls r h)
run-IsShared event (unregisters es n ∷ steps) ls r h =
    run-IsShared event steps (parted event ls es n) (unregister r es n)
      (unregister-IsShared event es n ls r h)
run-IsShared event (disposes ∷ steps) ls r h =
    run-IsShared event steps [] (dispose r) (dispose-IsShared event ls r h)

flat : Option EventRegistration → List ℕ → List ℕ
flat o [] = []
flat o (b ∷ bs) = listeners_of o b ++ flat o bs

fire_each-flat :
    (events : Map Str EventRegistration) (event : Str) (xs : List (Str × ℕ))
    → fire_each events event xs ≡ flat (get event events) (bounds_of event xs)
unfolding fire_each flat
fire_each-flat events event [] = refl
fire_each-flat events event ((e, b) ∷ xs) = ground (arith, fire_each-flat events event xs)

flat-bounds_in : (o : Option EventRegistration) → flat o (bounds_in o) ≡ listeners_in o
unfolding flat
flat-bounds_in none = refl
flat-bounds_in (some x) = ground (arith, nat_beq_iff x.bound x.bound, append-nil x.listeners)

-- However listeners and maps of handlers are subscribed, taken back and disposed of, also twice: an
-- event reaches exactly
-- the listeners that are subscribed to it at that time, each once and in the order in which they
-- came; and the socket has one function for an event that has listeners, and none for another, so
-- that nothing stays attached.
pub fire-wanted :
    (steps : List Step) (event : Str)
    → (fire (run new steps) event ≡ wanted event [] steps)
      × (length (bounds_of event (run new steps).attached)
          ≡ (if is_empty (wanted event [] steps) then 0 else 1))
unfolding fire new get
fire-wanted steps event =
    let start : IsShared event [] new = record {
      attached_is = refl;
      listeners_are = refl;
      kept = refl;
    } in
    let h = run-IsShared event steps [] new start in
    let r = run new steps in
    (
      fire_each-flat r.events event r.attached
          ∙ ap (flat (get event r.events)) h.attached_is
          ∙ flat-bounds_in (get event r.events)
          ∙ h.listeners_are,
      ap length h.attached_is ∙ h.kept,
    )
