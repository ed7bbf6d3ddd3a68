-- ===== src/Router/Defs.antt =====
-- The router's state and operations. A listener, with the guard that `subscribe` wraps around it, is
-- known by its number, and so is the function that is attached to the socket for an event.
use code_quest.Common.{
  ℕ, ◌+◌, Bool, true, false, not, ◌&&◌, ◌||◌, List, [], ◌∷◌, ◌++◌, Option, none, some, Str,
  if◌then◌else◌, str_eq, nat_eq, ◌==◌, nat_beq, str_beq,
}
use code_quest.Common.Map.{Map, get, set, delete}
use code_quest.Common.Keys.{add, remove, member}

pub record EventRegistration : Type 0 where
  pub listeners : List ℕ
  pub bound : ℕ

-- `attached` is what the adapter has: the functions that are attached, with their events.
pub record Router : Type 0 where
  pub events : Map Str EventRegistration
  pub attached : List (Str × ℕ)
  pub next_bound : ℕ

unfoldable pub new : Router
new = record { events = []; attached = []; next_bound = 0 }

-- `adapter.off`
unfoldable pub off : Str → ℕ → List (Str × ℕ) → List (Str × ℕ)
off event bound [] = []
off event bound ((e, b) ∷ rest) =
    let left = off event bound rest in
    if str_beq e event && nat_beq b bound then left else (e, b) ∷ left

unfoldable pub add_listener : Router → Str → ℕ → Router
add_listener r event listener = elim (get event r.events) [
  | some entry ↦ record r {
    events = set event (record entry { listeners = add listener entry.listeners }) r.events;
  }
  | none ↦ record {
    events = set event (record { listeners = listener ∷ []; bound = r.next_bound }) r.events;
    attached = r.attached ++ (event, r.next_bound) ∷ [];
    next_bound = r.next_bound + 1;
  }
]

abbrev pub is_empty : List ℕ → Bool
is_empty [] = true
is_empty (_ ∷ _) = false

unfoldable pub remove_listener : Router → Str → ℕ → Router
unfolding off
remove_listener r event listener = elim (get event r.events) [
  | none ↦ r
  | some entry ↦
      let left = remove listener entry.listeners in
      if is_empty left
      then record r { events = delete event r.events; attached = off event entry.bound r.attached }
      else record r { events = set event (record entry { listeners = left }) r.events }
]

unfoldable pub off_all : Map Str EventRegistration → List (Str × ℕ) → List (Str × ℕ)
unfolding off
off_all [] attached = attached
off_all ((event, entry) ∷ events) attached = off_all events (off event entry.bound attached)

unfoldable pub dispose : Router → Router
unfolding off_all
dispose r = record r { events = []; attached = off_all r.events r.attached }

-- The socket calls what is attached for an event; each function calls its listeners, in order.
abbrev pub listeners_of : Option EventRegistration → ℕ → List ℕ
listeners_of none bound = []
listeners_of (some entry) bound = if nat_beq entry.bound bound then entry.listeners else []

unfoldable pub fire_each : Map Str EventRegistration → Str → List (Str × ℕ) → List ℕ
fire_each events event [] = []
fire_each events event ((e, b) ∷ rest) =
    let later = fire_each events event rest in
    if str_beq e event then listeners_of (get event events) b ++ later else later

unfoldable pub fire : Router → Str → List ℕ
unfolding fire_each
fire r event = fire_each r.events event r.attached

abbrev pub is_blank : Str → Bool
is_blank [] = true
is_blank (_ ∷ _) = false

-- the guard of a listener, with `matchesChannel`
unfoldable pub passes : (guarded : Bool) → (channel_id : Str) → (payload_channel : Str) → Bool
passes guarded channel_id payload_channel =
    not guarded || payload_channel == channel_id || is_blank payload_channel

unfoldable pub add_all : List Str → List Str → List Str
unfolding add
add_all [] events = events
add_all (event ∷ more) events = add_all more (add event events)

-- the events of `register`: the keys of the handlers of the state and of those of effects
unfoldable pub handled_events : (handlers effects : List Str) → List Str
unfolding add_all
handled_events handlers effects = add_all (handlers ++ effects) []

-- Each event gets a listener of its own; they are numbered from `listener` on.
unfoldable pub register : Router → (events : List Str) → (listener : ℕ) → Router
unfolding add_listener
register r [] listener = r
register r (event ∷ events) listener =
    register (add_listener r event listener) events (listener + 1)

-- the function that `register` returns
unfoldable pub unregister : Router → (events : List Str) → (listener : ℕ) → Router
unfolding remove_listener
unregister r [] listener = r
unregister r (event ∷ events) listener =
    unregister (remove_listener r event listener) events (listener + 1)

pub data HandlerCall : Type 0 where
  before_update side_effect : (event : Str) → HandlerCall

module _ {S P : Type 0} where
  abbrev pub updated : Option (S → P → S) → P → S → S
  updated none payload state = state
  updated (some handler) payload state = handler state payload

  -- `handleEvent`: the new state, and what is called besides the handler of the state
  unfoldable pub handle_event :
      (before : Bool)
      → Map Str (S → P → S)
      → (effects : List Str) → (event : Str) → P
      → S
      → S × List HandlerCall
  handle_event before handlers effects event payload state = (
    updated (get event handlers) payload state,
    (if before then before_update event ∷ [] else [])
        ++ (if member event effects then side_effect event ∷ [] else []),
  )

pub data Step : Type 0 where
  subscribes : (event : Str) → (listener : ℕ) → Step
  unsubscribes : (event : Str) → (listener : ℕ) → Step
  registers : (events : List Str) → (listener : ℕ) → Step
  unregisters : (events : List Str) → (listener : ℕ) → Step
  disposes : Step

unfoldable pub step : Router → Step → Router
unfolding add_listener remove_listener register unregister dispose
step r (subscribes event listener) = add_listener r event listener
step r (unsubscribes event listener) = remove_listener r event listener
step r (registers events listener) = register r events listener
step r (unregisters events listener) = unregister r events listener
step r disposes = dispose r

unfoldable pub run : Router → List Step → Router
unfolding step
run r [] = r
run r (s ∷ steps) = run (step r s) steps
