-- ===== src/Hub/Recorder/Defs.antt =====
-- The recorder's state and steps.
use code_quest.Common.{
  ℕ, zero, suc, Bool, true, false, ◌&&◌, List, [], ◌∷◌, ◌++◌, Option, none, some, Str,
  if◌then◌else◌, str_eq, ◌==◌, leb, length, shift, is_some,
}
use code_quest.Common.Text.{lit}
use code_quest.Common.Json.{Json, str, obj, prop}

pub data Direction : Type 0 where
  stdin stdout stderr : Direction

pub record Event : Type 0 where
  pub raw : Str
  -- what `JSON.parse` gives, `none` if it throws
  pub parsed : Option Json
  pub direction : Direction
  pub timestamp : ℕ

abbrev is_str : Str → Option Json → Bool
is_str s (some (str t)) = t == s
is_str s _ = false

abbrev has_type : Str → Option Json → Bool
has_type s (some (obj fields)) = is_str s (prop (lit "type") fields)
has_type s _ = false

abbrev event_of : Option Json → Option Json
event_of (some (obj fields)) = prop (lit "event") fields
event_of _ = none

-- a stream event with a piece of a content block
unfoldable pub is_delta : Event → Bool
is_delta e =
    has_type (lit "stream_event") e.parsed
    && has_type (lit "content_block_delta") (event_of e.parsed)

abbrev is_in : Direction → Bool
is_in stdin = true
is_in stdout = false
is_in stderr = false

unfoldable pub is_user_stdin : Event → Bool
is_user_stdin e = is_in e.direction && has_type (lit "user") e.parsed

-- what the store is handed
pub data Entry : Type 0 where
  event : Event → (session : Str) → Entry
  delta : (parent : Option ℕ) → Event → (session : Str) → Entry

-- What a task does when the store has answered: it goes on with the buffer behind a place, and then
-- with the line that started it, or it has come to that line.
pub data Rest : Type 0 where
  flushing : (at : ℕ) → (next : Event) → Rest
  finishing : Rest

pub record Task : Type 0 where
  pub session : Str
  pub current : Event
  -- the number of the current line in the store, if it was handed over as an event
  pub id : Option ℕ
  pub rest : Rest

pub record Recorder : Type 0 where
  pub session_id : Option Str
  pub current_turn_root : Option ℕ
  pub pending_drop_warned : Bool
  pub pending_events : List Event
  pub tasks : List Task
  pub store : List Entry

abbrev pub pending_cap : ℕ
pending_cap = 1000

abbrev pub nth : ℕ → List Event → Option Event
nth n [] = none
nth zero (e ∷ es) = some e
nth (suc n) (e ∷ es) = nth n es

abbrev pub task_at : ℕ → List Task → Option Task
task_at n [] = none
task_at zero (t ∷ ts) = some t
task_at (suc n) (t ∷ ts) = task_at n ts

abbrev pub put : ℕ → Option Task → List Task → List Task
put n later [] = []
put zero none (t ∷ ts) = ts
put zero (some u) (t ∷ ts) = u ∷ ts
put (suc n) later (t ∷ ts) = t ∷ put n later ts

unfoldable pub new : Recorder
new = record {
  session_id = none;
  current_turn_root = none;
  pending_drop_warned = false;
  pending_events = [];
  tasks = [];
  store = [];
}

module _ (write_deltas : Bool) where
  -- `persistOne` up to its wait
  unfoldable pub begin : Recorder → Event → (session : Str) → Recorder × Option ℕ
  unfolding is_delta
  begin r e session =
      if is_delta e
      then (
        (if write_deltas
            then record r { store = r.store ++ delta r.current_turn_root e session ∷ [] }
            else r),
        none,
      )
      else (record r { store = r.store ++ event e session ∷ [] }, some (length r.store))

  abbrev pub started : Recorder × Option ℕ → Event → Str → Rest → Recorder × Task
  started (r, id) e session rest =
      (r, record { session = session; current = e; id = id; rest = rest })

  -- the task goes on
  unfoldable pub go_on : Recorder → Task → Recorder × Option Task
  unfolding begin
  go_on r t = elim t.rest [
    | finishing ↦ (r, none)
    | flushing at next ↦ elim (nth (suc at) r.pending_events) [
      | some e ↦
          let (s, u) = started (begin r e t.session) e t.session (flushing (suc at) next) in
          (s, some u)
      | none ↦
          let (s, u) =
            started (begin (record r { pending_events = [] }) next t.session) next t.session
              finishing in
          (s, some u)
    ]
  ]

  -- `persistOne` behind its wait; `ok` tells whether the store has taken the line.
  unfoldable pub rooted : Bool → Task → Recorder → Recorder
  unfolding is_user_stdin
  rooted ok t r =
      if ok && is_some t.id && is_user_stdin t.current
      then record r { current_turn_root = t.id }
      else r

  -- The store answers the `n`th of the tasks, which goes on.
  unfoldable pub progress : Bool → ℕ → Recorder → Recorder
  unfolding rooted go_on
  progress ok n r = elim (task_at n r.tasks) [
    | none ↦ r
    | some t ↦ let (s, later) = go_on (rooted ok t r) t in record s { tasks = put n later s.tasks }
  ]

  abbrev pub add_task : Recorder × Task → Recorder
  add_task (r, t) = record r { tasks = r.tasks ++ t ∷ [] }

  abbrev pub buffered : Recorder → Event → Recorder
  buffered r e =
      if leb pending_cap (length r.pending_events)
      then record r {
        pending_events = shift r.pending_events ++ e ∷ [];
        pending_drop_warned = true;
      }
      else record r { pending_events = r.pending_events ++ e ∷ [] }

  unfoldable pub record_for : Recorder → Event → (session : Str) → Recorder
  unfolding begin
  record_for r next session = elim r.pending_events [
    | [] ↦ add_task (started (begin r next session) next session finishing)
    | e ∷ es ↦ add_task (started (begin r e session) e session (flushing 0 next))
  ]

  -- A session's id that is empty counts as none.
  unfoldable pub record_raw : Recorder → Event → Recorder
  unfolding record_for
  record_raw r e = elim r.session_id [
    | none ↦ buffered r e
    | some session ↦ elim session [ [] ↦ buffered r e | c ∷ id ↦ record_for r e (c ∷ id) ]
  ]
