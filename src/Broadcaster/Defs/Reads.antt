-- ===== src/Broadcaster/Defs/Reads.antt =====
-- What broadcaster.ts does at a change, and when a read ends.
use code_quest.Common.{
  ℕ, ◌+◌, List, [], ◌∷◌, ◌++◌, Option, none, some, Str, if◌then◌else◌, str_eq, nat_eq, ◌==◌, filter,
  not,
}
use code_quest.Common.Map.{Map, get, set, delete, has}
use code_quest.Broadcaster.Defs.State.{
  TypeEntry, CwdEntry, Reason, changed, initial, Read, Waiter, Broadcaster, Effect, called, logged,
}
use code_quest.Broadcaster.Defs.Subscribing.{add_type, subscribe, unsubscribe}

-- an assignment to the entry of a type, where the directory has one
abbrev pub put_type : Broadcaster → Str → CwdEntry → Str → TypeEntry → Broadcaster
put_type b cwd e type entry = record b {
  entries = set cwd (record e { types = set type entry e.types }) b.entries;
}

-- The source of a type reports a change. A source that was stopped reports none.
unfoldable pub on_source_change : Broadcaster → Str → Str → Broadcaster
on_source_change b cwd type = elim (get cwd b.entries) [
  | none ↦ b
  | some e ↦ elim (get type e.types) [
    | none ↦ b
    | some entry ↦ elim entry.read_promise [
      | some _ ↦ b
      | none ↦ record (put_type b cwd e type (record entry { read_promise = some b.next_read })) {
        reads =
            set b.next_read (record { cwd = cwd; type = type; serial = e.serial; reason = changed })
              b.reads;
        next_read = b.next_read + 1;
      }
    ]
  ]
]

-- `typeEntry.readPromise = null`, on the entry that the read was started for
unfoldable pub clear_promise : Broadcaster → Read → Broadcaster
clear_promise b r = elim (get r.cwd b.entries) [
  | none ↦ b
  | some e ↦ elim (get r.type e.types) [
    | none ↦ b
    | some entry ↦
        if e.serial == r.serial
        then put_type b r.cwd e r.type (record entry { read_promise = none })
        else b
  ]
]

abbrev pub tell_all : Str → ℕ → Map Str ℕ → List Effect
tell_all type v [] = []
tell_all type v ((_, cb) ∷ subs) = called cb type v ∷ tell_all type v subs

-- whom the value of a read is told
unfoldable pub tell : Reason → Str → ℕ → Map Str ℕ → List Effect
tell changed type v subs = tell_all type v subs
tell (initial subscriber cb) type v subs = if has subscriber subs then called cb type v ∷ [] else []

-- The handler of a value: it looks the directory up again. An initial read tells its subscriber also
-- when the type is gone, which no step brings about.
unfoldable pub take_value : Broadcaster → Read → ℕ → Broadcaster × List Effect
unfolding tell
take_value b r v = elim (get r.cwd b.entries) [
  | none ↦ (b, [])
  | some e ↦ elim (get r.type e.types) [
    | none ↦ elim r.reason [ changed ↦ (b, []) | initial _ _ ↦ (b, tell r.reason r.type v e.subs) ]
    | some entry ↦
        (put_type b r.cwd e r.type (record entry { value = some v }), tell r.reason r.type v e.subs)
  ]
]

unfoldable pub settled_by : Option ℕ → Broadcaster → Read → Broadcaster × List Effect
unfolding take_value
settled_by (some v) b r = take_value b r v
settled_by none b r = (b, logged r.type ∷ [])

-- A read ends with a value, or fails; who waited for it comes next.
unfoldable pub settle : Broadcaster → ℕ → Option ℕ → Broadcaster × List Effect
unfolding clear_promise settled_by
settle b n outcome = elim (get n b.reads) [
  | none ↦ (b, [])
  | some r ↦
      let (c, told) = settled_by outcome (clear_promise b r) r in
      (
        record c {
          reads = delete n c.reads;
          waiting = filter (λ w. not (w.read == n)) c.waiting;
          ready = c.ready ++ filter (λ w. w.read == n) c.waiting;
        },
        told,
      )
]

abbrev pub wake_value : Waiter → Option TypeEntry → List Effect
wake_value w none = []
wake_value w (some entry) = elim entry.value [ none ↦ [] | some v ↦ called w.cb w.type v ∷ [] ]

unfoldable pub wake_one : Broadcaster → Waiter → List Effect
wake_one b w = elim (get w.cwd b.entries) [
  | none ↦ []
  | some e ↦ if has w.subscriber e.subs then wake_value w (get w.type e.types) else []
]

unfoldable pub wake_from : List Waiter → Broadcaster → Broadcaster × List Effect
unfolding wake_one
wake_from [] b = (b, [])
wake_from (w ∷ ws) b = (record b { ready = ws }, wake_one b w)

-- the turn of the first waiter that is ready
unfoldable pub wake : Broadcaster → Broadcaster × List Effect
unfolding wake_from
wake b = wake_from b.ready b

pub data Step : Type 0 where
  adds : (type : Str) → Step
  subscribes : (cwd subscriber : Str) → (cb : ℕ) → Step
  unsubscribes : (cwd subscriber : Str) → Step
  changes : (cwd type : Str) → Step
  settles : (read : ℕ) → Option ℕ → Step
  wakes : Step

unfoldable pub step : Broadcaster → Step → Broadcaster × List Effect
unfolding add_type subscribe unsubscribe on_source_change settle wake
step b (adds type) = (add_type b type, [])
step b (subscribes cwd subscriber cb) = subscribe b cwd subscriber cb
step b (unsubscribes cwd subscriber) = unsubscribe b cwd subscriber
step b (changes cwd type) = (on_source_change b cwd type, [])
step b (settles n outcome) = settle b n outcome
step b wakes = wake b

unfoldable pub run : Broadcaster → List Step → Broadcaster × List Effect
unfolding step
run b [] = (b, [])
run b (s ∷ steps) =
    let (c, effects) = step b s in let (d, later) = run c steps in (d, effects ++ later)
