-- ===== src/Broadcaster/Defs/Subscribing.antt =====
-- addType, subscribe and unsubscribe of broadcaster.ts.
use code_quest.Common.{
  ℕ, ◌+◌, Bool, true, false, List, [], ◌∷◌, ◌++◌, none, some, Str, if◌then◌else◌, str_eq, nat_eq,
  or_default, map,
}
use code_quest.Common.Map.{Map, get, set, delete}
use code_quest.Common.Keys.{add}
use code_quest.Broadcaster.Defs.State.{
  TypeEntry, CwdEntry, initial, Read, Waiter, Broadcaster, Effect, created, stopped, called,
}

-- `add`
unfoldable pub add_type : Broadcaster → Str → Broadcaster
add_type b type = record b { factories = add type b.factories }

abbrev pub fresh_entry : TypeEntry
fresh_entry = record { value = none; read_promise = none }

abbrev pub make_types : List Str → Map Str TypeEntry → Map Str TypeEntry
make_types [] types = types
make_types (t ∷ ts) types = make_types ts (set t fresh_entry types)

unfoldable pub init_cwd_entry : Broadcaster → Str → Broadcaster × List Effect
init_cwd_entry b cwd = (
  record b {
    entries =
        set cwd (record { serial = b.next_serial; types = make_types b.factories []; subs = [] })
          b.entries;
    next_serial = b.next_serial + 1;
  },
  map (created cwd) b.factories,
)

-- The parts of the state that `deliverInitial` changes, beside the entry of the type.
pub record Reading : Type 0 where
  pub reads : Map ℕ Read
  pub waiting : List Waiter
  pub next_read : ℕ
  pub effects : List Effect

unfoldable pub deliver_initial :
    (cwd : Str)
    → (serial : ℕ) → (subscriber : Str) → (cb : ℕ) → (type : Str) → TypeEntry
    → Reading
    → TypeEntry × Reading
deliver_initial cwd serial subscriber cb type entry r = elim entry.value [
  | some v ↦ (entry, record r { effects = r.effects ++ called cb type v ∷ [] })
  | none ↦ elim entry.read_promise [
    | some read ↦ (
      entry,
      record r {
        waiting =
            r.waiting
            ++ (record { read = read; cwd = cwd; type = type; subscriber = subscriber; cb = cb })
              ∷ [];
      },
    )
    | none ↦ (
      record entry { read_promise = some r.next_read },
      record r {
        reads =
            set r.next_read
              (record { cwd = cwd; type = type; serial = serial; reason = initial subscriber cb })
              r.reads;
        next_read = r.next_read + 1;
      },
    )
  ]
]

-- the loop of `subscribe`
unfoldable pub deliver_all :
    (cwd : Str)
    → (serial : ℕ) → (subscriber : Str) → (cb : ℕ) → Map Str TypeEntry
    → Reading
    → Map Str TypeEntry × Reading
unfolding deliver_initial
deliver_all cwd serial subscriber cb [] r = ([], r)
deliver_all cwd serial subscriber cb ((type, entry) ∷ types) r =
    let (renewed, r1) = deliver_initial cwd serial subscriber cb type entry r in
    let (rest, r2) = deliver_all cwd serial subscriber cb types r1 in ((type, renewed) ∷ rest, r2)

unfoldable pub deliver : Broadcaster → Str → Str → ℕ → CwdEntry → Broadcaster × List Effect
unfolding deliver_all
deliver b cwd subscriber cb e =
    let start : Reading = record {
      reads = b.reads;
      waiting = b.waiting;
      next_read = b.next_read;
      effects = [];
    } in
    let (types, r) = deliver_all cwd e.serial subscriber cb e.types start in
    (
      record b {
        entries = set cwd (record e { types = types; subs = set subscriber cb e.subs }) b.entries;
        reads = r.reads;
        waiting = r.waiting;
        next_read = r.next_read;
      },
      r.effects,
    )

abbrev pub empty_entry : CwdEntry
empty_entry = record { serial = 0; types = []; subs = [] }

unfoldable pub subscribe : Broadcaster → Str → Str → ℕ → Broadcaster × List Effect
unfolding init_cwd_entry deliver
subscribe b cwd subscriber cb = elim (get cwd b.entries) [
  | some e ↦ deliver b cwd subscriber cb e
  | none ↦
      let (c, made) = init_cwd_entry b cwd in
      let (d, told) = deliver c cwd subscriber cb (or_default (get cwd c.entries) empty_entry) in
      (d, made ++ told)
]

abbrev pub stop_all : Str → Map Str TypeEntry → List Effect
stop_all cwd [] = []
stop_all cwd ((t, _) ∷ types) = stopped cwd t ∷ stop_all cwd types

abbrev pub is_empty : Map Str ℕ → Bool
is_empty [] = true
is_empty (_ ∷ _) = false

unfoldable pub unsubscribe : Broadcaster → Str → Str → Broadcaster × List Effect
unsubscribe b cwd subscriber = elim (get cwd b.entries) [
  | none ↦ (b, [])
  | some e ↦
      let subs = delete subscriber e.subs in
      if is_empty subs
      then (record b { entries = delete cwd b.entries }, stop_all cwd e.types)
      else (record b { entries = set cwd (record e { subs = subs }) b.entries }, [])
]
