-- ===== src/Transport/Registry/Defs.antt =====
-- The registry and its timers. A resumable socket is an object: `serial` tells which, and `id` is the
-- id of the connection that it is bound to.
use code_quest.Common.{
  ℕ, ◌+◌, Bool, true, false, List, [], ◌∷◌, ◌++◌, Option, none, some, Str, if◌then◌else◌, str_eq,
  nat_eq,
}
use code_quest.Common.Map.{Map, get, set, delete}

pub record Resumable : Type 0 where
  pub serial : ℕ
  pub id : Str

-- `pending` holds the timers that were set and neither fired nor were cleared.
pub record Registry : Type 0 where
  pub registry : Map Str Resumable
  pub ttl_timers : Map Str ℕ
  pub pending : Map ℕ Str
  pub next_timer : ℕ
  pub next_serial : ℕ

pub data Effect : Type 0 where
  -- `new ResumableSocket`
  made : (serial : ℕ) → (id : Str) → Effect
  -- `rebind` and `onRebind`
  rebound : (serial : ℕ) → (id previous : Str) → Effect
  expired : (id : Str) → Effect

unfoldable pub new : Registry
new = record { registry = []; ttl_timers = []; pending = []; next_timer = 0; next_serial = 0 }

abbrev pub is_empty : Str → Bool
is_empty [] = true
is_empty (_ ∷ _) = false

-- `extractSessionKey`, from what `searchParams.get('sessionKey')` gives
unfoldable pub extract_session_key : Option Str → Option Str
extract_session_key none = none
extract_session_key (some key) = if is_empty key then none else some key

abbrev pub clear_timer : Option ℕ → Str → Registry → Registry
clear_timer none key r = r
clear_timer (some timer) key r = record r {
  pending = delete timer r.pending;
  ttl_timers = delete key r.ttl_timers;
}

unfoldable pub transform_existing : Resumable → Registry → Str → (id : Str) → Registry × List Effect
transform_existing rs r key id = (
  clear_timer (get key r.ttl_timers) key
      (record r { registry = set key (record rs { id = id }) r.registry }),
  rebound rs.serial id rs.id ∷ [],
)

abbrev pub register : Option Str → Resumable → Map Str Resumable → Map Str Resumable
register none rs m = m
register (some key) rs m = set key rs m

unfoldable pub transform_new : Registry → Option Str → (id : Str) → Registry × List Effect
transform_new r key id = (
  record r {
    registry = register key (record { serial = r.next_serial; id = id }) r.registry;
    next_serial = r.next_serial + 1;
  },
  made r.next_serial id ∷ [],
)

abbrev pub lookup : Option Str → Map Str Resumable → Option Resumable
lookup none m = none
lookup (some key) m = get key m

-- `context.transformSocket`: a connection has its socket
unfoldable pub transform_socket : Registry → Option Str → (id : Str) → Registry × List Effect
unfolding transform_existing transform_new
transform_socket r none id = transform_new r none id
transform_socket r (some key) id = elim (get key r.registry) [
  | some rs ↦ transform_existing rs r key id
  | none ↦ transform_new r (some key) id
]

-- what follows `await context.terminate()`
unfoldable pub terminated : Registry → Option Str → Registry
terminated r none = r
terminated r (some key) = record r {
  pending = set r.next_timer key r.pending;
  ttl_timers = set key r.next_timer r.ttl_timers;
  next_timer = r.next_timer + 1;
}

abbrev pub expire : Option Resumable → List Effect
expire none = []
expire (some rs) = expired rs.id ∷ []

-- A timer that is pending fires.
unfoldable pub fire : Registry → (timer : ℕ) → Registry × List Effect
fire r timer = elim (get timer r.pending) [
  | none ↦ (r, [])
  | some key ↦ (
    record r {
      registry = delete key r.registry;
      ttl_timers = delete key r.ttl_timers;
      pending = delete timer r.pending;
    },
    expire (get key r.registry),
  )
]

pub data Step : Type 0 where
  connects : (key : Str) → (id : Str) → Step
  closes : (key : Str) → Step
  fires : (timer : ℕ) → Step

unfoldable pub step : Registry → Step → Registry × List Effect
unfolding transform_socket terminated fire
step r (connects key id) = transform_socket r (some key) id
step r (closes key) = (terminated r (some key), [])
step r (fires timer) = fire r timer

unfoldable pub run : Registry → List Step → Registry × List Effect
unfolding step
run r [] = (r, [])
run r (s ∷ steps) =
    let (q, effects) = step r s in let (p, later) = run q steps in (p, effects ++ later)
