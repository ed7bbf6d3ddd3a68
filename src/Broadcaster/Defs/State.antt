-- ===== src/Broadcaster/Defs/State.antt =====
-- The state of a broadcaster, its reads and what it does outside.
use code_quest.Common.{ℕ, List, [], Option, Str, str_eq, nat_eq}
use code_quest.Common.Map.{Map}

-- `value` is `lastValue` where `hasValue` is true.
pub record TypeEntry : Type 0 where
  pub value : Option ℕ
  pub read_promise : Option ℕ

pub record CwdEntry : Type 0 where
  pub serial : ℕ
  pub types : Map Str TypeEntry
  pub subs : Map Str ℕ

pub data Reason : Type 0 where
  changed : Reason
  initial : (subscriber : Str) → (cb : ℕ) → Reason

-- a read that is under way: what its handlers have in scope
pub record Read : Type 0 where
  pub cwd : Str
  pub type : Str
  pub serial : ℕ
  pub reason : Reason

-- `readPromise.then(...)` of a subscriber that came while the read was under way
pub record Waiter : Type 0 where
  pub read : ℕ
  pub cwd : Str
  pub type : Str
  pub subscriber : Str
  pub cb : ℕ

-- `ready` holds the waiters whose promise is settled and whose turn has not come yet.
pub record Broadcaster : Type 0 where
  pub factories : List Str
  pub entries : Map Str CwdEntry
  pub reads : Map ℕ Read
  pub waiting : List Waiter
  pub ready : List Waiter
  pub next_serial : ℕ
  pub next_read : ℕ

pub data Effect : Type 0 where
  -- `createSource` and `onChange`
  created : (cwd type : Str) → Effect
  -- `unsub` and `dispose`
  stopped : (cwd type : Str) → Effect
  called : (cb : ℕ) → (type : Str) → (value : ℕ) → Effect
  logged : (type : Str) → Effect

unfoldable pub new : Broadcaster
new = record {
  factories = [];
  entries = [];
  reads = [];
  waiting = [];
  ready = [];
  next_serial = 0;
  next_read = 0;
}
