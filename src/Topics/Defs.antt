-- ===== src/Topics/Defs.antt =====
-- The emitter's state and operations. A callback is a number.
use code_quest.Common.{
  ℕ, zero, suc, ◌+◌, ◌-◌, Bool, true, false, not, List, [], ◌∷◌, ◌++◌, Option, none, some, Str,
  if◌then◌else◌, str_eq, or_default, leb,
}
use code_quest.Common.Map.{Map, get, set, delete}

pub record Entry : Type 0 where
  pub cb : ℕ
  pub refcount : ℕ

pub record Closure : Type 0 where
  pub topic : Str
  pub subscriber : Str
  pub active : Bool

pub record Emitter : Type 0 where
  pub subs : Map Str (Map Str Entry)
  -- the closures that were returned, in order
  pub closures : List Closure

unfoldable pub new : Emitter
new = record { subs = []; closures = [] }

-- the latest callback wins
abbrev pub renewed : ℕ → Option Entry → Entry
renewed cb none = record { cb = cb; refcount = 1 }
renewed cb (some old) = record { cb = cb; refcount = old.refcount + 1 }

unfoldable pub subscribe : Emitter → (topic : Str) → (subscriber_id : Str) → (cb : ℕ) → Emitter
subscribe e topic subscriber_id cb =
    let per_topic = or_default (get topic e.subs) [] in
    record {
      subs =
          set topic (set subscriber_id (renewed cb (get subscriber_id per_topic)) per_topic) e.subs;
      closures =
          e.closures ++ (record { topic = topic; subscriber = subscriber_id; active = true }) ∷ [];
    }

-- The closure's flag is taken down; what it was for, if it was up.
unfoldable pub take_down : ℕ → List Closure → List Closure × Option (Str × Str)
take_down n [] = ([], none)
take_down zero (c ∷ cs) =
    (record c { active = false } ∷ cs, if c.active then some (c.topic, c.subscriber) else none)
take_down (suc n) (c ∷ cs) = let (ds, found) = take_down n cs in (c ∷ ds, found)

abbrev pub is_empty : Map Str Entry → Bool
is_empty [] = true
is_empty (_ ∷ _) = false

abbrev pub put_back : Str → Map Str Entry → Map Str (Map Str Entry) → Map Str (Map Str Entry)
put_back topic m subs = if is_empty m then delete topic subs else set topic m subs

unfoldable pub release :
    (topic subscriber : Str) → Map Str (Map Str Entry) → Map Str (Map Str Entry)
release topic subscriber subs = elim (get topic subs) [
  | none ↦ subs
  | some m ↦ elim (get subscriber m) [
    | none ↦ subs
    | some entry ↦
        if leb entry.refcount 1
        then put_back topic (delete subscriber m) subs
        else set topic (set subscriber (record entry { refcount = entry.refcount - 1 }) m) subs
  ]
]

unfoldable pub released : Option (Str × Str) → Map Str (Map Str Entry) → Map Str (Map Str Entry)
unfolding release
released none subs = subs
released (some (topic, subscriber)) subs = release topic subscriber subs

-- the call of the `n`th closure
unfoldable pub unsubscribe : Emitter → ℕ → Emitter
unfolding take_down released
unsubscribe e n =
    let (closures, found) = take_down n e.closures in
    record { subs = released found e.subs; closures = closures }

-- `throws` tells whose callback throws; the error is logged and the next one is called.
pub data Effect : Type 0 where
  called : ℕ → Effect
  logged : ℕ → Effect

module _ (throws : ℕ → Bool) where
  unfoldable pub publish_each : Map Str Entry → List Effect
  publish_each [] = []
  publish_each ((_, entry) ∷ m) =
      let rest = publish_each m in
      called entry.cb ∷ (if throws entry.cb then logged entry.cb ∷ rest else rest)

  unfoldable pub publish : Emitter → (topic : Str) → List Effect
  unfolding publish_each
  publish e topic = publish_each (or_default (get topic e.subs) [])

abbrev pub has_some : Option (Map Str Entry) → Bool
has_some none = false
has_some (some m) = not (is_empty m)

unfoldable pub has_subscribers : Emitter → (topic : Str) → Bool
has_subscribers e topic = has_some (get topic e.subs)
