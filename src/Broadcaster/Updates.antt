-- ===== src/Broadcaster/Updates.antt =====
-- Which values the subscribers of a directory are told.
use code_quest.Common.{
  ℕ, ◌≡◌, refl, true, false, List, [], ◌∷◌, ◌++◌, Option, none, some, Str, str_eq, str_beq,
  str_beq_iff, nat_eq, nat_beq, is_some, arith, any, ◌&&◌, ◌||◌, Bool, Bool-cases, Option-cases,
  inl, inr,
}
use code_quest.Common.Map.{Map, get, set, delete, get-set_self}
use code_quest.Common.Keys.{add}
use code_quest.Broadcaster.Defs.{
  Broadcaster, put_type, Reading, CwdEntry, TypeEntry, Read, Effect, called, created, stopped,
  logged, new, subscribe, settle, on_source_change, deliver, deliver_all, deliver_initial,
  init_cwd_entry, clear_promise, settled_by, take_value, tell, unsubscribe, add_type, adds,
  subscribes, unsubscribes, changes, settles, step, run,
}

-- the state after the steps, seen from a directory's type: its value, and whether a read is under way
abbrev pub value_at : Str → Str → Broadcaster → Option (Option ℕ)
value_at cwd type b = elim (get cwd b.entries) [
  | none ↦ none
  | some e ↦ elim (get type e.types) [ none ↦ none | some x ↦ some x.value ]
]

abbrev is_call : ℕ → Str → ℕ → Effect → Bool
is_call cb type v (called f t w) = nat_beq f cb && str_beq t type && nat_beq w v
is_call cb type v _ = false

-- whether a callback was called with a value of a type
abbrev pub is_told : ℕ → Str → ℕ → List Effect → Bool
is_told cb type v es = any (is_call cb type v) es

is_told-append :
    (cb : ℕ) (t : Str) (v : ℕ) (es fs : List Effect)
    → is_told cb t v (es ++ fs) ≡ (is_told cb t v es || is_told cb t v fs)
is_told-append cb t v [] fs = refl
is_told-append cb t v (e ∷ es) fs = ground (arith, is_told-append cb t v es fs)

told-deliver_initial :
    (cwd : Str) (n : ℕ) (s : Str) (f : ℕ) (u : Str) (x : TypeEntry) (r : Reading) (cb : ℕ) (t : Str)
    (v : ℕ)
    → is_told cb t v r.effects ≡ true
    → is_told cb t v (deliver_initial cwd n s f u x r).1.effects ≡ true
unfolding deliver_initial
told-deliver_initial cwd n s f u x r cb t v h = elim (Option-cases x.value) [
  | inl k ↦ ground (arith, h, k)
  | inr (w, k) ↦ ground (arith, h, k, is_told-append cb t v r.effects (called f u w ∷ []))
]

told-deliver_all :
    (cwd : Str) (n : ℕ) (s : Str) (f : ℕ) (types : Map Str TypeEntry) (r : Reading) (cb : ℕ)
    (t : Str) (v : ℕ)
    → is_told cb t v r.effects ≡ true
    → is_told cb t v (deliver_all cwd n s f types r).1.effects ≡ true
unfolding deliver_all
told-deliver_all cwd n s f [] r cb t v h = h
told-deliver_all cwd n s f ((u, x) ∷ types) r cb t v h =
    told-deliver_all cwd n s f types (deliver_initial cwd n s f u x r).1 cb t v
      (told-deliver_initial cwd n s f u x r cb t v h)

told-here :
    (cwd : Str) (n : ℕ) (s : Str) (cb : ℕ) (u : Str) (y : TypeEntry) (r : Reading) (t : Str) (v : ℕ)
    → str_beq u t ≡ true
    → y.value ≡ some v
    → is_told cb t v (deliver_initial cwd n s cb u y r).1.effects ≡ true
unfolding deliver_initial
told-here cwd n s cb u y r t v h k =
    ground (arith, h, k, is_told-append cb t v r.effects (called cb u v ∷ []))

told-known :
    (cwd : Str) (n : ℕ) (s : Str) (cb : ℕ) (types : Map Str TypeEntry) (r : Reading) (t : Str)
    (x : TypeEntry) (v : ℕ)
    → get t types ≡ some x
    → x.value ≡ some v
    → is_told cb t v (deliver_all cwd n s cb types r).1.effects ≡ true
unfolding deliver_all get
told-known cwd n s cb [] r t x v h k = ground (arith, h)
told-known cwd n s cb ((u, y) ∷ types) r t x v h k = elim (Bool-cases (str_beq u t)) [
  | inl same ↦
      told-deliver_all cwd n s cb types (deliver_initial cwd n s cb u y r).1 cb t v
        (told-here cwd n s cb u y r t v same (ground (arith, h, same, k)))
  | inr other ↦
      told-known cwd n s cb types (deliver_initial cwd n s cb u y r).1 t x v
        (ground (arith, h, other)) k
]

told-subscribe :
    (b : Broadcaster) (cwd s : Str) (cb : ℕ) (t : Str) (v : ℕ)
    → value_at cwd t b ≡ some (some v)
    → is_told cb t v (subscribe b cwd s cb).1 ≡ true
unfolding subscribe deliver
told-subscribe b cwd s cb t v h = elim (Option-cases (get cwd b.entries)) [
  | inl k ↦ ground (arith, h, k)
  | inr (e, k) ↦ elim (Option-cases (get t e.types)) [
    | inl m ↦ ground (arith, h, k, m)
    | inr (x, m) ↦
        let start : Reading = record {
          reads = b.reads;
          waiting = b.waiting;
          next_read = b.next_read;
          effects = [];
        } in
        ground
          (arith, k, told-known cwd e.serial s cb e.types start t x v m (ground (arith, h, k, m)))
  ]
]

value-put_type :
    (b : Broadcaster) (cwd : Str) (e : CwdEntry) (t : Str) (x : TypeEntry)
    → value_at cwd t (put_type b cwd e t x) ≡ some x.value
value-put_type b cwd e t x = ground (
  arith,
  get-set_self cwd (record e { types = set t x e.types }) b.entries,
  get-set_self t x e.types,
)

value-clear_promise :
    (b : Broadcaster) (r : Read)
    → value_at r.cwd r.type (clear_promise b r) ≡ value_at r.cwd r.type b
unfolding clear_promise
value-clear_promise b r = elim (Option-cases (get r.cwd b.entries)) [
  | inl h ↦ ground (arith, h)
  | inr (e, h) ↦ elim (Option-cases (get r.type e.types)) [
    | inl k ↦ ground (arith, h, k)
    | inr (x, k) ↦
        ground (arith, h, k, value-put_type b r.cwd e r.type (record x { read_promise = none }))
  ]
]

value-take_value :
    (b : Broadcaster) (r : Read) (v : ℕ)
    → is_some (value_at r.cwd r.type b) ≡ true
    → value_at r.cwd r.type (take_value b r v).0 ≡ some (some v)
unfolding take_value
value-take_value b r v h = elim (Option-cases (get r.cwd b.entries)) [
  | inl k ↦ ground (arith, h, k)
  | inr (e, k) ↦ elim (Option-cases (get r.type e.types)) [
    | inl m ↦ ground (arith, h, k, m)
    | inr (x, m) ↦
        ground (arith, k, m, value-put_type b r.cwd e r.type (record x { value = some v }))
  ]
]

value-settle :
    (b : Broadcaster) (n : ℕ) (r : Read) (v : ℕ)
    → get n b.reads ≡ some r
    → is_some (value_at r.cwd r.type b) ≡ true
    → value_at r.cwd r.type (settle b n (some v)).0 ≡ some (some v)
unfolding settle settled_by
value-settle b n r v h k =
    ground (arith, h, value-take_value (clear_promise b r) r v (rw (value-clear_promise b r) k))

-- When a read ends with a value and its directory still has the type, whoever subscribes to the
-- directory next is told that value at once.
pub subscribe-settle :
    (b : Broadcaster) (n : ℕ) (r : Read) (v : ℕ) (s : Str) (cb : ℕ)
    → get n b.reads ≡ some r
    → is_some (value_at r.cwd r.type b) ≡ true
    → is_told cb r.type v (subscribe (settle b n (some v)).0 r.cwd s cb).1 ≡ true
subscribe-settle b n r v s cb h k =
    told-subscribe (settle b n (some v)).0 r.cwd s cb r.type v (value-settle b n r v h k)

-- A change that is reported while a read is under way is lost: no further read is started, and when
-- that read ends, with the value that it found before the change, no read is under way, and the
-- subscriber was told this value only.
pub changes-lost :
    (cwd s type : Str) (cb old : ℕ)
    → let b =
        run new (adds type ∷ subscribes cwd s cb ∷ changes cwd type ∷ settles 0 (some old) ∷ []) in
      (b.0.reads ≡ [])
      × (value_at cwd type b.0 ≡ some (some old))
      × (b.1 ≡ (created cwd type ∷ called cb type old ∷ []))
unfolding run step new add_type subscribe init_cwd_entry deliver deliver_all deliver_initial
    on_source_change settle clear_promise settled_by take_value tell get set delete add
changes-lost cwd s type cb old =
    ground (arith, str_beq_iff cwd cwd, str_beq_iff type type, str_beq_iff s s)

-- A read that outlives its directory's subscription ends in the directory of a later one: its value is
-- kept there although it was read before, and when the read of the later subscriber fails, this
-- subscriber is told nothing, although the directory has a value.
pub resubscribes-stale :
    (cwd s type : Str) (cb1 cb2 v : ℕ)
    → let b = run new (
        adds type
        ∷ subscribes cwd s cb1
        ∷ unsubscribes cwd s
        ∷ subscribes cwd s cb2
        ∷ settles 0 (some v)
        ∷ settles 1 none
        ∷ []) in
      (value_at cwd type b.0 ≡ some (some v))
      × (b.0.reads ≡ [])
      × (b.0.waiting ≡ [])
      × (b.1 ≡ (
          created cwd type
          ∷ stopped cwd type
          ∷ created cwd type
          ∷ called cb1 type v
          ∷ logged type
          ∷ []))
unfolding run step new add_type subscribe init_cwd_entry deliver deliver_all deliver_initial
    unsubscribe settle clear_promise settled_by take_value tell get set delete add
resubscribes-stale cwd s type cb1 cb2 v =
    ground (arith, str_beq_iff cwd cwd, str_beq_iff type type, str_beq_iff s s)
