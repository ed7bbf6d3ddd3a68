-- ===== src/Broadcaster/Quiet.antt =====
-- The operations of broadcaster.ts that neither open nor stop a source: reads, changes and waiters.
use code_quest.Common.{
  ℕ, ◌≡◌, refl, List, [], ◌∷◌, Option, none, some, Str, str_eq, str_beq_iff, nat_eq, Option-cases,
  inl, inr, arith,
}
use code_quest.Common.Map.{Map, get, set, keys, get-set}
use code_quest.Broadcaster.Defs.{
  Broadcaster, CwdEntry, TypeEntry, Read, Reason, changed, initial, Waiter, new, put_type,
  on_source_change, clear_promise, tell_all, tell, take_value, settled_by, settle, wake_value,
  wake_one, wake_from,
}
use code_quest.Broadcaster.Views.{view_at, IsQuiet}

tell_all-IsQuiet : (cwd t u : Str) (v : ℕ) (subs : Map Str ℕ) → IsQuiet cwd t (tell_all u v subs)
tell_all-IsQuiet cwd t u v [] = (refl, refl)
tell_all-IsQuiet cwd t u v ((_, cb) ∷ subs) = ground (arith, tell_all-IsQuiet cwd t u v subs)

tell-IsQuiet :
    (cwd t : Str) (r : Reason) (u : Str) (v : ℕ) (subs : Map Str ℕ)
    → IsQuiet cwd t (tell r u v subs)
unfolding tell
tell-IsQuiet cwd t changed u v subs = tell_all-IsQuiet cwd t u v subs
tell-IsQuiet cwd t (initial s cb) u v subs = ground arith

wake_value-IsQuiet :
    (cwd t : Str) (w : Waiter) (o : Option TypeEntry) → IsQuiet cwd t (wake_value w o)
wake_value-IsQuiet cwd t w none = (refl, refl)
wake_value-IsQuiet cwd t w (some x) = ground arith

wake_one-IsQuiet : (cwd t : Str) (b : Broadcaster) (w : Waiter) → IsQuiet cwd t (wake_one b w)
unfolding wake_one
wake_one-IsQuiet cwd t b w = elim (Option-cases (get w.cwd b.entries)) [
  | inl h ↦ ground (arith, h)
  | inr (e, h) ↦ ground (arith, h, wake_value-IsQuiet cwd t w (get w.type e.types))
]

keys-set :
    {V : Type 0} (k : Str) (v w : V) (m : Map Str V) → get k m ≡ some w → keys (set k v m) ≡ keys m
unfolding set get
keys-set k v w [] h = ground (arith, h)
keys-set k v w ((j, u) ∷ m) h = ground (arith, h, keys-set k v w m)

view-put_type :
    (b : Broadcaster) (cwd : Str) (e : CwdEntry) (u : Str) (new old : TypeEntry)
    → get cwd b.entries ≡ some e
    → get u e.types ≡ some old
    → (c : Str) → view_at c (put_type b cwd e u new) ≡ view_at c b
view-put_type b cwd e u new old h k c = ground (
  arith,
  h,
  str_beq_iff cwd c,
  keys-set u new old e.types k,
  get-set cwd c (record e { types = set u new e.types }) b.entries,
)

pub view-on_source_change :
    (b : Broadcaster) (cwd u c : Str) → view_at c (on_source_change b cwd u) ≡ view_at c b
unfolding on_source_change
view-on_source_change b cwd u c = elim (Option-cases (get cwd b.entries)) [
  | inl h ↦ ground (arith, h)
  | inr (e, h) ↦ elim (Option-cases (get u e.types)) [
    | inl k ↦ ground (arith, h, k)
    | inr (x, k) ↦ ground (
      arith,
      h,
      k,
      view-put_type b cwd e u (record x { read_promise = some b.next_read }) x h k c,
    )
  ]
]

view-clear_promise :
    (b : Broadcaster) (r : Read) (c : Str) → view_at c (clear_promise b r) ≡ view_at c b
unfolding clear_promise
view-clear_promise b r c = elim (Option-cases (get r.cwd b.entries)) [
  | inl h ↦ ground (arith, h)
  | inr (e, h) ↦ elim (Option-cases (get r.type e.types)) [
    | inl k ↦ ground (arith, h, k)
    | inr (x, k) ↦
        ground
          (arith, h, k, view-put_type b r.cwd e r.type (record x { read_promise = none }) x h k c)
  ]
]

view-take_value :
    (b : Broadcaster) (r : Read) (v : ℕ) (c : Str) → view_at c (take_value b r v).0 ≡ view_at c b
unfolding take_value
view-take_value b r v c = elim (Option-cases (get r.cwd b.entries)) [
  | inl h ↦ ground (arith, h)
  | inr (e, h) ↦ elim (Option-cases (get r.type e.types)) [
    | inl k ↦ ground (arith, h, k)
    | inr (x, k) ↦
        ground (arith, h, k, view-put_type b r.cwd e r.type (record x { value = some v }) x h k c)
  ]
]

take_value-IsQuiet :
    (cwd t : Str) (b : Broadcaster) (r : Read) (v : ℕ) → IsQuiet cwd t (take_value b r v).1
unfolding take_value
take_value-IsQuiet cwd t b r v = elim (Option-cases (get r.cwd b.entries)) [
  | inl h ↦ ground (arith, h)
  | inr (e, h) ↦ ground (arith, h, tell-IsQuiet cwd t r.reason r.type v e.subs)
]

settled_by-IsQuiet :
    (cwd t : Str) (o : Option ℕ) (b : Broadcaster) (r : Read)
    → (view_at cwd (settled_by o b r).0 ≡ view_at cwd b) × IsQuiet cwd t (settled_by o b r).1
unfolding settled_by
settled_by-IsQuiet cwd t none b r = (refl, (refl, refl))
settled_by-IsQuiet cwd t (some v) b r = (view-take_value b r v cwd, take_value-IsQuiet cwd t b r v)

pub settle-IsQuiet :
    (cwd t : Str) (b : Broadcaster) (n : ℕ) (o : Option ℕ)
    → (view_at cwd (settle b n o).0 ≡ view_at cwd b) × IsQuiet cwd t (settle b n o).1
unfolding settle
settle-IsQuiet cwd t b n o = elim (Option-cases (get n b.reads)) [
  | inl h ↦ ground (arith, h)
  | inr (r, h) ↦
      ground
        (arith, h, settled_by-IsQuiet cwd t o (clear_promise b r) r, view-clear_promise b r cwd)
]

pub wake_from-IsQuiet :
    (cwd t : Str) (ws : List Waiter) (b : Broadcaster)
    → (view_at cwd (wake_from ws b).0 ≡ view_at cwd b) × IsQuiet cwd t (wake_from ws b).1
unfolding wake_from
wake_from-IsQuiet cwd t [] b = (refl, (refl, refl))
wake_from-IsQuiet cwd t (w ∷ ws) b = (refl, wake_one-IsQuiet cwd t b w)
