-- ===== src/Broadcaster/Opening.antt =====
-- What subscribe of broadcaster.ts does with the sources of a directory.
use code_quest.Common.{
  ℕ, ◌+◌, ◌≤◌, ◌≡◌, refl, false, List, [], ◌∷◌, map, none, some, Str, if◌then◌else◌, str_eq,
  str_beq, str_beq_iff, nat_eq, Option-cases, inl, inr, arith, is_some, ltb,
}
use code_quest.Common.Map.{Map, get, set, keys, get-set, get-set_self}
use code_quest.Common.Distinct.{occurrences, occurrences-set}
use code_quest.Broadcaster.Defs.{
  Broadcaster, CwdEntry, TypeEntry, Reading, created, called, make_types, init_cwd_entry,
  deliver_initial, deliver_all, deliver, fresh_entry, subscribe, is_empty,
}
use code_quest.Broadcaster.Views.{
  View, view_at, creations, stops, creations-append, stops-append, creations-created, stops-created,
  IsQuiet,
}

-- What `subscribe` does with an entry: its types and their sources stay.
keys-deliver_all :
    (cwd : Str) (n : ℕ) (s : Str) (cb : ℕ) (types : Map Str TypeEntry) (r : Reading)
    → keys (deliver_all cwd n s cb types r).0 ≡ keys types
unfolding deliver_all
keys-deliver_all cwd n s cb [] r = refl
keys-deliver_all cwd n s cb ((t, x) ∷ types) r =
    ground (arith, keys-deliver_all cwd n s cb types (deliver_initial cwd n s cb t x r).1)

effects-deliver_initial :
    (c t cwd : Str) (n : ℕ) (s : Str) (cb : ℕ) (u : Str) (x : TypeEntry) (r : Reading)
    → IsQuiet c t r.effects
    → IsQuiet c t (deliver_initial cwd n s cb u x r).1.effects
unfolding deliver_initial
effects-deliver_initial c t cwd n s cb u x r h = elim (Option-cases x.value) [
  | inl k ↦ ground (arith, h, k)
  | inr (v, k) ↦ ground (
    arith,
    h,
    k,
    creations-append c t r.effects (called cb u v ∷ []),
    stops-append c t r.effects (called cb u v ∷ []),
  )
]

effects-deliver_all :
    (c t cwd : Str) (n : ℕ) (s : Str) (cb : ℕ) (types : Map Str TypeEntry) (r : Reading)
    → IsQuiet c t r.effects
    → IsQuiet c t (deliver_all cwd n s cb types r).1.effects
unfolding deliver_all
effects-deliver_all c t cwd n s cb [] r h = h
effects-deliver_all c t cwd n s cb ((u, x) ∷ types) r h =
    let (_, later) = deliver_initial cwd n s cb u x r in
    effects-deliver_all c t cwd n s cb types later (effects-deliver_initial c t cwd n s cb u x r h)

pub start : Broadcaster → Reading
start b = record { reads = b.reads; waiting = b.waiting; next_read = b.next_read; effects = [] }

deliver-view :
    (c t : Str) (b : Broadcaster) (cwd s : Str) (cb : ℕ) (e : CwdEntry)
    → (view_at c (deliver b cwd s cb e).0
        ≡ (if str_beq cwd c then some (keys e.types, set s cb e.subs) else view_at c b))
      × IsQuiet c t (deliver b cwd s cb e).1
unfolding deliver start
deliver-view c t b cwd s cb e = (
  ground (
    arith,
    keys-deliver_all cwd e.serial s cb e.types (start b),
    get-set cwd c
        (record e {
          types = (deliver_all cwd e.serial s cb e.types (start b)).0;
          subs = set s cb e.subs;
        })
        b.entries,
  ),
  effects-deliver_all c t cwd e.serial s cb e.types (start b) (refl, refl),
)

has-occurrences :
    {V : Type 0} (t : Str) (m : Map Str V) → is_some (get t m) ≡ ltb 0 (occurrences t (keys m))
unfolding get
has-occurrences t [] = refl
has-occurrences t ((j, x) ∷ m) = ground (arith, has-occurrences t m)

pub occurrences-make_types :
    (ts : List Str) (m : Map Str TypeEntry) (t : Str)
    → ((u : Str) → occurrences u ts + occurrences u (keys m) ≤ 1)
    → occurrences t (keys (make_types ts m)) ≡ occurrences t ts + occurrences t (keys m)
occurrences-make_types [] m t h = omega arith
occurrences-make_types (u ∷ ts) m t h = ground (
  arith,
  occurrences-make_types ts (set u fresh_entry m) t (λ v.
      ground
        (arith, h v, h u, occurrences-set u v fresh_entry m, has-occurrences u m, str_beq_iff u v)),
  h u,
  h t,
  occurrences-set u t fresh_entry m,
  has-occurrences u m,
  str_beq_iff u t,
)

pub is_empty-set : (s : Str) (cb : ℕ) (m : Map Str ℕ) → is_empty (set s cb m) ≡ false
unfolding set
is_empty-set s cb [] = refl
is_empty-set s cb ((j, x) ∷ m) = ground arith

-- the types of a directory that is subscribed to
abbrev types_after : Broadcaster → View → List Str
types_after b none = keys (make_types b.factories [])
types_after b (some (types, _)) = types

abbrev pub subs_of : View → Map Str ℕ
subs_of none = []
subs_of (some (_, subs)) = subs

pub view-subscribe :
    (c : Str) (b : Broadcaster) (cwd s : Str) (cb : ℕ)
    → view_at c (subscribe b cwd s cb).0 ≡ (
        if str_beq cwd c
        then some (types_after b (view_at cwd b), set s cb (subs_of (view_at cwd b)))
        else view_at c b)
unfolding subscribe init_cwd_entry
view-subscribe c b cwd s cb =
    let e : CwdEntry = record {
      serial = b.next_serial;
      types = make_types b.factories [];
      subs = [];
    } in
    elim (Option-cases (get cwd b.entries)) [
      | inl h ↦ ground (
        arith,
        h,
        deliver-view c [] (init_cwd_entry b cwd).0 cwd s cb e,
        get-set cwd c e b.entries,
        get-set_self cwd e b.entries,
      )
      | inr (x, h) ↦ ground (arith, h, deliver-view c [] b cwd s cb x)
    ]

pub effects-subscribe :
    (c t : Str) (b : Broadcaster) (cwd s : Str) (cb : ℕ)
    → (creations c t (subscribe b cwd s cb).1 ≡ (
        if str_beq cwd c
        then if is_some (view_at cwd b) then 0 else occurrences t b.factories
        else 0))
      × (stops c t (subscribe b cwd s cb).1 ≡ 0)
unfolding subscribe init_cwd_entry
effects-subscribe c t b cwd s cb =
    let e : CwdEntry = record {
      serial = b.next_serial;
      types = make_types b.factories [];
      subs = [];
    } in
    elim (Option-cases (get cwd b.entries)) [
      | inl h ↦ ground (
        arith,
        h,
        deliver-view c t (init_cwd_entry b cwd).0 cwd s cb e,
        get-set_self cwd e b.entries,
        creations-append c t (map (created cwd) b.factories)
            (deliver (init_cwd_entry b cwd).0 cwd s cb e).1,
        stops-append c t (map (created cwd) b.factories)
            (deliver (init_cwd_entry b cwd).0 cwd s cb e).1,
        creations-created c t cwd b.factories,
        stops-created c t cwd b.factories,
      )
      | inr (x, h) ↦ ground (arith, h, deliver-view c t b cwd s cb x)
    ]
