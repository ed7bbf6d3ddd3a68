-- ===== src/Hub/Tracker/Ledger.antt =====
-- The ledger of outbound requests: how often the promise of each was asked for and settled.
use code_quest.Common.{
  ℕ, suc, ◌+◌, ◌≡◌, refl, List, [], ◌∷◌, ◌++◌, none, some, Str, if◌then◌else◌, str_eq, str_beq,
  str_beq_iff, Option-cases, inl, inr, arith, ltb,
}
use code_quest.Common.Text.{lit}
use code_quest.Common.Map.{Map, get, set, delete, keys, get-set, get-delete}
use code_quest.Common.Distinct.{waiting, occurrences, IsDistinct, set-IsDistinct, delete-IsDistinct}
use code_quest.Hub.Tracker.Defs.{
  Tracker, Effect, send, settle, Outcome, resolved, rejected, ControlResponse, new, track_inbound,
  remove_inbound, send_outbound, expire, resolve_outbound, clear_timers, reject_each,
  reject_all_pending, clear, Happening, tracks, removes, sends, expires, resolves, rejects, clears,
  step, run, timeout_error,
}

abbrev pub settlements : Str → List Effect → ℕ
settlements id [] = 0
settlements id (settle j _ ∷ es) =
    if str_beq j id then suc (settlements id es) else settlements id es
settlements id (send _ _ _ ∷ es) = settlements id es

settlements-append :
    (id : Str) (es fs : List Effect)
    → settlements id (es ++ fs) ≡ settlements id es + settlements id fs
settlements-append id [] fs = omega arith
settlements-append id (settle j _ ∷ es) fs = ground (arith, settlements-append id es fs)
settlements-append id (send _ _ _ ∷ es) fs = settlements-append id es fs

settlements-reject_each :
    (id reason : Str) (ids : List Str)
    → settlements id (reject_each ids reason) ≡ occurrences id ids
unfolding reject_each
settlements-reject_each id reason [] = refl
settlements-reject_each id reason (j ∷ ids) = ground (arith, settlements-reject_each id reason ids)

get-clear_timers :
    (id : Str) (ids : List Str) (timers : Map Str Str)
    → get id (clear_timers ids timers)
      ≡ (if ltb 0 (occurrences id ids) then none else get id timers)
unfolding clear_timers
get-clear_timers id [] timers = refl
get-clear_timers id (j ∷ ids) timers =
    ground (arith, get-clear_timers id ids (delete j timers), get-delete j id timers)

-- whether the happening is a request with this id
abbrev pub asked : Str → Happening → ℕ
asked id (sends j _ _) = if str_beq j id then 1 else 0
asked id _ = 0

abbrev pub IsFresh : Tracker → Happening → Type 0
IsFresh t (sends id _ _) = get id t.pending ≡ none
IsFresh t _ = Unit

-- `done` is how often each promise was settled, and `made` how often it was asked for.
pub record IsSound (done made : Str → ℕ) (t : Tracker) : Type 0 where
  pub distinct : IsDistinct t.pending
  pub timed : (id : Str) → get id t.timers ≡ get id t.pending
  pub ledger : (id : Str) → done id + waiting id t.pending ≡ made id

abbrev Keeps : (done made : Str → ℕ) → Tracker × List Effect → Type 0
Keeps done made (t, effects) = IsSound (λ id. done id + settlements id effects) made t

module _ (done made : Str → ℕ) (t : Tracker) (s : IsSound done made t) where
  quiet : (meta : _) → Keeps done made (record t { meta = meta }, [])
  quiet meta = record {
    distinct = s.distinct;
    timed = s.timed;
    ledger = λ id. omega (arith, s.ledger id);
  }

  settled_one :
      (id : Str) (o : Outcome) (subtype : Str)
      → get id t.pending ≡ some subtype
      → Keeps done made (
        record t { pending = delete id t.pending; timers = delete id t.timers },
        settle id o ∷ [],
      )
  settled_one id o subtype found = record {
    distinct = delete-IsDistinct id t.pending s.distinct;
    timed = λ j. ground (arith, get-delete id j t.pending, get-delete id j t.timers, s.timed j);
    ledger = λ j. ground (arith, get-delete id j t.pending, s.ledger j, str_beq_iff id j);
  }

  expire-Keeps : (id : Str) → Keeps done made (expire t id)
  unfolding expire
  expire-Keeps id = elim (Option-cases (get id t.timers)) [
    | inl unset ↦ rw (unset, expire) (quiet t.meta)
    | inr (subtype, set) ↦
        rw (set, expire)
          (settled_one id (rejected (timeout_error subtype)) subtype (rw (← s.timed id) set))
  ]

  resolve_outbound-Keeps :
      (id : Str) (r : ControlResponse) → Keeps done made (resolve_outbound t id r)
  unfolding resolve_outbound
  resolve_outbound-Keeps id r = elim (Option-cases (get id t.pending)) [
    | inl unknown ↦ rw (unknown, resolve_outbound) (quiet t.meta)
    | inr (subtype, found) ↦
        rw (found, resolve_outbound) (settled_one id (resolved r) subtype found)
  ]

  reject_all_pending-Keeps : (reason : Str) → Keeps done made (reject_all_pending t reason)
  unfolding reject_all_pending get
  reject_all_pending-Keeps reason = record {
    distinct = λ id. refl;
    timed = λ id.
        ground (arith, get-clear_timers id (keys t.pending) t.timers, s.distinct id, s.timed id);
    ledger = λ id.
        omega
          (arith, settlements-reject_each id reason (keys t.pending), s.distinct id, s.ledger id);
  }

  send_outbound-Keeps :
      (id subtype : Str) (params : _)
      → get id t.pending ≡ none
      → Keeps done
          (λ j. made j + (if str_beq id j then 1 else 0))
          (send_outbound t id subtype params)
  unfolding send_outbound
  send_outbound-Keeps id subtype params fresh = record {
    distinct = set-IsDistinct id subtype t.pending s.distinct;
    timed = λ j.
        ground (arith, get-set id j subtype t.pending, get-set id j subtype t.timers, s.timed j);
    ledger = λ j. ground (arith, get-set id j subtype t.pending, s.ledger j, str_beq_iff id j);
  }

clear-Keeps : (done made : Str → ℕ) (t : Tracker) → IsSound done made t → Keeps done made (clear t)
unfolding clear
clear-Keeps done made t s =
    reject_all_pending-Keeps done made (record t { meta = [] })
      (record { distinct = s.distinct; timed = s.timed; ledger = s.ledger })
      (lit "Channel destroyed")

-- the count of requests after a happening
abbrev after : (Str → ℕ) → Happening → Str → ℕ
after made h id = made id + asked id h

same :
    (done made : Str → ℕ) (r : Tracker × List Effect)
    → Keeps done made r
    → Keeps done (λ id. made id + 0) r
same done made (t, es) s = record {
  distinct = s.distinct;
  timed = s.timed;
  ledger = λ id. omega (arith, s.ledger id);
}

step-Keeps :
    (done made : Str → ℕ) (t : Tracker) (h : Happening)
    → IsSound done made t
    → IsFresh t h
    → Keeps done (after made h) (step t h)
unfolding step track_inbound remove_inbound
step-Keeps done made t (tracks id meta) s f =
    same done made (record t { meta = set id meta t.meta }, [])
      (quiet done made t s (set id meta t.meta))
step-Keeps done made t (removes id) s f =
    same done made (record t { meta = delete id t.meta }, [])
      (quiet done made t s (delete id t.meta))
step-Keeps done made t (sends id subtype params) s f =
    send_outbound-Keeps done made t s id subtype params f
step-Keeps done made t (expires id) s f =
    same done made (expire t id) (expire-Keeps done made t s id)
step-Keeps done made t (resolves id r) s f =
    same done made (resolve_outbound t id r) (resolve_outbound-Keeps done made t s id r)
step-Keeps done made t (rejects reason) s f =
    same done made (reject_all_pending t reason) (reject_all_pending-Keeps done made t s reason)
step-Keeps done made t clears s f = same done made (clear t) (clear-Keeps done made t s)

-- Each request comes with an id that is not in use.
abbrev pub AreFresh : Tracker → List Happening → Type 0
AreFresh t [] = Unit
AreFresh t (h ∷ hs) = IsFresh t h × AreFresh (step t h).0 hs

abbrev pub asked_in : Str → List Happening → ℕ
asked_in id [] = 0
asked_in id (h ∷ hs) = asked id h + asked_in id hs

run-Keeps :
    (done made : Str → ℕ) (t : Tracker) (hs : List Happening)
    → IsSound done made t
    → AreFresh t hs
    → Keeps done (λ id. made id + asked_in id hs) (run t hs)
unfolding run
run-Keeps done made t [] s f = record {
  distinct = s.distinct;
  timed = s.timed;
  ledger = λ id. omega (arith, s.ledger id);
}
run-Keeps done made t (h ∷ hs) s (f, fs) =
    let one = step t h in
    let r =
      run-Keeps (λ id. done id + settlements id one.1) (after made h) one.0 hs
        (step-Keeps done made t h s f) fs in
    record {
      distinct = r.distinct;
      timed = r.timed;
      ledger = λ id. omega (arith, settlements-append id one.1 (run one.0 hs).1, r.ledger id);
    }

run-new :
    (hs : List Happening) → AreFresh new hs → Keeps (λ _. 0) (λ id. 0 + asked_in id hs) (run new hs)
unfolding new get
run-new hs f =
    run-Keeps (λ _. 0) (λ _. 0) _ hs
      (record { distinct = λ id. refl; timed = λ id. refl; ledger = λ id. refl }) f

-- In any history of a tracker in which each outbound request comes with an id that is not in use,
-- the promise of each request is either pending with its timer set, or was settled: as often as
-- requests were made with its id; and a timer is set exactly for the requests that are pending.
pub run-settles_asked :
    (hs : List Happening) (id : Str)
    → AreFresh new hs
    → (settlements id (run new hs).1 + waiting id (run new hs).0.pending ≡ asked_in id hs)
      × (get id (run new hs).0.timers ≡ get id (run new hs).0.pending)
run-settles_asked hs id f = let s = run-new hs f in (omega (arith, s.ledger id), s.timed id)

-- `rejectAllPending` at the end of such a history settles all that is still pending, so that every
-- promise has then been settled as often as requests were made with its id, and clears all timers.
pub reject_all_pending-settles :
    (hs : List Happening) (reason id : Str)
    → AreFresh new hs
    → (settlements id (run new hs).1 + settlements id (reject_all_pending (run new hs).0 reason).1
        ≡ asked_in id hs)
      × (get id (reject_all_pending (run new hs).0 reason).0.timers ≡ none)
unfolding reject_all_pending get
reject_all_pending-settles hs reason id f =
    let s = run-new hs f in
    let t = (run new hs).0 in
    (
      omega (arith, settlements-reject_each id reason (keys t.pending), s.distinct id, s.ledger id),
      ground (arith, get-clear_timers id (keys t.pending) t.timers, s.distinct id, s.timed id),
    )
