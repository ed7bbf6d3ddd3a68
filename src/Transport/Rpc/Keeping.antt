-- ===== src/Transport/Rpc/Keeping.antt =====
-- What the operations of a channel do to its calls.
use code_quest.Common.{
  ℕ, ◌+◌, ◌<◌, ◌≡◌, refl, ap, Bool, true, false, ◌&&◌, List, [], ◌∷◌, Option, none, some, Str,
  if◌then◌else◌, str_eq, nat_eq, or_default, Option-cases, inl, inr, ltb, arith,
}
use code_quest.Common.Text.{decimal, lit}
use code_quest.Common.Json.{Json}
use code_quest.Common.Map.{Map, get, set, delete, values, keys}
use code_quest.Common.Keys.{add}
use code_quest.Transport.Envelope.{Envelope, event, request, response, ping, pong, resume}
use code_quest.Transport.Rpc.Defs.{
  Channel, Effect, Outcome, resolved, rejected, send, settle, refuse, start_request, expire,
  handle_response, handle_request, handle_message, fire_event, close, emit, complete, reject_all,
  Happening, requests, emits, arrives, expires, completes, serves, unserves, listens, unlistens,
  closes, step, outcome_of, timeout_error, closed_error, last_seq_data, without, on_request,
  off_request, listen, unlisten,
}
use code_quest.Transport.Rpc.Ledger.{
  count, settlements, IsKeyed, settlements-append, settlements-reject_all, settlements-notify,
  count-keys-delete, count-keys-set_absent, count_of_get, count-keys-clear_all, count-values-delete,
  key_of_get, count_values_of_get, delete-IsKeyed, set-IsKeyed, count-values-set,
}

-- whether `request` has handed out the call number `n`
abbrev pub issued : Channel → ℕ → ℕ
issued c n = if ltb 0 n && ltb n c.next_id then 1 else 0

-- `done n` is how often call `n` was settled so far.
pub record IsSound (done : ℕ → ℕ) (c : Channel) : Type 0 where
  pub keyed : IsKeyed c.pending
  pub timed : (n : ℕ) → count n (keys c.timers) ≡ count n (values c.pending)
  pub ledger : (n : ℕ) → done n + count n (values c.pending) ≡ issued c n
  pub started : 0 < c.next_id
  pub silent : c.closed ≡ true → c.pending ≡ []

abbrev pub after : (ℕ → ℕ) → List Effect → ℕ → ℕ
after done effects n = done n + settlements n effects

abbrev pub Keeps : (ℕ → ℕ) → Channel × List Effect → Type 0
Keeps done (c, effects) = IsSound (after done effects) c

pub Keeps-if :
    (done : ℕ → ℕ) (b : Bool) (x y : Channel × List Effect)
    → (b ≡ true → Keeps done x)
    → (b ≡ false → Keeps done y)
    → Keeps done (if b then x else y)
Keeps-if done true x y h k = h refl
Keeps-if done false x y h k = k refl

module _ (done : ℕ → ℕ) (c : Channel) (s : IsSound done c) where
  -- Effects that settle nothing, and any change of listeners and handlers, keep the invariant.
  pub quiet :
      (handlers : Map Str ℕ) (listeners : Map Str (List ℕ)) (effects : List Effect)
      → ((n : ℕ) → settlements n effects ≡ 0)
      → Keeps done (record c { handlers = handlers; listeners = listeners }, effects)
  quiet handlers listeners effects none_settled = record {
    keyed = s.keyed;
    timed = s.timed;
    ledger = λ n. omega (arith, none_settled n, s.ledger n);
    started = s.started;
    silent = s.silent;
  }

  pub unissued : count c.next_id (values c.pending) ≡ 0
  unissued = ground (arith, s.ledger c.next_id)

  pub start_request-Keeps :
      (name : Str) (payload : Option Json) → Keeps done (start_request c name payload)
  unfolding start_request
  start_request-Keeps name payload =
      Keeps-if done c.closed _ _
        (λ shut. quiet c.handlers c.listeners (refuse closed_error ∷ []) (λ n. refl))
        λ up. record {
          keyed = set-IsKeyed c.next_id c.pending s.keyed unissued;
          timed = λ j. ground (
            arith,
            s.timed j,
            s.timed c.next_id,
            unissued,
            count-values-set c.next_id c.pending s.keyed unissued j,
            count-keys-set_absent c.next_id j name c.timers,
          );
          ledger = λ j. ground (
            arith,
            s.ledger j,
            s.started,
            unissued,
            count-values-set c.next_id c.pending s.keyed unissued j,
          );
          started = omega arith;
          silent = λ shut. ground arith;
        }

  -- The channel settles call `n`, which is pending, and drops it.
  pub settled_one :
      (n : ℕ) (o : Outcome)
      → 0 < count n (values c.pending)
      → Keeps done (
        record c { timers = delete n c.timers; pending = delete (decimal n) c.pending },
        settle n o ∷ [],
      )
  settled_one n o live = record {
    keyed = delete-IsKeyed (decimal n) c.pending s.keyed;
    timed = λ j. ground (
      arith,
      count-keys-delete n j c.timers,
      count-values-delete n j c.pending s.keyed,
      s.timed j,
    );
    ledger = λ j. ground (arith, count-values-delete n j c.pending s.keyed, s.ledger j);
    started = s.started;
    silent = λ shut. absurd (omega (arith, ap (λ m. count n (values m)) (s.silent shut)));
  }

  pub expire-Keeps : (n : ℕ) → Keeps done (expire c n)
  unfolding expire
  expire-Keeps n = elim (Option-cases (get n c.timers)) [
    | inl unset ↦ rw (unset, expire) (quiet c.handlers c.listeners [] (λ n. refl))
    | inr (name, set) ↦
        rw (set, expire)
          (settled_one n (rejected (timeout_error name n))
            (omega (arith, s.timed n, count_of_get n c.timers name set)))
  ]

  pub handle_response-Keeps :
      (id : Str) (success : Bool) (payload : Option Json) (error : Option Str)
      → Keeps done (handle_response c id success payload error)
  unfolding handle_response
  handle_response-Keeps id success payload error = elim (Option-cases (get id c.pending)) [
    | inl unknown ↦ rw (unknown, handle_response) (quiet c.handlers c.listeners [] (λ n. refl))
    | inr (n, found) ↦
        rw (found, handle_response)
          (rw (key_of_get id c.pending n s.keyed found) (
            settled_one n (outcome_of success payload error)
              (count_values_of_get id c.pending n found)))
  ]

  pub fired :
      (name : Str) (payload : Option Json) (n : ℕ) → settlements n (fire_event c name payload) ≡ 0
  unfolding fire_event
  fired name payload n = settlements-notify n (or_default (get name c.listeners) []) payload

  pub close-Keeps : Keeps done (close c)
  unfolding close
  close-Keeps =
      Keeps-if done c.closed _ _ (λ shut. quiet c.handlers c.listeners [] (λ n. refl))
        λ up. record {
          keyed = tt;
          timed =
              λ j. ground (arith, count-keys-clear_all (values c.pending) j c.timers, s.timed j);
          ledger = λ j. omega (
            arith,
            settlements-append j (reject_all c.pending) (fire_event c (lit "disconnect") none),
            settlements-reject_all j c.pending,
            fired (lit "disconnect") none j,
            s.ledger j,
          );
          started = s.started;
          silent = λ shut. refl;
        }

  pub served :
      (id name : Str) (payload : Option Json) (n : ℕ)
      → settlements n (handle_request c id name payload) ≡ 0
  unfolding handle_request
  served id name payload n = elim (Option-cases (get name c.handlers)) [
    | inl unknown ↦ rw (unknown, handle_request)
    | inr (h, found) ↦ rw (found, handle_request)
  ]

  pub handle_message-Keeps : (message : Option Envelope) → Keeps done (handle_message c message)
  unfolding handle_message
  handle_message-Keeps none = quiet c.handlers c.listeners [] (λ n. refl)
  handle_message-Keeps (some ping) = quiet c.handlers c.listeners (send pong ∷ []) (λ n. refl)
  handle_message-Keeps (some pong) = quiet c.handlers c.listeners [] (λ n. refl)
  handle_message-Keeps (some (resume last)) =
      quiet c.handlers c.listeners (fire_event c (lit "__resume__") (last_seq_data last))
        (fired (lit "__resume__") (last_seq_data last))
  handle_message-Keeps (some (event seq name payload)) =
      quiet c.handlers c.listeners (fire_event c name payload) (fired name payload)
  handle_message-Keeps (some (request id name payload)) =
      quiet c.handlers c.listeners (handle_request c id name payload) (served id name payload)
  handle_message-Keeps (some (response id success payload error)) =
      handle_response-Keeps id success payload error

  pub emitted : (name : Str) (payload : Option Json) → Keeps done (emit c name payload)
  unfolding emit
  emitted name payload =
      quiet c.handlers c.listeners (if c.closed then [] else send (event 0 name payload) ∷ [])
        (λ n. ground arith)

  pub completed : (id : Str) (o : Outcome) (n : ℕ) → settlements n (complete id o) ≡ 0
  unfolding complete
  completed id (resolved result) n = refl
  completed id (rejected message) n = refl

  pub step-Keeps : (h : Happening) → Keeps done (step c h)
  unfolding step on_request off_request listen unlisten
  step-Keeps (requests name payload) = start_request-Keeps name payload
  step-Keeps (emits name payload) = emitted name payload
  step-Keeps (arrives message) = handle_message-Keeps message
  step-Keeps (expires n) = expire-Keeps n
  step-Keeps (completes id outcome) =
      quiet c.handlers c.listeners (complete id outcome) (completed id outcome)
  step-Keeps (serves name handler) = quiet (set name handler c.handlers) c.listeners [] (λ n. refl)
  step-Keeps (unserves name) = quiet (delete name c.handlers) c.listeners [] (λ n. refl)
  step-Keeps (listens name fn) =
      quiet c.handlers (set name (add fn (or_default (get name c.listeners) [])) c.listeners) []
        (λ n. refl)
  step-Keeps (unlistens name fn) =
      quiet c.handlers (without fn name (get name c.listeners) c.listeners) [] (λ n. refl)
  step-Keeps closes = close-Keeps
