-- ===== src/Transport/Rpc/Settlement.antt =====
-- How often each call of a channel is settled, over its whole history and after it is closed.
use code_quest.Common.{
  ℕ, ◌+◌, ◌≡◌, refl, ap, ◌∙◌, Bool, true, List, [], ◌∷◌, ◌++◌, Option, none, some, Str,
  if◌then◌else◌, str_eq, nat_eq, Bool-cases, inl, inr, ltb, arith,
}
use code_quest.Common.Text.{decimal}
use code_quest.Common.Json.{Json}
use code_quest.Common.Map.{get, values, keys}
use code_quest.Transport.Envelope.{event, request, response, ping, pong, resume}
use code_quest.Transport.Rpc.Defs.{
  Channel, settle, new, start_request, expire, handle_response, handle_message, close, emit,
  Happening, requests, arrives, expires, closes, step, run, outcome_of, on_request, off_request,
  listen, unlisten,
}
use code_quest.Transport.Rpc.Ledger.{count, settlements, settlements-append, get-decimal}
use code_quest.Transport.Rpc.Keeping.{issued, IsSound, after, Keeps, quiet, step-Keeps}

run-Keeps :
    (done : ℕ → ℕ) (c : Channel) (hs : List Happening) → IsSound done c → Keeps done (run c hs)
unfolding run
run-Keeps done c [] s = quiet done c s c.handlers c.listeners [] (λ n. refl)
run-Keeps done c (h ∷ hs) s =
    let first = step c h in
    let rest = run first.0 hs in
    let r = run-Keeps (after done first.1) first.0 hs (step-Keeps done c s h) in
    record {
      keyed = r.keyed;
      timed = r.timed;
      ledger = λ n. omega (arith, settlements-append n first.1 rest.1, r.ledger n);
      started = r.started;
      silent = r.silent;
    }

new-IsSound : IsSound (λ _. 0) new
unfolding new
new-IsSound = record {
  keyed = tt;
  timed = λ n. refl;
  ledger = λ n. ground arith;
  started = omega arith;
  silent = λ shut. refl;
}

run-new : (hs : List Happening) → IsSound (λ n. settlements n (run new hs).1) (run new hs).0
run-new hs =
    let r = run-Keeps (λ _. 0) new hs new-IsSound in
    record {
      keyed = r.keyed;
      timed = r.timed;
      ledger = λ n. omega (arith, r.ledger n);
      started = r.started;
      silent = r.silent;
    }

-- After any history of a channel, each call number that `request` has handed out is either pending,
-- once, or its promise was settled, once; no other number is pending or settled; and the timers
-- that are set are those of the pending calls.
pub run-settles_once :
    (hs : List Happening) (n : ℕ)
    → (settlements n (run new hs).1 + count n (values (run new hs).0.pending)
        ≡ issued (run new hs).0 n)
      × (count n (keys (run new hs).0.timers) ≡ count n (values (run new hs).0.pending))
run-settles_once hs n = ((run-new hs).ledger n, (run-new hs).timed n)

step-closed : (c : Channel) (h : Happening) → c.closed ≡ true → (step c h).0.closed ≡ true
unfolding step start_request emit handle_message handle_response expire on_request off_request
    listen unlisten close
step-closed c (requests name payload) shut = ground arith
step-closed c (arrives none) shut = shut
step-closed c (arrives (some (response id success payload error))) shut = ground arith
step-closed c (arrives (some (event seq name payload))) shut = shut
step-closed c (arrives (some (request id name payload))) shut = shut
step-closed c (arrives (some (resume last))) shut = shut
step-closed c (arrives (some ping)) shut = shut
step-closed c (arrives (some pong)) shut = shut
step-closed c (expires n) shut = ground arith
step-closed c closes shut = ground arith
step-closed c _ shut = shut

run-closed : (c : Channel) (hs : List Happening) → c.closed ≡ true → (run c hs).0.closed ≡ true
unfolding run
run-closed c [] shut = shut
run-closed c (h ∷ hs) shut = run-closed (step c h).0 hs (step-closed c h shut)

closes-closed : (c : Channel) → (step c closes).0.closed ≡ true
unfolding step close
closes-closed c = ground arith

run-append-closed :
    (c : Channel) (hs more : List Happening) → (run c (hs ++ closes ∷ more)).0.closed ≡ true
unfolding run
run-append-closed c [] more = run-closed (step c closes).0 more (closes-closed c)
run-append-closed c (h ∷ hs) more = run-append-closed (step c h).0 hs more

-- Once a channel has been closed, whatever happened before and after, nothing is pending, no timer
-- is set, and the promise of each call that was made has been settled exactly once.
pub run-closes :
    (hs more : List Happening) (n : ℕ)
    → (settlements n (run new (hs ++ closes ∷ more)).1 ≡ issued (run new (hs ++ closes ∷ more)).0 n)
      × (count n (keys (run new (hs ++ closes ∷ more)).0.timers) ≡ 0)
run-closes hs more n =
    let s = run-new (hs ++ closes ∷ more) in
    let empty = ap (λ m. count n (values m)) (s.silent (run-append-closed new hs more)) in
    (omega (arith, s.ledger n, empty), omega (arith, s.timed n, empty))

-- On a channel that has come about in any way, a response with the id of call `n` settles exactly
-- that call, with the outcome that the response carries, if the call is pending, and else is dropped.
pub arrives-response :
    (hs : List Happening) (n : ℕ) (success : Bool) (payload : Option Json) (error : Option Str)
    → (step (run new hs).0 (arrives (some (response (decimal n) success payload error)))).1 ≡ (
        if ltb 0 (count n (values (run new hs).0.pending))
        then settle n (outcome_of success payload error) ∷ []
        else [])
unfolding step handle_message handle_response
arrives-response hs n success payload error =
    let c = (run new hs).0 in
    elim (Bool-cases (ltb 0 (count n (values c.pending)))) [
      | inl live ↦
          let found : get (decimal n) c.pending ≡ some n =
            get-decimal n c.pending (run-new hs).keyed ∙ rw live in
          rw (found, handle_response, live)
      | inr gone ↦
          let unknown : get (decimal n) c.pending ≡ none =
            get-decimal n c.pending (run-new hs).keyed ∙ rw gone in
          rw (unknown, handle_response, gone)
    ]
