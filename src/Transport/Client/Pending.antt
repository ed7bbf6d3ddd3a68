-- ===== src/Transport/Client/Pending.antt =====
-- The promises of the requests of a client.
use code_quest.Common.{
  ℕ, ◌+◌, ◌≡◌, refl, Bool, List, [], ◌∷◌, none, some, Str, str_eq, nat_eq, or_default, arith,
}
use code_quest.Common.Map.{get, set}
use code_quest.Common.Distinct.{waiting, IsDistinct}
use code_quest.Transport.Envelope.{event, request, response, ping, pong, resume}
use code_quest.Transport.Client.Defs.{
  Client, Options, queued_event, on_close, new, connect, disconnect, emit, listen, off, on_request,
  off_request, handle_open, handle_close, reconnect, visibility_change, handle_message, step, run,
  Happening, connects, disconnects, reconnects, reconnects_late, late_reconnect, pings, emits,
  requests, listens, offs, serves, unserves, opens, closes, arrives, completes, looks, opened,
  closed, fire_listener, handle_incoming_request, complete, ping_tick,
}
use code_quest.Transport.Client.Settling.{
  settlements, settlements-append, settlements-notify, asked, IsFresh, Settles, quiet,
  submit-Settles, start_request-Settles, handle_response-Settles, disconnect-Settles,
  incoming_quiet, complete_quiet, pings_quiet, opened_quiet, pending-visibility_change,
  pending-connect, pending-reconnect, pending-late_reconnect, pending-handle_close,
}

step-Settles :
    (c : Client) (h : Happening)
    → IsDistinct c.pending
    → IsFresh c h
    → Settles c.pending (λ id. asked id h) (step c h)
unfolding step emit listen off on_request off_request handle_open handle_message handle_close
    fire_listener
step-Settles c connects d f = quiet c (connect c) [] d (pending-connect c) (λ id. refl)
step-Settles c disconnects d f = disconnect-Settles c d
step-Settles c reconnects d f = quiet c (reconnect c) [] d (pending-reconnect c) (λ id. refl)
step-Settles c reconnects_late d f =
    quiet c (late_reconnect c) [] d (pending-late_reconnect c) (λ id. refl)
step-Settles c pings d f = quiet c c (ping_tick c) d refl (λ id. pings_quiet id c)
step-Settles c (emits name payload) d f = submit-Settles c (queued_event name payload) d
step-Settles c (requests id name payload) d f = start_request-Settles c id name payload d f
step-Settles c (listens name fn) d f = quiet c (listen c name fn) [] d refl (λ id. refl)
step-Settles c (offs name fn) d f = quiet c (off c name fn) [] d refl (λ id. refl)
step-Settles c (serves name handler) d f =
    quiet c (on_request c name handler) [] d refl (λ id. refl)
step-Settles c (unserves name) d f = quiet c (off_request c name) [] d refl (λ id. refl)
step-Settles c (opens n) d f =
    quiet c (step c (opens n)).0 (step c (opens n)).1 d refl
      (λ id. opened_quiet id (record c { sockets = set n opened c.sockets }))
step-Settles c (closes n jitter) d f =
    quiet c (step c (closes n jitter)).0 (on_close ∷ []) d
      (pending-handle_close (record c { sockets = set n closed c.sockets }) jitter) (λ id. refl)
step-Settles c (arrives none) d f = quiet c c [] d refl (λ id. refl)
step-Settles c (arrives (some (event seq name payload))) d f =
    quiet c (step c (arrives (some (event seq name payload)))).0 (fire_listener c name payload) d
      refl (λ id. settlements-notify id (or_default (get name c.listeners) []) payload)
step-Settles c (arrives (some (response id success payload error))) d f =
    handle_response-Settles c id success payload error d
step-Settles c (arrives (some (request id name payload))) d f =
    quiet c c (handle_incoming_request c id name payload) d refl
      (λ j. incoming_quiet j c id name payload)
step-Settles c (arrives (some ping)) d f = quiet c c [] d refl (λ id. refl)
step-Settles c (arrives (some pong)) d f = quiet c c [] d refl (λ id. refl)
step-Settles c (arrives (some (resume last))) d f = quiet c c [] d refl (λ id. refl)
step-Settles c (completes socket id o) d f =
    quiet c c (complete c socket id o) d refl (λ j. complete_quiet j c socket id o)
step-Settles c (looks visible) d f =
    quiet c (visibility_change c visible) [] d (pending-visibility_change c visible) (λ id. refl)

-- Each request comes with an id that is not in use.
abbrev pub AreFresh : Client → List Happening → Type 0
AreFresh c [] = Unit
AreFresh c (h ∷ hs) = IsFresh c h × AreFresh (step c h).0 hs

-- how often a request was made with this id
abbrev pub asked_in : Str → List Happening → ℕ
asked_in id [] = 0
asked_in id (h ∷ hs) = asked id h + asked_in id hs

run-Settles :
    (c : Client) (hs : List Happening)
    → IsDistinct c.pending
    → AreFresh c hs
    → Settles c.pending (λ id. asked_in id hs) (run c hs)
unfolding run
run-Settles c [] d f = quiet c c [] d refl (λ id. refl)
run-Settles c (h ∷ hs) d (f, fs) =
    let one = step-Settles c h d f in
    let rest = run-Settles (step c h).0 hs one.distinct fs in
    record {
      distinct = rest.distinct;
      balanced = λ id. omega (
        arith,
        settlements-append id (step c h).1 (run (step c h).0 hs).1,
        one.balanced id,
        rest.balanced id,
      );
    }

-- In any history of a client in which each request comes with an id that is not in use, the promise
-- of a request is either pending or has been settled: by its response, by an overflow of the outbox
-- or by `disconnect`, and as often as requests were made with its id; nothing else is ever settled.
pub run-settles :
    (opts : Options) (has_document : Bool) (hs : List Happening) (id : Str)
    → AreFresh (new opts has_document) hs
    → settlements id (run (new opts has_document) hs).1
        + waiting id (run (new opts has_document) hs).0.pending
      ≡ asked_in id hs
unfolding new get
run-settles opts has_document hs id f =
    omega (arith, (run-Settles (new opts has_document) hs (λ j. refl) f).balanced id)

-- If such a history is followed by `disconnect`, then the promises have all been settled by then.
pub disconnect-settles :
    (opts : Options) (has_document : Bool) (hs : List Happening) (id : Str)
    → AreFresh (new opts has_document) hs
    → settlements id (run (new opts has_document) hs).1
        + settlements id (disconnect (run (new opts has_document) hs).0).1
      ≡ asked_in id hs
unfolding new get disconnect
disconnect-settles opts has_document hs id f =
    let r = run-Settles (new opts has_document) hs (λ j. refl) f in
    omega (
      arith,
      r.balanced id,
      (disconnect-Settles (run (new opts has_document) hs).0 r.distinct).balanced id,
    )
