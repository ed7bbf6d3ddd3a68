-- ===== src/Transport/Client/Outbox.antt =====
-- The outbox: its bound, and what it keeps of the messages that are sent while there is no connection.
use code_quest.Common.{
  ℕ, ◌+◌, ◌-◌, ◌≤◌, ◌<◌, ◌≡◌, refl, sym, ap, ◌∙◌, max, Bool, false, List, [], ◌∷◌, ◌++◌, map,
  append-nil, append_assoc, Option, none, some, length, length-append, Bool-cases, inl, inr, arith,
  shift, nat_eq,
}
use code_quest.Common.Map.{set}
use code_quest.Transport.Envelope.{event, request, response, ping, pong, resume}
use code_quest.Transport.Client.Defs.{
  Client, Options, opened, Queued, queued_event, queued_request, Effect, send, on_open, new,
  open_socket, connect, disconnect, enqueue, submit, emit, start_request, listen, off, on_request,
  off_request, flush, handle_open, handle_close, schedule_reconnect, reconnect, visibility_change,
  handle_message, handle_response, step, run, is_open, to_envelope, Happening, connects,
  disconnects, reconnects, reconnects_late, late_reconnect, pings, emits, requests, listens, offs,
  serves, unserves, opens, closes, arrives, completes, looks,
}

-- a limit of 0 still leaves room for one message
abbrev pub room : Options → ℕ
room opts = max 1 opts.outbox_limit

record IsWithin (opts : Options) (c : Client) : Type 0 where
  fixed : c.opts ≡ opts
  bounded : length c.outbox ≤ room opts

length-shift {ℓ} : {A : Type ℓ} (xs : List A) → length (shift xs) ≡ length xs - 1
length-shift [] = omega arith
length-shift (x ∷ xs) = omega arith

enqueue-IsWithin :
    (opts : Options) (c : Client) (q : Queued) → IsWithin opts c → IsWithin opts (enqueue c q).0
unfolding enqueue
enqueue-IsWithin opts c q w = ground (
  arith,
  length-append (shift c.outbox) (q ∷ []),
  length-append c.outbox (q ∷ []),
  length-shift c.outbox,
)

submit-IsWithin :
    (opts : Options) (c : Client) (q : Queued) → IsWithin opts c → IsWithin opts (submit c q).0
unfolding submit
submit-IsWithin opts c q w = elim (Bool-cases (is_open c)) [
  | inl up ↦ rw up w
  | inr down ↦ rw down (enqueue-IsWithin opts c q w)
]

step-IsWithin :
    (opts : Options) (c : Client) (h : Happening) → IsWithin opts c → IsWithin opts (step c h).0
unfolding step connect open_socket disconnect emit start_request listen off on_request off_request
    handle_open handle_close schedule_reconnect reconnect late_reconnect visibility_change
    handle_message handle_response
step-IsWithin opts c connects w = ground arith
step-IsWithin opts c disconnects w = record { fixed = w.fixed; bounded = w.bounded }
step-IsWithin opts c reconnects w = ground arith
step-IsWithin opts c reconnects_late w = ground arith
step-IsWithin opts c pings w = w
step-IsWithin opts c (emits name payload) w = submit-IsWithin opts c (queued_event name payload) w
step-IsWithin opts c (requests id name payload) w =
    submit-IsWithin opts _ (queued_request id name payload)
      (record { fixed = w.fixed; bounded = w.bounded })
step-IsWithin opts c (listens name fn) w = record { fixed = w.fixed; bounded = w.bounded }
step-IsWithin opts c (offs name fn) w = record { fixed = w.fixed; bounded = w.bounded }
step-IsWithin opts c (serves name handler) w = record { fixed = w.fixed; bounded = w.bounded }
step-IsWithin opts c (unserves name) w = record { fixed = w.fixed; bounded = w.bounded }
step-IsWithin opts c (opens n) w = record { fixed = w.fixed; bounded = omega arith }
step-IsWithin opts c (closes n jitter) w = ground arith
step-IsWithin opts c (arrives none) w = w
step-IsWithin opts c (arrives (some (event seq name payload))) w = record {
  fixed = w.fixed;
  bounded = w.bounded;
}
step-IsWithin opts c (arrives (some (response id success payload error))) w = ground arith
step-IsWithin opts c (arrives (some (request id name payload))) w = w
step-IsWithin opts c (arrives (some ping)) w = w
step-IsWithin opts c (arrives (some pong)) w = w
step-IsWithin opts c (arrives (some (resume last))) w = w
step-IsWithin opts c (completes socket id o) w = w
step-IsWithin opts c (looks visible) w = ground arith

run-IsWithin :
    (opts : Options) (c : Client) (hs : List Happening)
    → IsWithin opts c
    → IsWithin opts (run c hs).0
unfolding run
run-IsWithin opts c [] w = w
run-IsWithin opts c (h ∷ hs) w = run-IsWithin opts (step c h).0 hs (step-IsWithin opts c h w)

-- Whatever happens to a client, its outbox never holds more messages than `outboxLimit`, or one
-- message where the limit is 0.
pub length-outbox-run :
    (opts : Options) (has_document : Bool) (hs : List Happening)
    → length (run (new opts has_document) hs).0.outbox ≤ room opts
unfolding new
length-outbox-run opts has_document hs =
    (run-IsWithin opts (new opts has_document) hs
      (record { fixed = refl; bounded = omega arith })).bounded

-- the messages as happenings
abbrev pub as_happening : Queued → Happening
as_happening (queued_event name payload) = emits name payload
as_happening (queued_request id name payload) = requests id name payload

abbrev pub sent : Option ℕ → List Queued → List Effect
sent socket [] = []
sent socket (q ∷ qs) = send socket (to_envelope q) ∷ sent socket qs

flush-sent : (c : Client) (qs : List Queued) → flush c qs ≡ sent c.ws qs
unfolding flush
flush-sent c [] = refl
flush-sent c (q ∷ qs) = ap (◌∷◌ (send c.ws (to_envelope q))) (flush-sent c qs)

-- What a client with no open connection keeps of one more message, while there is room.
record IsQueued (c : Client) (qs : List Queued) (d : Client) : Type 0 where
  outbox : d.outbox ≡ c.outbox ++ qs
  same_ws : d.ws ≡ c.ws
  same_sockets : d.sockets ≡ c.sockets
  same_opts : d.opts ≡ c.opts
  same_seq : d.last_seq ≡ c.last_seq

module _ (c : Client) (down : is_open c ≡ false) where
  queue_one :
      (q : Queued)
      → length c.outbox < c.opts.outbox_limit
      → (IsQueued c (q ∷ []) (step c (as_happening q)).0) × ((step c (as_happening q)).1 ≡ [])
  unfolding step emit submit start_request is_open enqueue
  queue_one (queued_event name payload) less = rw down (ground arith)
  queue_one (queued_request id name payload) less = rw down (ground arith)

still_down :
    (c d : Client) (qs : List Queued) → IsQueued c qs d → is_open c ≡ false → is_open d ≡ false
unfolding is_open
still_down c d qs k down = rw (k.same_ws, k.same_sockets) down

queue_all :
    (qs : List Queued) (c : Client)
    → is_open c ≡ false
    → length c.outbox + length qs ≤ c.opts.outbox_limit
    → (IsQueued c qs (run c (map as_happening qs)).0) × ((run c (map as_happening qs)).1 ≡ [])
unfolding run
queue_all [] c down less = (
  record {
    outbox = sym (append-nil c.outbox);
    same_ws = refl;
    same_sockets = refl;
    same_opts = refl;
    same_seq = refl;
  },
  refl,
)
queue_all (q ∷ qs) c down less =
    let (k, quiet) = queue_one c down q (omega arith) in
    let d = (step c (as_happening q)).0 in
    let fits : length d.outbox + length qs ≤ d.opts.outbox_limit = omega (
      arith,
      ap length k.outbox,
      length-append c.outbox (q ∷ []),
      ap (λ (o : Options). o.outbox_limit) k.same_opts,
    ) in
    let (r, silent) = queue_all qs d (still_down c d (q ∷ []) k down) fits in
    (
      record {
        outbox = r.outbox ∙ ap (λ x. x ++ qs) k.outbox ∙ append_assoc c.outbox (q ∷ []) qs;
        same_ws = r.same_ws ∙ k.same_ws;
        same_sockets = r.same_sockets ∙ k.same_sockets;
        same_opts = r.same_opts ∙ k.same_opts;
        same_seq = r.same_seq ∙ k.same_seq;
      },
      rw (quiet, silent),
    )

opens-effects :
    (c : Client) (n : ℕ)
    → (step c (opens n)).1 ≡ send c.ws (resume c.last_seq) ∷ (sent c.ws c.outbox ++ on_open ∷ [])
unfolding step handle_open
opens-effects c n =
    ap (λ x. send c.ws (resume c.last_seq) ∷ (x ++ on_open ∷ []))
      (flush-sent (record c { sockets = set n opened c.sockets }) c.outbox)

opens-outbox : (c : Client) (n : ℕ) → (step c (opens n)).0.outbox ≡ []
unfolding step handle_open
opens-outbox c n = refl

-- Messages that are emitted or requested while there is no open connection send nothing, and as long
-- as they fit into the outbox none is lost: when a socket opens, the client sends first the resume
-- message with the highest number that it has seen, then all that was queued before, then these
-- messages in the order in which they were given, and nothing else; then nothing is queued any more.
pub opens-flushes :
    (c : Client) (qs : List Queued) (n : ℕ)
    → is_open c ≡ false
    → length c.outbox + length qs ≤ c.opts.outbox_limit
    → ((run c (map as_happening qs)).1 ≡ [])
      × ((step (run c (map as_happening qs)).0 (opens n)).1
          ≡ send c.ws (resume c.last_seq) ∷ (sent c.ws (c.outbox ++ qs) ++ on_open ∷ []))
      × ((step (run c (map as_happening qs)).0 (opens n)).0.outbox ≡ [])
opens-flushes c qs n down less =
    let (k, quiet) = queue_all qs c down less in
    (
      quiet,
      opens-effects (run c (map as_happening qs)).0 n ∙ rw (k.outbox, k.same_ws, k.same_seq),
      opens-outbox (run c (map as_happening qs)).0 n,
    )
