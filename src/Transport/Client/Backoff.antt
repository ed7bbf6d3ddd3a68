-- ===== src/Transport/Client/Backoff.antt =====
-- The delay before a reconnect, and the highest number that was received.
use Prim.Native.Nat.{◌^◌}
use native.Mathlib.Nat.{pow-suc, mul-le-mul_right}
use code_quest.Common.{
  ℕ, zero, suc, ◌*◌, ◌/◌, some, ◌≤◌, ◌<◌, ◌≡◌, refl, sym, ap, ◌∙◌, min, max, false, List, [], ◌∷◌,
  none, length, ltb, arith, Bool-cases, inl, inr,
}
use code_quest.Transport.Envelope.{event, request, response, ping, pong, resume}
use code_quest.Transport.Client.Defs.{
  Client, Options, step, run, Happening, connects, disconnects, reconnects, handle_close,
  schedule_reconnect, pings, listens, offs, serves, unserves, opens, closes, arrives, completes,
  connect, open_socket, disconnect, emit, submit, enqueue, start_request, listen, off, on_request,
  off_request, handle_open, reconnect, late_reconnect, visibility_change, handle_message,
  handle_response,
}

-- the close events of failed connections, each with its socket and its jitter
abbrev pub failures : List (ℕ × ℕ) → List Happening
failures [] = []
failures ((socket, jitter) ∷ fs) = closes socket jitter ∷ reconnects ∷ failures fs

doubled : (b p m : ℕ) → 0 < p → min (min (b * 2) m * p) m ≡ min (b * (p * 2)) m
doubled b p m h = elim (Bool-cases (ltb (b * 2) m)) [
  | inl below ↦
      let e : min (b * 2) m ≡ b * 2 = ground arith in rw e (ap (λ x. min x m) (omega arith))
  | inr above ↦
      let e : min (b * 2) m ≡ m = ground arith in
      let up : m ≤ m * p = grind arith in
      let more : m * p ≤ b * 2 * p = mul-le-mul_right p (ground arith) in rw e (omega arith)
]

pow_pos : (k : ℕ) → 0 < 2 ^ k
pow_pos zero = omega arith
pow_pos (suc k) = rw (pow-suc 2 k) (omega (arith, pow_pos k))

-- one failed connection, and the next try
failed :
    (c : Client) (socket jitter : ℕ)
    → c.explicitly_closed ≡ false
    → ((step (step c (closes socket jitter)).0 reconnects).0.explicitly_closed ≡ false)
      × ((step (step c (closes socket jitter)).0 reconnects).0.opts ≡ c.opts)
      × ((step (step c (closes socket jitter)).0 reconnects).0.backoff_ms
          ≡ min (c.backoff_ms * 2) c.opts.max_backoff_ms)
unfolding step handle_close schedule_reconnect reconnect open_socket
failed c socket jitter up = ground arith

still_up :
    (c : Client) (fs : List (ℕ × ℕ))
    → c.explicitly_closed ≡ false
    → ((run c (failures fs)).0.explicitly_closed ≡ false) × ((run c (failures fs)).0.opts ≡ c.opts)
unfolding run
still_up c [] up = (up, refl)
still_up c ((socket, jitter) ∷ fs) up =
    let (again, same, next) = failed c socket jitter up in
    let (later, kept) = still_up (step (step c (closes socket jitter)).0 reconnects).0 fs again in
    (later, kept ∙ same)

backoff_ms-failures :
    (c : Client) (fs : List (ℕ × ℕ))
    → c.explicitly_closed ≡ false
    → c.backoff_ms ≤ c.opts.max_backoff_ms
    → (run c (failures fs)).0.backoff_ms ≡ min (c.backoff_ms * 2 ^ length fs) c.opts.max_backoff_ms
unfolding run
backoff_ms-failures c [] up small = omega arith
backoff_ms-failures c ((socket, jitter) ∷ fs) up small =
    let d = (step (step c (closes socket jitter)).0 reconnects).0 in
    let (again, same, next) = failed c socket jitter up in
    backoff_ms-failures d fs again
      (omega (arith, ap (λ (o : Options). o.max_backoff_ms) same, next))
    ∙ rw (next, same, pow-suc 2 (length fs))
        (doubled c.backoff_ms (2 ^ length fs) c.opts.max_backoff_ms (pow_pos (length fs)))

timer-closes :
    (c : Client) (socket jitter : ℕ)
    → c.explicitly_closed ≡ false
    → (step c (closes socket jitter)).0.reconnect_timer
      ≡ some (min (c.backoff_ms * jitter / 1000) c.opts.max_backoff_ms)
unfolding step handle_close schedule_reconnect
timer-closes c socket jitter up = ground (arith, up)

-- A client that its user has not closed, and whose delay is not above the maximum, has failed to
-- connect, and has tried again, as often as the list is long: its next delay before the jitter is the
-- one that it had, doubled as often, and no more than the maximum; and when the next connection
-- fails, it sets its timer to that delay times the jitter, in thousandths, and no more than the
-- maximum.
pub backoff-failures :
    (c : Client) (fs : List (ℕ × ℕ)) (socket jitter : ℕ)
    → c.explicitly_closed ≡ false
    → c.backoff_ms ≤ c.opts.max_backoff_ms
    → let d = (run c (failures fs)).0 in
      let delay = min (c.backoff_ms * 2 ^ length fs) c.opts.max_backoff_ms in
      (d.backoff_ms ≡ delay)
      × ((step d (closes socket jitter)).0.reconnect_timer
          ≡ some (min (delay * jitter / 1000) c.opts.max_backoff_ms))
backoff-failures c fs socket jitter up small =
    let (still, same) = still_up c fs up in
    let next = backoff_ms-failures c fs up small in
    (next, timer-closes (run c (failures fs)).0 socket jitter still ∙ rw (next, same) refl)

-- the numbers that the events of a history carry
abbrev pub highest : ℕ → List Happening → ℕ
highest n [] = n
highest n (arrives (some (event seq _ _)) ∷ hs) = highest (max n seq) hs
highest n (_ ∷ hs) = highest n hs

last_seq-step : (c : Client) (h : Happening) → (step c h).0.last_seq ≡ highest c.last_seq (h ∷ [])
unfolding step connect open_socket disconnect emit submit enqueue start_request listen off
    on_request off_request handle_open handle_close schedule_reconnect reconnect late_reconnect
    visibility_change handle_message handle_response
last_seq-step c connects = ground arith
last_seq-step c (arrives (some (event seq name payload))) = ground arith
last_seq-step c (arrives (some (response id success payload error))) = ground arith
last_seq-step c (arrives (some (request id name payload))) = refl
last_seq-step c (arrives (some ping)) = refl
last_seq-step c (arrives (some pong)) = refl
last_seq-step c (arrives (some (resume last))) = refl
last_seq-step c (arrives none) = refl
last_seq-step c disconnects = refl
last_seq-step c pings = refl
last_seq-step c (listens name fn) = refl
last_seq-step c (offs name fn) = refl
last_seq-step c (serves name handler) = refl
last_seq-step c (unserves name) = refl
last_seq-step c (opens n) = refl
last_seq-step c (completes socket id o) = refl
last_seq-step c _ = ground arith

highest-cons :
    (n : ℕ) (h : Happening) (hs : List Happening)
    → highest n (h ∷ hs) ≡ highest (highest n (h ∷ [])) hs
highest-cons n (arrives (some (event seq name payload))) hs = refl
highest-cons n (arrives (some (response id success payload error))) hs = refl
highest-cons n (arrives (some (request id name payload))) hs = refl
highest-cons n (arrives (some ping)) hs = refl
highest-cons n (arrives (some pong)) hs = refl
highest-cons n (arrives (some (resume last))) hs = refl
highest-cons n (arrives none) hs = refl
highest-cons n connects hs = refl
highest-cons n _ hs = refl

-- Whatever happens to a client, across all its connections, the number that it sends in its resume
-- message is the highest of the numbers of all the events that it has received since, and of the
-- number that it had before.
pub last_seq-run :
    (c : Client) (hs : List Happening) → (run c hs).0.last_seq ≡ highest c.last_seq hs
unfolding run
last_seq-run c [] = refl
last_seq-run c (h ∷ hs) =
    last_seq-run (step c h).0 hs
    ∙ ap (λ n. highest n hs) (last_seq-step c h)
    ∙ sym (highest-cons c.last_seq h hs)
