-- ===== src/Transport/Client/Settling.antt =====
-- What the operations of a client do to its pending requests.
use code_quest.Common.{
  ℕ, suc, ◌+◌, ◌≡◌, refl, Bool, true, false, List, [], ◌∷◌, ◌++◌, map, Option, none, some, Str,
  if◌then◌else◌, length, leb, str_eq, str_beq, str_beq_iff, nat_eq, is_some, arith,
}
use code_quest.Common.Json.{Json}
use code_quest.Common.Text.{lit}
use code_quest.Common.Map.{Map, get, set, keys, get-set, get-delete}
use code_quest.Common.Distinct.{waiting, occurrences, IsDistinct, set-IsDistinct, delete-IsDistinct}
use code_quest.Transport.Client.Defs.{
  Client, Queued, queued_event, queued_request, Effect, send, settle, invoke, notify, shut, on_open,
  on_close, open_socket, connect, disconnect, enqueue, submit, start_request, flush, handle_open,
  handle_close, schedule_reconnect, reconnect, late_reconnect, visibility_change, handle_response,
  is_open, to_envelope, Happening, requests, reject_all, shut_alive, drop_pending, overflow, first,
  ReadyState, Outcome, handle_incoming_request, complete, ping_tick, send_now,
}

-- how often the effects settle the promise of request `id`
abbrev pub settlements : Str → List Effect → ℕ
settlements id [] = 0
settlements id (settle j _ ∷ es) =
    if str_beq j id then suc (settlements id es) else settlements id es
settlements id (send _ _ ∷ es) = settlements id es
settlements id (invoke _ _ _ _ ∷ es) = settlements id es
settlements id (notify _ _ ∷ es) = settlements id es
settlements id (shut _ ∷ es) = settlements id es
settlements id (on_open ∷ es) = settlements id es
settlements id (on_close ∷ es) = settlements id es

pub settlements-append :
    (id : Str) (es fs : List Effect)
    → settlements id (es ++ fs) ≡ settlements id es + settlements id fs
settlements-append id [] fs = omega arith
settlements-append id (settle j _ ∷ es) fs = ground (arith, settlements-append id es fs)
settlements-append id (send _ _ ∷ es) fs = settlements-append id es fs
settlements-append id (invoke _ _ _ _ ∷ es) fs = settlements-append id es fs
settlements-append id (notify _ _ ∷ es) fs = settlements-append id es fs
settlements-append id (shut _ ∷ es) fs = settlements-append id es fs
settlements-append id (on_open ∷ es) fs = settlements-append id es fs
settlements-append id (on_close ∷ es) fs = settlements-append id es fs

pub settlements-reject_all :
    (reason id : Str) (ids : List Str) → settlements id (reject_all reason ids) ≡ occurrences id ids
unfolding reject_all
settlements-reject_all reason id [] = refl
settlements-reject_all reason id (j ∷ ids) = ground (arith, settlements-reject_all reason id ids)

pub settlements-flush : (id : Str) (c : Client) (qs : List Queued) → settlements id (flush c qs) ≡ 0
unfolding flush
settlements-flush id c [] = refl
settlements-flush id c (q ∷ qs) = settlements-flush id c qs

pub settlements-notify :
    (id : Str) (fns : List ℕ) (payload : Option Json)
    → settlements id (map (λ fn. notify fn payload) fns) ≡ 0
settlements-notify id [] payload = refl
settlements-notify id (fn ∷ fns) payload = settlements-notify id fns payload

-- whether the happening is a request with this id
abbrev pub asked : Str → Happening → ℕ
asked id (requests j _ _) = if str_beq j id then 1 else 0
asked id _ = 0

-- the id that a request comes with is not in use
abbrev pub IsFresh : Client → Happening → Type 0
IsFresh c (requests id _ _) = get id c.pending ≡ none
IsFresh c _ = Unit

pub drop-balanced :
    (id : Str) (o : Option Queued) (m : Map Str (Unit {0}))
    → settlements id (overflow o m) + waiting id (drop_pending o m) ≡ waiting id m
drop-balanced id none m = omega arith
drop-balanced id (some (queued_event name payload)) m = omega arith
drop-balanced id (some (queued_request j name payload)) m =
    ground (arith, get-delete j id m, str_beq_iff j id)

pub drop-IsDistinct :
    (o : Option Queued) (m : Map Str (Unit {0})) → IsDistinct m → IsDistinct (drop_pending o m)
drop-IsDistinct none m h = h
drop-IsDistinct (some (queued_event name payload)) m h = h
drop-IsDistinct (some (queued_request j name payload)) m h = delete-IsDistinct j m h

-- One step settles a promise, keeps it, or adds it.
pub record Settles (pending : Map Str (Unit {0})) (extra : Str → ℕ) (r : Client × List Effect)
    : Type 0 where
  pub distinct : IsDistinct r.0.pending
  pub balanced :
      (id : Str) → settlements id r.1 + waiting id r.0.pending ≡ waiting id pending + extra id

pub Settles-if :
    (pending : Map Str (Unit {0})) (extra : Str → ℕ) (b : Bool) (x y : Client × List Effect)
    → (b ≡ true → Settles pending extra x)
    → (b ≡ false → Settles pending extra y)
    → Settles pending extra (if b then x else y)
Settles-if pending extra true x y h k = h refl
Settles-if pending extra false x y h k = k refl

pub quiet :
    (c d : Client) (effects : List Effect)
    → IsDistinct c.pending
    → d.pending ≡ c.pending
    → ((id : Str) → settlements id effects ≡ 0)
    → Settles c.pending (λ _. 0) (d, effects)
quiet c d effects h e z = record { distinct = rw e h; balanced = λ id. rw (e, z id) (omega arith) }

pub enqueue-Settles :
    (c : Client) (q : Queued) → IsDistinct c.pending → Settles c.pending (λ _. 0) (enqueue c q)
unfolding enqueue
enqueue-Settles c q h =
    Settles-if c.pending (λ _. 0) (leb c.opts.outbox_limit (length c.outbox)) _ _
      (λ full. record {
        distinct = drop-IsDistinct (first c.outbox) c.pending h;
        balanced = λ id. omega (arith, drop-balanced id (first c.outbox) c.pending);
      })
      (λ room. quiet c (record c { outbox = c.outbox ++ q ∷ [] }) [] h refl (λ id. refl))

pub submit-Settles :
    (c : Client) (q : Queued) → IsDistinct c.pending → Settles c.pending (λ _. 0) (submit c q)
unfolding submit
submit-Settles c q h =
    Settles-if c.pending (λ _. 0) (is_open c) _ _
      (λ up. quiet c c (send_now c (to_envelope q) ∷ []) h refl (λ id. refl))
      (λ down. enqueue-Settles c q h)

pub start_request-Settles :
    (c : Client) (id name : Str) (payload : Option Json)
    → IsDistinct c.pending
    → get id c.pending ≡ none
    → Settles c.pending (λ j. if str_beq id j then 1 else 0) (start_request c id name payload)
unfolding start_request
start_request-Settles c id name payload h fresh =
    let d : Client = record c { pending = set id tt c.pending } in
    let s = submit-Settles d (queued_request id name payload) (set-IsDistinct id tt c.pending h) in
    record {
      distinct = s.distinct;
      balanced = λ j. ground (arith, s.balanced j, get-set id j tt c.pending, str_beq_iff id j);
    }

pub handle_response-Settles :
    (c : Client) (id : Str) (success : Bool) (payload : Option Json) (error : Option Str)
    → IsDistinct c.pending
    → Settles c.pending (λ _. 0) (handle_response c id success payload error)
unfolding handle_response
handle_response-Settles c id success payload error h =
    Settles-if c.pending (λ _. 0) (is_some (get id c.pending)) _ _
      (λ found. record {
        distinct = delete-IsDistinct id c.pending h;
        balanced = λ j. ground (arith, get-delete id j c.pending, str_beq_iff id j);
      })
      (λ unknown. quiet c c [] h refl (λ j. refl))

pub shut_alive_quiet :
    (id : Str) (ws : Option ℕ) (sockets : Map ℕ ReadyState)
    → settlements id (shut_alive ws sockets) ≡ 0
shut_alive_quiet id none sockets = refl
shut_alive_quiet id (some n) sockets = ground arith

pub disconnect-Settles :
    (c : Client) → IsDistinct c.pending → Settles c.pending (λ _. 0) (disconnect c)
unfolding disconnect get
disconnect-Settles c h = record {
  distinct = λ id. refl;
  balanced = λ id. omega (
    arith,
    settlements-append id (shut_alive c.ws c.sockets)
        (reject_all (lit "disconnected") (keys c.pending)),
    settlements-reject_all (lit "disconnected") id (keys c.pending),
    shut_alive_quiet id c.ws c.sockets,
    h id,
  );
}

pub incoming_quiet :
    (id : Str) (c : Client) (request_id name : Str) (payload : Option Json)
    → settlements id (handle_incoming_request c request_id name payload) ≡ 0
unfolding handle_incoming_request
incoming_quiet id c request_id name payload = ground arith

pub complete_quiet :
    (id : Str) (c : Client) (socket : Option ℕ) (request_id : Str) (o : Outcome)
    → settlements id (complete c socket request_id o) ≡ 0
unfolding complete
complete_quiet id c socket request_id o = ground arith

pub pings_quiet : (id : Str) (c : Client) → settlements id (ping_tick c) ≡ 0
unfolding ping_tick
pings_quiet id c = ground arith

pub opened_quiet : (id : Str) (c : Client) → settlements id (handle_open c).1 ≡ 0
unfolding handle_open
opened_quiet id c = omega (
  arith,
  settlements-append id (flush c c.outbox) (on_open ∷ []),
  settlements-flush id c c.outbox,
)

pub pending-visibility_change :
    (c : Client) (visible : Bool) → (visibility_change c visible).pending ≡ c.pending
unfolding visibility_change open_socket
pending-visibility_change c visible = ground arith

pub pending-connect : (c : Client) → (connect c).pending ≡ c.pending
unfolding connect open_socket
pending-connect c = ground arith

pub pending-reconnect : (c : Client) → (reconnect c).pending ≡ c.pending
unfolding reconnect open_socket
pending-reconnect c = ground arith

pub pending-late_reconnect : (c : Client) → (late_reconnect c).pending ≡ c.pending
unfolding late_reconnect open_socket
pending-late_reconnect c = ground arith

pub pending-handle_close : (c : Client) (jitter : ℕ) → (handle_close c jitter).0.pending ≡ c.pending
unfolding handle_close schedule_reconnect
pending-handle_close c jitter = ground arith
