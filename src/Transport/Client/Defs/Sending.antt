-- ===== src/Transport/Client/Defs/Sending.antt =====
-- What a client sends and queues, and its listeners: emit, request, on and onRequest of ws-client.ts.
use code_quest.Common.{
  ℕ, List, [], ◌∷◌, ◌++◌, Option, none, some, Str, if◌then◌else◌, str_eq, nat_eq, or_default, leb,
  length, shift, is_some,
}
use code_quest.Common.Text.{lit}
use code_quest.Common.Json.{Json}
use code_quest.Common.Map.{Map, get, set, delete}
use code_quest.Common.Keys.{add, remove}
use code_quest.Transport.Client.Defs.State.{
  Queued, queued_event, queued_request, rejected, Effect, settle, Client, is_open, to_envelope,
  send_now,
}

abbrev pub drop_pending : Option Queued → Map Str (Unit {0}) → Map Str (Unit {0})
drop_pending (some (queued_request id _ _)) pending = delete id pending
drop_pending _ pending = pending

abbrev pub overflow : Option Queued → Map Str (Unit {0}) → List Effect
overflow (some (queued_request id _ _)) pending =
    if is_some (get id pending) then settle id (rejected (lit "outbox overflow")) ∷ [] else []
overflow _ pending = []

abbrev pub first : List Queued → Option Queued
first [] = none
first (q ∷ _) = some q

unfoldable pub enqueue : Client → Queued → Client × List Effect
enqueue c q =
    if leb c.opts.outbox_limit (length c.outbox)
    then (
      record c {
        outbox = shift c.outbox ++ q ∷ [];
        pending = drop_pending (first c.outbox) c.pending;
      },
      overflow (first c.outbox) c.pending,
    )
    else (record c { outbox = c.outbox ++ q ∷ [] }, [])

-- The tail that `emit` and `request` share.
unfoldable pub submit : Client → Queued → Client × List Effect
unfolding enqueue is_open send_now to_envelope
submit c q = if is_open c then (c, send_now c (to_envelope q) ∷ []) else enqueue c q

unfoldable pub emit : Client → Str → Option Json → Client × List Effect
unfolding submit
emit c name payload = submit c (queued_event name payload)

unfoldable pub start_request : Client → (id : Str) → Str → Option Json → Client × List Effect
unfolding submit
start_request c id name payload =
    submit (record c { pending = set id tt c.pending }) (queued_request id name payload)

unfoldable pub listen : Client → Str → ℕ → Client
listen c name fn = record c {
  listeners = set name (add fn (or_default (get name c.listeners) [])) c.listeners;
}

abbrev pub without : Option (List ℕ) → Str → ℕ → Map Str (List ℕ) → Map Str (List ℕ)
without none name fn m = m
without (some fns) name fn m = set name (remove fn fns) m

unfoldable pub off : Client → Str → ℕ → Client
off c name fn = record c { listeners = without (get name c.listeners) name fn c.listeners }

unfoldable pub on_request : Client → Str → ℕ → Client
on_request c name handler = record c { request_handlers = set name handler c.request_handlers }

unfoldable pub off_request : Client → Str → Client
off_request c name = record c { request_handlers = delete name c.request_handlers }
