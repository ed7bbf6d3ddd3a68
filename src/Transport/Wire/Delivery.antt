-- ===== src/Transport/Wire/Delivery.antt =====
-- What a session delivers on one connection.
use code_quest.Common.{
  ℕ, ◌+◌, ◌≤◌, ◌≡◌, refl, sym, ap, ◌∙◌, max, true, false, List, [], ◌∷◌, ◌++◌, append-nil,
  append_assoc, Option, some, Str, map, or_default, str_eq, length, arith,
}
use code_quest.Common.Json.{Json}
use code_quest.Common.Map.{Map, get}
use code_quest.Transport.Envelope.{event}
use code_quest.Transport.Resumable
use code_quest.Transport.Resumable.{ResumableSocket, Emission, Call, emits, rebinds}
use code_quest.Transport.Resumable.Numbering.{Tracks, run-Tracks, buffer_size-run, history, sends}
use code_quest.Transport.Wire.Defs
use code_quest.Transport.Wire.Defs.{SocketMeta, Effect, send, call, emit_all}
use code_quest.Transport.Client.Defs as ClientDefs
use code_quest.Transport.Client.Defs.{Client, arrives}
use code_quest.Transport.Client.Backoff.{highest, last_seq-run}
use code_quest.Transport.Wire.Session.{
  Message, Session, messages, arrivals, deliver, publish, publish_all,
}

-- what an open connection that has numbered `k` events makes of the next ones
abbrev pub wire : ℕ → List Message → List Effect
wire k [] = []
wire k ((name, payload) ∷ es) = send (event (k + 1) name payload) ∷ wire (k + 1) es

pub emit_all-open :
    (m : SocketMeta) (es : List Message)
    → m.is_open ≡ true
    → ((emit_all m es).1 ≡ wire m.next_seq es)
      × ((emit_all m es).0.next_seq ≡ m.next_seq + length es)
      × ((emit_all m es).0.is_open ≡ true)
unfolding emit_all Defs.emit
emit_all-open m [] up = (refl, omega arith, up)
emit_all-open m (e ∷ es) up =
    ground (arith, emit_all-open (record m { next_seq = m.next_seq + 1 }) es up)

pub emit_all-shut :
    (m : SocketMeta) (es : List Message)
    → m.is_open ≡ false
    → ((emit_all m es).1 ≡ []) × ((emit_all m es).0 ≡ m)
unfolding emit_all Defs.emit
emit_all-shut m [] down = (refl, refl)
emit_all-shut m (e ∷ es) down = ground (arith, emit_all-shut m es down)

-- What listeners are called with, when events arrive one after the other.
abbrev pub heard : Map Str (List ℕ) → List Message → List ClientDefs.Effect
heard listeners [] = []
heard listeners ((name, payload) ∷ es) =
    map (λ fn. ClientDefs.notify fn payload) (or_default (get name listeners) [])
    ++ heard listeners es

pub heard-append :
    (ls : Map Str (List ℕ)) (es fs : List Message)
    → heard ls (es ++ fs) ≡ heard ls es ++ heard ls fs
heard-append ls [] fs = refl
heard-append ls ((name, payload) ∷ es) fs =
    let here = map (λ fn. ClientDefs.notify fn payload) (or_default (get name ls) []) in
    ap (λ x. here ++ x) (heard-append ls es fs)
    ∙ sym (append_assoc here (heard ls es) (heard ls fs))

run-wire :
    (c : Client) (k : ℕ) (es : List Message)
    → ((ClientDefs.run c (arrivals (wire k es))).1 ≡ heard c.listeners es)
      × ((ClientDefs.run c (arrivals (wire k es))).0.listeners ≡ c.listeners)
unfolding ClientDefs.run ClientDefs.step ClientDefs.handle_message ClientDefs.fire_listener
run-wire c k [] = (refl, refl)
run-wire c k ((name, payload) ∷ es) =
    let d : Client = (ClientDefs.step c (arrives (some (event (k + 1) name payload)))).0 in
    let (calls, same) = run-wire d (k + 1) es in
    let here = map (λ fn. ClientDefs.notify fn payload) (or_default (get name c.listeners) []) in
    (ap (λ x. here ++ x) calls, same)

pub highest-wire :
    (n k : ℕ) (es : List Message) → k ≤ n → highest n (arrivals (wire k es)) ≡ max n (k + length es)
highest-wire n k [] h = omega arith
highest-wire n k (e ∷ es) h = highest-wire (max n (k + 1)) (k + 1) es (omega arith) ∙ omega arith

-- `t` is `s` after the events `es` went out on its open connection.
pub record Delivered (s : Session) (es : List Message) (t : Session) : Type 0 where
  pub inbox : t.inbox ≡ s.inbox ++ heard s.client.listeners es
  pub listening : t.client.listeners ≡ s.client.listeners
  pub up : t.meta.is_open ≡ true
  pub numbered : t.meta.next_seq ≡ s.meta.next_seq + length es
  pub seen : t.client.last_seq ≡ max s.client.last_seq (s.meta.next_seq + length es)

pub deliver-Delivered :
    (s : Session) (es : List Message)
    → s.meta.is_open ≡ true
    → s.meta.next_seq ≤ s.client.last_seq
    → Delivered s es (deliver s es)
unfolding deliver
deliver-Delivered s es up fits =
    let (effects, next, still) = emit_all-open s.meta es up in
    record {
      inbox = rw (effects, (run-wire s.client s.meta.next_seq es).0);
      listening = rw effects (run-wire s.client s.meta.next_seq es).1;
      up = still;
      numbered = next;
      seen = rw effects (
          last_seq-run s.client (arrivals (wire s.meta.next_seq es))
          ∙ highest-wire s.client.last_seq s.meta.next_seq es fits);
    }

abbrev pub as_calls : List Message → List (Call (Option Json))
as_calls [] = []
as_calls ((name, payload) ∷ es) = emits name payload ∷ as_calls es

pub socket-deliver : (s : Session) (es : List Message) → (deliver s es).socket ≡ s.socket
unfolding deliver
socket-deliver s es = refl

pub publish_all-socket :
    (s : Session) (es : List Message)
    → (publish_all s es).socket ≡ Resumable.run s.socket (as_calls es)
unfolding publish_all Resumable.run
publish_all-socket s [] = refl
publish_all-socket s (e ∷ es) = publish_all-socket (publish s e) es ∙ refl

pub publish-Delivered :
    (s : Session) (e : Message)
    → s.meta.is_open ≡ true
    → s.meta.next_seq ≤ s.client.last_seq
    → Delivered s (e ∷ []) (publish s e)
unfolding publish Resumable.emit
publish-Delivered s e up fits =
    let d =
      deliver-Delivered (record s { socket = (Resumable.emit s.socket e.0 e.1).0 }) (e ∷ []) up
        fits in
    record {
      inbox = d.inbox;
      listening = d.listening;
      up = d.up;
      numbered = d.numbered;
      seen = d.seen;
    }

pub publish_all-Delivered :
    (s : Session) (es : List Message)
    → s.meta.is_open ≡ true
    → s.meta.next_seq ≤ s.client.last_seq
    → Delivered s es (publish_all s es)
unfolding publish_all
publish_all-Delivered s [] up fits = record {
  inbox = sym (append-nil s.inbox);
  listening = refl;
  up = up;
  numbered = omega arith;
  seen = omega arith;
}
publish_all-Delivered s (e ∷ es) up fits =
    let one = publish-Delivered s e up fits in
    let rest =
      publish_all-Delivered (publish s e) es one.up (omega (arith, one.numbered, one.seen)) in
    record {
      inbox =
          rest.inbox
          ∙ ap (λ ls. (publish s e).inbox ++ heard ls es) one.listening
          ∙ ap (λ x. x ++ heard s.client.listeners es) one.inbox
          ∙ append_assoc s.inbox (heard s.client.listeners (e ∷ [])) (heard s.client.listeners es)
          ∙ ap (λ x. s.inbox ++ x) (sym (heard-append s.client.listeners (e ∷ []) es));
      listening = rest.listening ∙ one.listening;
      up = rest.up;
      numbered = omega (arith, rest.numbered, one.numbered);
      seen = omega (arith, rest.seen, one.numbered, one.seen);
    }

-- What is published on a lost connection reaches nobody.
pub record Unheard (s t : Session) : Type 0 where
  pub inbox : t.inbox ≡ s.inbox
  pub listening : t.client.listeners ≡ s.client.listeners
  pub down : t.meta.is_open ≡ false
  pub seen : t.client.last_seq ≡ s.client.last_seq

pub publish-Unheard : (s : Session) (e : Message) → s.meta.is_open ≡ false → Unheard s (publish s e)
unfolding publish deliver Resumable.emit ClientDefs.run
publish-Unheard s e down =
    let (silent, same) = emit_all-shut s.meta (e ∷ []) down in
    record {
      inbox = rw silent (append-nil s.inbox);
      listening = rw silent refl;
      down = rw same down;
      seen = rw silent (last_seq-run s.client []);
    }

pub publish_all-Unheard :
    (s : Session) (es : List Message) → s.meta.is_open ≡ false → Unheard s (publish_all s es)
unfolding publish_all
publish_all-Unheard s [] down = record { inbox = refl; listening = refl; down = down; seen = refl }
publish_all-Unheard s (e ∷ es) down =
    let one = publish-Unheard s e down in
    let rest = publish_all-Unheard (publish s e) es one.down in
    record {
      inbox = rest.inbox ∙ one.inbox;
      listening = rest.listening ∙ one.listening;
      down = rest.down;
      seen = rest.seen ∙ one.seen;
    }

pub history-as_calls : (es : List Message) → history (as_calls es) ≡ es
history-as_calls [] = refl
history-as_calls (e ∷ es) = ap (◌∷◌ e) (history-as_calls es)

pub publish_all-Tracks :
    (s : Session) (h es : List Message)
    → Tracks h s.socket
    → Tracks (h ++ es) (publish_all s es).socket
publish_all-Tracks s h es t =
    rw (publish_all-socket s es)
      (rw (history-as_calls es) at (run-Tracks h s.socket (as_calls es) t))

pub buffer_size-publish_all :
    (s : Session) (es : List Message) → (publish_all s es).socket.buffer_size ≡ s.socket.buffer_size
buffer_size-publish_all s es = rw (publish_all-socket s es) (buffer_size-run s.socket (as_calls es))

pub messages-sends : (inner : Str) (es : List Message) → messages (sends inner es) ≡ es
messages-sends inner [] = refl
messages-sends inner (e ∷ es) = ap (◌∷◌ e) (messages-sends inner es)
