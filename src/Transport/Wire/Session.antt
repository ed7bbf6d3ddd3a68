-- ===== src/Transport/Wire/Session.antt =====
-- A session over several connections: the resumable socket of the server, the connection that it
-- is bound to, and the client. A connection delivers in order what is sent on it.
use code_quest.Common.{ℕ, List, [], ◌∷◌, ◌++◌, Option, some, Str}
use code_quest.Common.Text.{lit}
use code_quest.Common.Json.{Json, obj, end}
use code_quest.Transport.Resumable
use code_quest.Transport.Resumable.{ResumableSocket, Emission, ResumeResult, ok, gap}
use code_quest.Transport.Wire.Defs
use code_quest.Transport.Wire.Defs.{SocketMeta, Effect, send, call}
use code_quest.Transport.Client.Defs as ClientDefs
use code_quest.Transport.Client.Defs.{Client, Happening, arrives}

abbrev pub Message : Type 0
Message = Str × Option Json

-- `inbox` lists what the client did at what arrived: the calls of its listeners.
pub record Session : Type 0 where
  pub socket : ResumableSocket (Option Json)
  pub meta : SocketMeta
  pub client : Client
  pub inbox : List ClientDefs.Effect

abbrev pub messages : List (Emission (Option Json)) → List Message
messages [] = []
messages (e ∷ es) = (e.event, e.args) ∷ messages es

abbrev pub arrivals : List Effect → List Happening
arrivals [] = []
arrivals (send env ∷ es) = arrives (some env) ∷ arrivals es
arrivals (call _ _ _ ∷ es) = arrivals es

-- The emissions go out on the connection, and what it sends reaches the client.
unfoldable pub deliver : Session → List Message → Session
deliver s es =
    let (meta, effects) = Defs.emit_all s.meta es in
    let (client, calls) = ClientDefs.run s.client (arrivals effects) in
    record s { meta = meta; client = client; inbox = s.inbox ++ calls }

unfoldable pub publish : Session → Message → Session
unfolding deliver
publish s (name, payload) =
    let (socket, emissions) = Resumable.emit s.socket name payload in
    deliver (record s { socket = socket }) (messages emissions)

unfoldable pub publish_all : Session → List Message → Session
unfolding publish
publish_all s [] = s
publish_all s (e ∷ es) = publish_all (publish s e) es

-- The connection is lost.
unfoldable pub drop_connection : Session → Session
drop_connection s = record s { meta = (Defs.handle_close s.meta).0 }

-- `rs.emit(STATE_REFRESH_REQUIRED_EVENT, {})` on a gap
unfoldable pub settle_resume : ResumeResult → Session → Session
unfolding publish
settle_resume (ok replayed) s = s
settle_resume gap s = publish s (lit "state:refresh_required", some (obj end))

-- The first connection of a session is accepted.
unfoldable pub begin_session : Str → (size : ℕ) → Client → Session
begin_session id size client = record {
  socket = Resumable.new id size;
  meta = Defs.accept;
  client = client;
  inbox = [];
}

-- A new connection is accepted, and the resumable socket is bound to it. From now on events go out.
unfoldable pub accept_connection : Session → Str → Session
accept_connection s id = record s { socket = Resumable.rebind s.socket id; meta = Defs.accept }

-- The resume message that the client sent when its connection opened arrives, and is answered.
unfoldable pub answer_resume : Session → (last_seq : ℕ) → Session
unfolding deliver settle_resume
answer_resume s last_seq =
    let (result, emissions) = Resumable.resume s.socket last_seq in
    settle_resume result (deliver s (messages emissions))

-- A connection whose resume message arrives before any event has gone out on it.
unfoldable pub reconnect : Session → Str → Session
unfolding accept_connection answer_resume
reconnect s id = answer_resume (accept_connection s id) s.client.last_seq
