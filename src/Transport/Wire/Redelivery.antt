-- ===== src/Transport/Wire/Redelivery.antt =====
-- What the listeners of a client are called with over several connections.
use code_quest.Common.{
  ℕ, suc, ◌+◌, ◌≤◌, ◌<◌, ◌≡◌, refl, sym, ap, subst, ◌∙◌, true, false, List, [], ◌∷◌, ◌++◌, Option,
  Str, length, drop, ltb, arith,
}
use code_quest.Common.Json.{Json}
use code_quest.Common.Map.{Map}
use code_quest.Transport.Resumable
use code_quest.Transport.Resumable.{ResumableSocket}
use code_quest.Transport.Resumable.Numbering.{Tracks}
use code_quest.Transport.Resumable.Replay.{resume-Tracks, new-Tracks, replayed}
use code_quest.Transport.Wire.Defs
use code_quest.Transport.Client.Defs as ClientDefs
use code_quest.Transport.Client.Defs.{Client}
use code_quest.Transport.Wire.Session.{
  Message, Session, messages, deliver, publish_all, drop_connection, begin_session,
  accept_connection, answer_resume, settle_resume,
}
use code_quest.Transport.Wire.Delivery.{
  Delivered, deliver-Delivered, socket-deliver, publish_all-Delivered, Unheard, publish_all-Unheard,
  publish_all-Tracks, buffer_size-publish_all, messages-sends, heard, heard-append,
}

-- the answer to a resume message for number `n`, after the events `h`
module _ (s : Session) (n : ℕ) (h : List Message) (t : Tracks h s.socket)
    (room : 0 < s.socket.buffer_size) (kept : length h ≤ n + s.socket.buffer_size) where
  answered : Resumable.resume s.socket n ≡ replayed s.socket.inner (drop n h)
  answered =
      let in_time : ltb (n + s.socket.buffer_size) (length h) ≡ false = ground arith in
      resume-Tracks s.socket h n t room ∙ rw in_time

  as_delivery : answer_resume s n ≡ deliver s (drop n h)
  unfolding answer_resume
  as_delivery =
      ap (λ r. settle_resume r.0 (deliver s (messages r.1))) answered
      ∙ ap (deliver s) (messages-sends s.socket.inner (drop n h))

  pub socket-answer_resume : (answer_resume s n).socket ≡ s.socket
  socket-answer_resume = ap (λ (x : Session). x.socket) as_delivery ∙ socket-deliver s (drop n h)

  pub answer_resume-Delivered :
      s.meta.is_open ≡ true
      → s.meta.next_seq ≤ s.client.last_seq
      → Delivered s (drop n h) (answer_resume s n)
  answer_resume-Delivered up fits = rw as_delivery (deliver-Delivered s (drop n h) up fits)

-- A session whose first connection carries the events `p` before the client's first resume message
-- is answered, and the events `a` behind it; then it is lost, and the events `m` come up.
abbrev pub begun : Str → ℕ → Client → List Message → Session
begun id size client p =
    answer_resume (publish_all (begin_session id size client) p) client.last_seq

abbrev pub interrupted : Session → List Message → List Message → Session
interrupted s a m = publish_all (drop_connection (publish_all s a)) m

-- A second connection carries the events `q` before its resume message is answered, which the client
-- sent when the connection opened.
abbrev pub resumed : Session → Str → List Message → Session
resumed s id q = answer_resume (publish_all (accept_connection s id) q) s.client.last_seq

pub drop-append : (n : ℕ) (xs ys : List Message) → drop (length xs + n) (xs ++ ys) ≡ drop n ys
drop-append n [] ys = let e : 0 + n ≡ n = omega arith in ap (λ k. drop k ys) e
drop-append n (x ∷ xs) ys =
    let e : length (x ∷ xs) + n ≡ suc (length xs + n) = omega arith in
    ap (λ k. drop k (x ∷ (xs ++ ys))) e ∙ drop-append n xs ys

-- calls behind calls
pub heard-behind :
    (ls ms : Map Str (List ℕ)) (x y : List ClientDefs.Effect) (h es : List Message)
    → x ≡ heard ls h
    → ms ≡ ls
    → y ≡ x ++ heard ms es
    → y ≡ heard ls (h ++ es)
heard-behind ls ms x y h es before same now =
    now
    ∙ ap (λ u. x ++ heard u es) same
    ∙ ap (λ u. u ++ heard ls es) before
    ∙ sym (heard-append ls h es)

module _ (id : Str) (size : ℕ) (client : Client) (p a m : List Message)
    (zero_seen : client.last_seq ≡ 0) (first_fits : length p ≤ size) (room : 0 < size) where
  abbrev calls_of : List Message → List ClientDefs.Effect
  calls_of es = heard client.listeners es

  abbrev early : Session
  early = publish_all (begin_session id size client) p

  early-Delivered : Delivered (begin_session id size client) p early
  unfolding begin_session Defs.accept
  early-Delivered =
      publish_all-Delivered (begin_session id size client) p refl (omega (arith, zero_seen))

  early-Tracks : Tracks p early.socket
  unfolding begin_session
  early-Tracks = publish_all-Tracks (begin_session id size client) [] p (new-Tracks id size)

  early-size : early.socket.buffer_size ≡ size
  unfolding begin_session Resumable.new
  early-size = buffer_size-publish_all (begin_session id size client) p

  abbrev start : Session
  start = begun id size client p

  start-Delivered : Delivered early p start
  unfolding begin_session Defs.accept
  start-Delivered =
      subst (λ es. Delivered early es start) (ap (λ n. drop n p) zero_seen)
        (answer_resume-Delivered early client.last_seq p early-Tracks (rw early-size room)
          (omega (arith, early-size, first_fits)) early-Delivered.up
          (omega (arith, early-Delivered.numbered, early-Delivered.seen, zero_seen)))

  start-socket : start.socket ≡ early.socket
  start-socket =
      socket-answer_resume early client.last_seq p early-Tracks (rw early-size room)
        (omega (arith, early-size, first_fits))

  abbrev carried : Session
  carried = publish_all start a

  carried-Delivered : Delivered start a carried
  unfolding begin_session Defs.accept
  carried-Delivered = publish_all-Delivered start a start-Delivered.up (
      omega (
        arith, start-Delivered.numbered, start-Delivered.seen, early-Delivered.numbered,
        early-Delivered.seen, zero_seen,
      ))

  abbrev pub before : Session
  before = interrupted start a m

  lost : Unheard (drop_connection carried) before
  unfolding drop_connection Defs.handle_close
  lost = publish_all-Unheard (drop_connection carried) m refl

  pub before-Tracks : Tracks ((p ++ a) ++ m) before.socket
  unfolding drop_connection
  before-Tracks =
      publish_all-Tracks (drop_connection carried) (p ++ a) m
        (publish_all-Tracks start p a (rw start-socket early-Tracks))

  pub before-size : before.socket.buffer_size ≡ size
  unfolding drop_connection
  before-size =
      buffer_size-publish_all (drop_connection carried) m
      ∙ buffer_size-publish_all start a
      ∙ ap (λ (x : ResumableSocket (Option Json)). x.buffer_size) start-socket
      ∙ early-size

  pub before-seen : before.client.last_seq ≡ length p + (length p + length a)
  unfolding drop_connection begin_session Defs.accept
  before-seen = omega (
    arith, lost.seen, carried-Delivered.seen, start-Delivered.seen, start-Delivered.numbered,
    early-Delivered.numbered, early-Delivered.seen, zero_seen,
  )

  pub before-listening : before.client.listeners ≡ client.listeners
  unfolding drop_connection begin_session
  before-listening =
      lost.listening ∙ carried-Delivered.listening ∙ start-Delivered.listening
      ∙ early-Delivered.listening

  pub inbox-before : before.inbox ≡ heard client.listeners ((p ++ p) ++ a)
  unfolding drop_connection begin_session
  inbox-before =
      let ls = client.listeners in
      let e = heard-behind ls ls [] early.inbox [] p refl refl early-Delivered.inbox in
      let f =
        heard-behind ls early.client.listeners early.inbox start.inbox p p e
          early-Delivered.listening start-Delivered.inbox in
      let g =
        heard-behind ls start.client.listeners start.inbox carried.inbox (p ++ p) a f
          (start-Delivered.listening ∙ early-Delivered.listening) carried-Delivered.inbox in
      lost.inbox ∙ g

  module _ (id₂ : Str) (q : List Message) (fits : length m + length q ≤ length p + size) where
    abbrev waiting : Session
    waiting = publish_all (accept_connection before id₂) q
