-- ===== src/Transport/Wire/Repetition.antt =====
-- What the listeners of a client are called with after a second loss of the connection.
use code_quest.Common.{
  ℕ, ◌+◌, ◌≤◌, ◌<◌, ◌≡◌, refl, sym, ap, subst, ◌∙◌, max, List, [], ◌++◌, Option, Str, length,
  length-append, drop, arith,
}
use code_quest.Common.Json.{Json}
use code_quest.Transport.Resumable
use code_quest.Transport.Resumable.{ResumableSocket}
use code_quest.Transport.Resumable.Numbering.{Tracks, rebind-Tracks}
use code_quest.Transport.Wire.Defs
use code_quest.Transport.Client.Defs.{Client}
use code_quest.Transport.Wire.Session.{
  Message, Session, publish_all, drop_connection, accept_connection, reconnect,
}
use code_quest.Transport.Wire.Delivery.{
  Delivered, publish_all-Delivered, publish_all-Tracks, buffer_size-publish_all, heard,
}
use code_quest.Transport.Wire.Redelivery.{
  begun, interrupted, answer_resume-Delivered, socket-answer_resume, drop-append, heard-behind,
  before-Tracks, before-size, before-seen, before-listening, inbox-before,
}

module _ (id : Str) (size : ℕ) (client : Client) (a m : List Message)
    (zero_seen : client.last_seq ≡ 0) (fits : length a + length m ≤ size) (room : 0 < size)
    (id₂ : Str) (b : List Message) (fits_all : length a + length m + length b ≤ size) where
  abbrev pub lost : Session
  lost = interrupted (begun id size client []) a m

  abbrev pub accepted : Session
  accepted = accept_connection lost id₂

  none_early : length {A = Message} [] ≤ size
  none_early = omega arith

  lost-Tracks : Tracks (a ++ m) lost.socket
  lost-Tracks = before-Tracks id size client [] a m zero_seen none_early room

  lost-size : lost.socket.buffer_size ≡ size
  lost-size = before-size id size client [] a m zero_seen none_early room

  lost-seen : lost.client.last_seq ≡ length a
  lost-seen = omega (arith, before-seen id size client [] a m zero_seen none_early room)

  accepted-Tracks : Tracks (a ++ m) accepted.socket
  unfolding accept_connection
  accepted-Tracks = rebind-Tracks (a ++ m) lost.socket id₂ lost-Tracks

  accepted-size : accepted.socket.buffer_size ≡ size
  unfolding accept_connection Resumable.rebind
  accepted-size = lost-size

  accepted-kept : length (a ++ m) ≤ lost.client.last_seq + accepted.socket.buffer_size
  accepted-kept = omega (arith, accepted-size, lost-seen, length-append a m)

  returned : Delivered accepted m (reconnect lost id₂)
  unfolding reconnect accept_connection Defs.accept
  returned =
      let e : lost.client.last_seq ≡ length a + 0 = omega (arith, lost-seen) in
      subst (λ es. Delivered accepted es (reconnect lost id₂))
        (ap (λ n. drop n (a ++ m)) e ∙ drop-append 0 a m)
        (answer_resume-Delivered accepted lost.client.last_seq (a ++ m) accepted-Tracks
          (rw accepted-size room) accepted-kept refl (omega arith))

  returned-socket : (reconnect lost id₂).socket ≡ accepted.socket
  unfolding reconnect
  returned-socket =
      socket-answer_resume accepted lost.client.last_seq (a ++ m) accepted-Tracks
        (rw accepted-size room) accepted-kept

  returned-inbox : (reconnect lost id₂).inbox ≡ heard client.listeners (a ++ m)
  unfolding accept_connection
  returned-inbox =
      heard-behind client.listeners accepted.client.listeners accepted.inbox
        (reconnect lost id₂).inbox a m
        (inbox-before id size client [] a m zero_seen none_early room)
        (before-listening id size client [] a m zero_seen none_early room) returned.inbox

  abbrev pub second : Session
  second = publish_all (reconnect lost id₂) b

  second-Delivered : Delivered (reconnect lost id₂) b second
  unfolding accept_connection Defs.accept
  second-Delivered =
      publish_all-Delivered (reconnect lost id₂) b returned.up
        (omega (arith, returned.numbered, returned.seen))

  second-seen : second.client.last_seq ≡ max (length a) (length m + length b)
  unfolding accept_connection Defs.accept
  second-seen = omega (arith, second-Delivered.seen, returned.numbered, returned.seen, lost-seen)

  second-Tracks : Tracks ((a ++ m) ++ b) second.socket
  second-Tracks =
      publish_all-Tracks (reconnect lost id₂) (a ++ m) b (rw returned-socket accepted-Tracks)

  second-size : second.socket.buffer_size ≡ size
  second-size =
      buffer_size-publish_all (reconnect lost id₂) b
      ∙ ap (λ (x : ResumableSocket (Option Json)). x.buffer_size) returned-socket
      ∙ accepted-size

  second-listening : second.client.listeners ≡ client.listeners
  unfolding accept_connection
  second-listening =
      second-Delivered.listening
      ∙ returned.listening
      ∙ before-listening id size client [] a m zero_seen none_early room

  second-inbox : second.inbox ≡ heard client.listeners ((a ++ m) ++ b)
  second-inbox =
      heard-behind client.listeners (reconnect lost id₂).client.listeners (reconnect lost id₂).inbox
        second.inbox (a ++ m) b returned-inbox (sym second-Delivered.listening ∙ second-listening)
        second-Delivered.inbox

  -- After a second loss in a session in which no event goes out between the acceptance of a
  -- connection and the answer to its resume message, and whose events all fit into the buffer, the
  -- listeners of the client, although it had missed nothing, are called once more with the last
  -- `min (length a) (length m + length b)` events that they have had: the client resumes from the
  -- highest number that it has seen, and the second connection numbered its events from 1 again.
  pub inbox-reconnect_again :
      (id₃ : Str)
      → (reconnect (drop_connection second) id₃).inbox
        ≡ heard client.listeners
            (((a ++ m) ++ b) ++ drop (max (length a) (length m + length b)) ((a ++ m) ++ b))
  unfolding drop_connection reconnect accept_connection Resumable.rebind Defs.accept
  inbox-reconnect_again id₃ =
      let h = (a ++ m) ++ b in
      let s : Session = accept_connection (drop_connection second) id₃ in
      let d =
        answer_resume-Delivered s second.client.last_seq h
          (rebind-Tracks h second.socket id₃ second-Tracks) (rw second-size room)
          (omega (arith, second-size, second-seen, length-append (a ++ m) b, length-append a m))
          refl (omega arith) in
      heard-behind client.listeners second.client.listeners second.inbox
        (reconnect (drop_connection second) id₃).inbox h (drop second.client.last_seq h)
        second-inbox second-listening d.inbox
      ∙ ap (λ n. heard client.listeners (h ++ drop n h)) second-seen
