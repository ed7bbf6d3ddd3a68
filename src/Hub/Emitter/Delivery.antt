-- ===== src/Hub/Emitter/Delivery.antt =====
-- How often each socket gets what is sent to a channel, to the others of a channel, and to all.
use code_quest.Common.{
  ℕ, ◌+◌, ◌≡◌, ◌≢◌, refl, subst, Bool, Bool-cases, inl, inr, List, [], ◌∷◌, none, some, Str,
  if◌then◌else◌, nat_eq, str_eq, nat_beq, nat_beq_iff, str_beq, str_beq_iff, or_default, arith,
}
use code_quest.Common.Json.{Json}
use code_quest.Common.Map.{Map, get, set, delete, values, get-set, get-delete}
use code_quest.Common.Keys.{member, add, remove, member-add, member-remove}
use code_quest.Hub.Emitter.Defs.{
  Emitter, Effect, emitted, called, failed, connected, listens, new, sockets, channels,
  add_socket_to_channel, remove_socket_from_all, take_out, add_to_each, reattach_socket,
  expire_socket, handle_connection, emit_each, emit, emit_each_but, emit_to_others, broadcast_all,
}
use code_quest.Hub.Emitter.Membership.{follows}
use code_quest.Hub.Emitter.Tracking as Tracking
use code_quest.Hub.Emitter.Tracking.{
  World, start, renamed, Step, connects, joins, leaves, reconnects, reattaches, expires, IsAllowed,
  AreAllowed,
}

one_if : Bool → ℕ
one_if b = if b then 1 else 0

count : ℕ → List ℕ → ℕ
count r [] = 0
count r (s ∷ socks) = (if nat_beq s r then 1 else 0) + count r socks

-- how often the socket gets something
abbrev pub deliveries : ℕ → List Effect → ℕ
deliveries r [] = 0
deliveries r (emitted s _ _ ∷ effects) = (if nat_beq s r then 1 else 0) + deliveries r effects
deliveries r (called _ _ ∷ effects) = deliveries r effects
deliveries r (failed _ _ _ ∷ effects) = deliveries r effects
deliveries r (connected _ _ ∷ effects) = deliveries r effects
deliveries r (listens _ _ ∷ effects) = deliveries r effects

deliveries-emit_each :
    (r : ℕ) (socks : List ℕ) (event : Str) (args : List Json)
    → deliveries r (emit_each socks event args) ≡ count r socks
unfolding emit_each count
deliveries-emit_each r [] event args = refl
deliveries-emit_each r (s ∷ socks) event args =
    ground (arith, deliveries-emit_each r socks event args)

abbrev IsOnce : List ℕ → Type 0
IsOnce s = (r : ℕ) → count r s ≡ (if member r s then 1 else 0)

count-add :
    (k r : ℕ) (s : List ℕ)
    → count r (add k s)
      ≡ (if member k s then count r s else count r s + (if nat_beq k r then 1 else 0))
unfolding count add member
count-add k r [] = ground arith
count-add k r (j ∷ s) =
    ground (arith, count-add k r s, nat_beq_iff j k, nat_beq_iff j r, nat_beq_iff k r)

count-remove :
    (k r : ℕ) (s : List ℕ) → count r (remove k s) ≡ (if nat_beq k r then 0 else count r s)
unfolding count remove
count-remove k r [] = ground arith
count-remove k r (j ∷ s) =
    ground (arith, count-remove k r s, nat_beq_iff j k, nat_beq_iff j r, nat_beq_iff k r)

add-IsOnce : (k : ℕ) (s : List ℕ) → IsOnce s → IsOnce (add k s)
add-IsOnce k s h r = ground (arith, h r, count-add k r s, member-add k r s, nat_beq_iff k r)

remove-IsOnce : (k : ℕ) (s : List ℕ) → IsOnce s → IsOnce (remove k s)
remove-IsOnce k s h r = ground (arith, h r, count-remove k r s, member-remove k r s)

-- each channel's set lists a socket once
abbrev AreOnce : Map Str (List ℕ) → Type 0
AreOnce m = (c : Str) → IsOnce (or_default (get c m) [])

set-AreOnce :
    (c : Str) (s : List ℕ) (m : Map Str (List ℕ)) → IsOnce s → AreOnce m → AreOnce (set c s m)
set-AreOnce c s m h k c₂ r = ground (arith, h r, k c₂ r, get-set c c₂ s m)

take_out-AreOnce :
    (ids : List Str) (r : ℕ) (m : Map Str (List ℕ)) → AreOnce m → AreOnce (take_out ids r m)
unfolding take_out
take_out-AreOnce [] r m h = h
take_out-AreOnce (id ∷ ids) r m h =
    elim (get id m)
        as (λ o.
          (get id m ≡ o)
          → AreOnce (elim o [
            | none ↦ take_out ids r m
            | some socks ↦ take_out ids r (set id (remove r socks) m)
          ])) [
            | none ↦ λ e. take_out-AreOnce ids r m h
            | some socks ↦ λ e. take_out-AreOnce ids r (set id (remove r socks) m) (
                set-AreOnce id (remove r socks) m
                  (remove-IsOnce r socks (subst (λ o. IsOnce (or_default o [])) e (h id))) h)
          ]
      refl

add_to_each-AreOnce :
    (ids : List Str) (r : ℕ) (id : Str) (e : Emitter)
    → AreOnce e.channel_sockets
    → AreOnce (add_to_each ids r id e).channel_sockets
unfolding add_to_each add_socket_to_channel
add_to_each-AreOnce [] r id e h = h
add_to_each-AreOnce (i ∷ ids) r id e h =
    add_to_each-AreOnce ids r id (add_socket_to_channel e i r id)
      (set-AreOnce i (add r (sockets e i)) e.channel_sockets (add-IsOnce r (sockets e i) (h i)) h)

-- an id stands in one entry, with a socket that has the id
abbrev AreOwned : (ℕ → Str) → Map Str ℕ → Type 0
AreOwned ids [] = Unit
AreOwned ids ((k, r) ∷ m) = (ids r ≡ k) × (get k m ≡ none) × AreOwned ids m

set-AreOwned :
    (ids : ℕ → Str) (k : Str) (r : ℕ) (m : Map Str ℕ)
    → ids r ≡ k
    → AreOwned ids m
    → AreOwned ids (set k r m)
unfolding set get
set-AreOwned ids k r [] e h = (e, refl, h)
set-AreOwned ids k r ((j, s) ∷ m) e (a, b, h) =
    ground (arith, set-AreOwned ids k r m e h, get-set k j r m, str_beq_iff j k, str_beq_iff k j)

delete-AreOwned :
    (ids : ℕ → Str) (k : Str) (m : Map Str ℕ) → AreOwned ids m → AreOwned ids (delete k m)
unfolding delete get
delete-AreOwned ids k [] h = h
delete-AreOwned ids k ((j, s) ∷ m) (a, b, h) =
    ground (arith, delete-AreOwned ids k m h, get-delete k j m)

-- A socket without an entry may change its id.
renamed-AreOwned :
    (ids : ℕ → Str) (r : ℕ) (id : Str) (m : Map Str ℕ)
    → get (ids r) m ≡ none
    → AreOwned ids m
    → AreOwned (renamed r id ids) m
unfolding get
renamed-AreOwned ids r id [] gone h = h
renamed-AreOwned ids r id ((j, s) ∷ m) gone (a, b, h) = elim (Bool-cases (nat_beq r s)) [
  | inl e ↦ absurd (ground (arith, gone, a, e, nat_beq_iff r s, str_beq_iff j (ids r)))
  | inr e ↦ (rw e a, b, renamed-AreOwned ids r id m (ground (arith, gone, str_beq_iff j (ids r))) h)
]

add_to_each-AreOwned :
    (ids : ℕ → Str) (cs : List Str) (r : ℕ) (id : Str) (e : Emitter)
    → ids r ≡ id
    → AreOwned ids e.socket_refs
    → AreOwned ids (add_to_each cs r id e).socket_refs
unfolding add_to_each add_socket_to_channel
add_to_each-AreOwned ids [] r id e own h = h
add_to_each-AreOwned ids (c ∷ cs) r id e own h =
    add_to_each-AreOwned ids cs r id (add_socket_to_channel e c r id) own
      (set-AreOwned ids id r e.socket_refs own h)

count-values :
    (w : World) (r : ℕ) (m : Map Str ℕ)
    → AreOwned w.ids m
    → count r (values m) ≡ (if Tracking.is_ref r (get (w.ids r) m) then 1 else 0)
unfolding count get
count-values w r [] h = refl
count-values w r ((k, s) ∷ m) (a, b, h) =
    ground (arith, count-values w r m h, a, b, nat_beq_iff s r, str_beq_iff k (w.ids r))

abbrev IsUnique : World → Type 0
IsUnique w = AreOnce w.emitter.channel_sockets × AreOwned w.ids w.emitter.socket_refs

leaves-AreOnce :
    (e : Emitter) (id : Str)
    → AreOnce e.channel_sockets
    → AreOnce (remove_socket_from_all e id).0.channel_sockets
unfolding remove_socket_from_all
leaves-AreOnce e id h =
    elim (get id e.socket_refs)
      as (λ o. AreOnce (elim o [
        | none ↦ e.channel_sockets
        | some r ↦ take_out (channels e id) r e.channel_sockets
      ])) [ none ↦ h | some r ↦ take_out-AreOnce (channels e id) r e.channel_sockets h ]

reattach-IsUnique :
    (ids : ℕ → Str) (e : Emitter) (r : ℕ) (id previous : Str)
    → ids r ≡ id
    → AreOnce e.channel_sockets × AreOwned ids e.socket_refs
    → AreOnce (reattach_socket e r id previous).channel_sockets
      × AreOwned ids (reattach_socket e r id previous).socket_refs
unfolding reattach_socket
reattach-IsUnique ids e r id previous own (h, k) =
    let gone = record e { socket_channels = delete previous e.socket_channels } in
    elim (get previous e.socket_channels)
      as (λ o.
        let d : Emitter = elim o [
          | none ↦ e
          | some cs ↦
              add_to_each cs r id (record e { socket_channels = delete previous e.socket_channels })
        ] in
        AreOnce d.channel_sockets × AreOwned ids d.socket_refs) [
          | none ↦ (h, k)
          | some cs ↦
              (add_to_each-AreOnce cs r id gone h, add_to_each-AreOwned ids cs r id gone own k)
        ]

start-IsUnique : IsUnique start
unfolding start new get count member
start-IsUnique = (λ c r. refl, tt)

renamed-same : (r : ℕ) (id : Str) (ids : ℕ → Str) → renamed r id ids r ≡ id
renamed-same r id ids = ground (arith, nat_beq_iff r r)

step-IsUnique : (w : World) (s : Step) → IsUnique w → IsAllowed w s → IsUnique (Tracking.step w s)
unfolding Tracking.step
step-IsUnique w (connects r id) (h, k) (free, gone) =
    unfold handle_connection in
    (
      h,
      set-AreOwned (renamed r id w.ids) id r w.emitter.socket_refs (renamed-same r id w.ids)
          (renamed-AreOwned w.ids r id w.emitter.socket_refs gone k),
    )
step-IsUnique w (joins c r) (h, k) live =
    let e : Emitter = w.emitter in
    unfold add_socket_to_channel in
    (
      set-AreOnce c (add r (sockets e c)) e.channel_sockets (add-IsOnce r (sockets e c) (h c)) h,
      set-AreOwned w.ids (w.ids r) r e.socket_refs refl k,
    )
step-IsUnique w (leaves id) (h, k) live = (
  leaves-AreOnce w.emitter id h,
  unfold remove_socket_from_all in delete-AreOwned w.ids id w.emitter.socket_refs k,
)
step-IsUnique w (reconnects r id) (h, k) (free, gone) =
    let ids = renamed r id w.ids in
    let own = renamed-same r id w.ids in
    let (a, b) =
      reattach-IsUnique ids w.emitter r id (w.ids r) own
        (h, renamed-AreOwned w.ids r id w.emitter.socket_refs gone k) in
    unfold handle_connection in (a, set-AreOwned ids id r _ own b)
step-IsUnique w (reattaches r previous) u live =
    reattach-IsUnique w.ids w.emitter r (w.ids r) previous refl u
step-IsUnique w (expires id) (h, k) live = unfold expire_socket in (h, k)

run-IsUnique :
    (w : World) (steps : List Step)
    → IsUnique w
    → AreAllowed w steps
    → IsUnique (Tracking.run w steps)
unfolding Tracking.run
run-IsUnique w [] h live = h
run-IsUnique w (s ∷ steps) h (l, live) =
    run-IsUnique (Tracking.step w s) steps (step-IsUnique w s h l) live

deliveries-emit_each_but :
    (ids : ℕ → Str) (r : ℕ) (id : Str) (socks : List ℕ) (event : Str) (args : List Json)
    → deliveries r (emit_each_but ids id socks event args)
      ≡ (if str_beq (ids r) id then 0 else count r socks)
unfolding emit_each_but count
deliveries-emit_each_but ids r id [] event args = ground arith
deliveries-emit_each_but ids r id (s ∷ socks) event args =
    ground (arith, deliveries-emit_each_but ids r id socks event args, nat_beq_iff s r)

-- After every history in which a socket connects and reconnects with an id that nobody uses, when no
-- connection has its earlier id any more, and joins and reattaches only while it is connected: a socket
-- gets what is sent to a channel once if it is in the channel's set and else not, although it may
-- have joined several times; it gets what is sent to the others of a channel in the same way,
-- unless it has the id that is left out; and it gets what is sent to all once if it is connected,
-- whatever channels it is in, and else not.
pub deliveries-sent :
    (steps : List Step) (c id event : Str) (args : List Json) (r : ℕ)
    → AreAllowed start steps
    → let w = Tracking.run start steps in
      (deliveries r (emit w.emitter c event args) ≡ (if follows w.emitter c r then 1 else 0))
      × (deliveries r (emit_to_others w.ids w.emitter c id event args)
          ≡ (if str_beq (w.ids r) id then 0 else if follows w.emitter c r then 1 else 0))
      × (deliveries r (broadcast_all w.emitter event args)
          ≡ (if Tracking.connected w r then 1 else 0))
deliveries-sent steps c id event args r live =
    let w : World = Tracking.run start steps in
    let u = run-IsUnique start steps start-IsUnique live in
    let socks = sockets w.emitter c in
    (
      unfold emit in ground (arith, deliveries-emit_each r socks event args, u.0 c r),
      unfold emit_to_others in
          ground (arith, deliveries-emit_each_but w.ids r id socks event args, u.0 c r),
      unfold broadcast_all in
          ground (
            arith,
            deliveries-emit_each r (values w.emitter.socket_refs) event args,
            count-values w r w.emitter.socket_refs u.1,
          ),
    )

-- If a session connects again before its earlier connection is found closed, its socket stands under
-- both ids: it gets what is sent to all twice.
deliveries-overlap :
    (r : ℕ) (id id₂ c event : Str) (args : List Json)
    → id ≢ id₂
    → let w = Tracking.run start (connects r id ∷ joins c r ∷ reconnects r id₂ ∷ []) in
      deliveries r (broadcast_all w.emitter event args) ≡ 2
unfolding Tracking.run Tracking.step start new handle_connection add_socket_to_channel
    reattach_socket add_to_each broadcast_all emit_each set get delete add
deliveries-overlap r id id₂ c event args apart =
    ground
      (arith, apart, nat_beq_iff r r, str_beq_iff id id, str_beq_iff id₂ id₂, str_beq_iff id id₂)
