-- ===== src/Hub/Manager/Unwatched.antt =====
-- Channels that the last socket has left.
use code_quest.Common.{
  ℕ, ◌≡◌, ◌≢◌, refl, Bool, true, false, ◌&&◌, List, [], ◌∷◌, Option, none, some, Str, if◌then◌else◌,
  nat_beq, nat_beq_iff, nat_eq, str_eq, str_beq_iff, arith, length, Option-cases, inl, inr,
}
use code_quest.Common.Map.{Map, get, set, get-set, get-delete_self}
use code_quest.Common.Keys.{member}
use code_quest.Hub.Channel.Defs.{Channel, ClientMessage, unbind_runner, on_message}
use code_quest.Hub.Emitter.Defs as Emitter
use code_quest.Hub.Emitter.Defs.{Emitter, sockets, channels, get_socket_count}
use code_quest.Hub.Emitter.Membership.{
  follows, listed, follows-remove, listed-remove, follows-reattach,
}
use code_quest.Hub.Manager.Defs.{
  Manager, unbind_unwatched, remove_socket_from_all, on_disconnect, on_rebind,
}

abbrev pub unbind_if : Bool → Option Channel → Option Channel
unfolding unbind_runner
unbind_if b none = none
unbind_if b (some c) = some (if b then unbind_runner c else c)

get-unbind_unwatched :
    (e : Emitter) (ids : List Str) (m : Map Str Channel) (c : Str)
    → get c (unbind_unwatched e ids m)
      ≡ unbind_if (member c ids && nat_beq (get_socket_count e c) 0) (get c m)
unfolding unbind_unwatched member unbind_runner
get-unbind_unwatched e [] m c = elim (get c m) as (λ o. o ≡ unbind_if false o) [
  | none ↦ refl
  | some d ↦ refl
]
get-unbind_unwatched e (id ∷ ids) m c = elim (Option-cases (get id m)) [
  | inl h ↦ ground (arith, h, get-unbind_unwatched e ids m c, str_beq_iff id c)
  | inr (d, h) ↦ ground (
    arith,
    h,
    get-unbind_unwatched e ids m c,
    get-unbind_unwatched e ids (set id (unbind_runner d) m) c,
    get-set id c (unbind_runner d) m,
    str_beq_iff id c,
  )
]

-- When a socket leaves, a channel lets go of its runner exactly if it is listed for the socket's id
-- and no socket follows it then; the manager's other channels, and all that a channel has besides,
-- stay as they are.
pub remove_socket-unbinds :
    (m : Manager) (socket_id c : Str)
    → get c (remove_socket_from_all m socket_id).channels
      ≡ unbind_if
          (listed m.emitter socket_id c
            && nat_beq (get_socket_count (remove_socket_from_all m socket_id).emitter c) 0)
          (get c m.channels)
unfolding remove_socket_from_all Emitter.remove_socket_from_all
remove_socket-unbinds m socket_id c =
    get-unbind_unwatched (Emitter.remove_socket_from_all m.emitter socket_id).0
      (channels m.emitter socket_id) m.channels c

no_member : (s : List ℕ) → ((r : ℕ) → member r s ≡ false) → length s ≡ 0
unfolding member
no_member [] h = refl
no_member (r ∷ s) h = ground (arith, h r, nat_beq_iff r r)

count-remove_last :
    (e : Emitter) (id c : Str) (r : ℕ)
    → get id e.socket_refs ≡ some r
    → listed e id c ≡ true
    → ((s : ℕ) → s ≢ r → follows e c s ≡ false)
    → get_socket_count (Emitter.remove_socket_from_all e id).0 c ≡ 0
unfolding get_socket_count
count-remove_last e id c r h l only =
    no_member (sockets (Emitter.remove_socket_from_all e id).0 c)
      (λ s. ground (arith, follows-remove e id c r s h, l, only s, nat_beq_iff r s))

refs-remove :
    (e : Emitter) (id : Str) → get id (Emitter.remove_socket_from_all e id).0.socket_refs ≡ none
unfolding Emitter.remove_socket_from_all
refs-remove e id = get-delete_self id e.socket_refs

-- If the only socket that follows a channel is lost, and the connection then resumes under another
-- id, the socket of the new connection follows the channel again, and yet the channel stays without
-- its runner: whatever the runner says then changes nothing and reaches nobody.
pub rebind-deaf :
    (m : Manager) (id id₂ c : Str) (r r₂ : ℕ) (ch : Channel) (message : ClientMessage)
    → get id m.emitter.socket_refs ≡ some r
    → listed m.emitter id c ≡ true
    → ((s : ℕ) → s ≢ r → follows m.emitter c s ≡ false)
    → get c m.channels ≡ some ch
    → (follows (on_rebind (on_disconnect m id) r₂ id₂ id).emitter c r₂ ≡ true)
      × ((d : Channel) × (get c (on_rebind (on_disconnect m id) r₂ id₂ id).channels ≡ some d)
          × (on_message d message ≡ (d, [])))
unfolding on_rebind on_disconnect remove_socket_from_all on_message unbind_runner
rebind-deaf m id id₂ c r r₂ ch message connected joined only stored =
    let e = (Emitter.remove_socket_from_all m.emitter id).0 in
    let f = (Emitter.remove_socket_from_all e id).0 in
    let empty = count-remove_last m.emitter id c r connected joined only in
    (
      ground (
        arith,
        follows-reattach f r₂ id₂ id c r₂,
        listed-remove e id id c,
        listed-remove m.emitter id id c,
        joined,
        nat_beq_iff r₂ r₂,
      ),
      (unbind_runner ch, ground (arith, remove_socket-unbinds m id c, empty, joined, stored), refl),
    )
