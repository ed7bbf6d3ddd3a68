-- ===== src/Hub/Emitter/Membership.antt =====
-- What the operations do to the relations "the socket follows the channel" and "the id is listed for
-- the channel".
use code_quest.Common.{
  ℕ, ◌≡◌, refl, Bool, false, ◌&&◌, ◌||◌, List, [], ◌∷◌, none, some, Str, if◌then◌else◌, ◌⊎◌, inl,
  inr, nat_eq, str_eq, nat_beq, str_beq, str_beq_iff, or_default, arith, Option-cases,
}
use code_quest.Common.Map.{Map, get, set, delete, get-set, get-delete}
use code_quest.Common.Keys.{member, add, remove, member-add, member-remove}
use code_quest.Hub.Emitter.Defs.{
  Emitter, sockets, channels, add_socket_to_channel, remove_socket_from_all, take_out, add_to_each,
  reattach_socket,
}

abbrev pub follows : Emitter → (channel : Str) → (socket : ℕ) → Bool
follows e c r = member r (sockets e c)

abbrev pub listed : Emitter → (socket_id : Str) → (channel : Str) → Bool
listed e id c = member c (channels e id)

pub follows-add :
    (e : Emitter) (c : Str) (r : ℕ) (id c₂ : Str) (r₂ : ℕ)
    → follows (add_socket_to_channel e c r id) c₂ r₂
      ≡ ((str_beq c c₂ && nat_beq r r₂) || follows e c₂ r₂)
unfolding add_socket_to_channel
follows-add e c r id c₂ r₂ = ground (
  arith,
  get-set c c₂ (add r (sockets e c)) e.channel_sockets,
  member-add r r₂ (sockets e c),
  str_beq_iff c c₂,
)

pub listed-add :
    (e : Emitter) (c : Str) (r : ℕ) (id id₂ c₂ : Str)
    → listed (add_socket_to_channel e c r id) id₂ c₂
      ≡ ((str_beq id id₂ && str_beq c c₂) || listed e id₂ c₂)
unfolding add_socket_to_channel
listed-add e c r id id₂ c₂ = ground (
  arith,
  get-set id id₂ (add c (channels e id)) e.socket_channels,
  member-add c c₂ (channels e id),
  str_beq_iff id id₂,
)

in_map : Str → ℕ → Map Str (List ℕ) → Bool
unfolding get
in_map c r m = member r (or_default (get c m) [])

get-take_out :
    (ids : List Str) (r : ℕ) (m : Map Str (List ℕ)) (c : Str) (r₂ : ℕ)
    → member r₂ (or_default (get c (take_out ids r m)) [])
      ≡ (if member c ids && nat_beq r r₂ then false else member r₂ (or_default (get c m) []))
unfolding take_out member
get-take_out [] r m c r₂ = refl
get-take_out (id ∷ ids) r m c r₂ = elim (Option-cases (get id m)) [
  | inl e ↦ ground (arith, get-take_out ids r m c r₂, e, str_beq_iff id c)
  | inr (socks, e) ↦ ground (
    arith,
    get-take_out ids r (set id (remove r socks) m) c r₂,
    get-set id c (remove r socks) m,
    member-remove r r₂ socks,
    e,
    str_beq_iff id c,
  )
]

pub follows-remove :
    (e : Emitter) (id c : Str) (r r₂ : ℕ)
    → get id e.socket_refs ≡ some r
    → follows (remove_socket_from_all e id).0 c r₂
      ≡ (if listed e id c && nat_beq r r₂ then false else follows e c r₂)
unfolding remove_socket_from_all
follows-remove e id c r r₂ h =
    ground (arith, h, get-take_out (channels e id) r e.channel_sockets c r₂)

pub follows-remove_unknown :
    (e : Emitter) (id c : Str) (r : ℕ)
    → get id e.socket_refs ≡ none
    → follows (remove_socket_from_all e id).0 c r ≡ follows e c r
unfolding remove_socket_from_all
follows-remove_unknown e id c r h = ground (arith, h)

follows-add_to_each :
    (ids : List Str) (r : ℕ) (id : Str) (e : Emitter) (c : Str) (r₂ : ℕ)
    → follows (add_to_each ids r id e) c r₂ ≡ ((member c ids && nat_beq r r₂) || follows e c r₂)
unfolding add_to_each member
follows-add_to_each [] r id e c r₂ = refl
follows-add_to_each (i ∷ ids) r id e c r₂ = ground (
  arith,
  follows-add_to_each ids r id (add_socket_to_channel e i r id) c r₂,
  follows-add e i r id c r₂,
  str_beq_iff i c,
)

listed-add_to_each :
    (ids : List Str) (r : ℕ) (id : Str) (e : Emitter) (id₂ c : Str)
    → listed (add_to_each ids r id e) id₂ c ≡ ((member c ids && str_beq id id₂) || listed e id₂ c)
unfolding add_to_each member
listed-add_to_each [] r id e id₂ c = refl
listed-add_to_each (i ∷ ids) r id e id₂ c = ground (
  arith,
  listed-add_to_each ids r id (add_socket_to_channel e i r id) id₂ c,
  listed-add e i r id id₂ c,
  str_beq_iff i c,
)

-- A socket that takes over the channels of an earlier id follows exactly these besides its own; all
-- other sockets follow what they did.
pub follows-reattach :
    (e : Emitter) (r : ℕ) (id previous c : Str) (r₂ : ℕ)
    → follows (reattach_socket e r id previous) c r₂
      ≡ ((listed e previous c && nat_beq r r₂) || follows e c r₂)
unfolding reattach_socket member
follows-reattach e r id previous c r₂ = elim (Option-cases (get previous e.socket_channels)) [
  | inl h ↦ ground (arith, h)
  | inr (ids, h) ↦ ground (
    arith,
    h,
    follows-add_to_each ids r id (record e { socket_channels = delete previous e.socket_channels })
        c r₂,
  )
]

pub listed-reattach :
    (e : Emitter) (r : ℕ) (id previous id₂ c : Str)
    → listed (reattach_socket e r id previous) id₂ c ≡ (
        (listed e previous c && str_beq id id₂)
        || (if str_beq previous id₂ then false else listed e id₂ c))
unfolding reattach_socket member
listed-reattach e r id previous id₂ c = elim (Option-cases (get previous e.socket_channels)) [
  | inl h ↦ rw h (ground (arith, h, str_beq_iff previous id₂))
  | inr (ids, h) ↦ rw h (
      ground (
        arith,
        listed-add_to_each ids r id
            (record e { socket_channels = delete previous e.socket_channels }) id₂ c,
        get-delete previous id₂ e.socket_channels,
      ))
]

refs-add_to_each :
    (ids : List Str) (r : ℕ) (id : Str) (e : Emitter) (id₂ : Str)
    → (get id₂ (add_to_each ids r id e).socket_refs ≡ get id₂ e.socket_refs)
      ⊎ ((id ≡ id₂) × (get id₂ (add_to_each ids r id e).socket_refs ≡ some r))
unfolding add_to_each add_socket_to_channel
refs-add_to_each [] r id e id₂ = inl refl
refs-add_to_each (i ∷ ids) r id e id₂ = ground (
  arith,
  refs-add_to_each ids r id (add_socket_to_channel e i r id) id₂,
  get-set id id₂ r e.socket_refs,
  str_beq_iff id id₂,
)

-- A reattached socket is at most put under its own id.
pub refs-reattach :
    (e : Emitter) (r : ℕ) (id previous id₂ : Str)
    → (get id₂ (reattach_socket e r id previous).socket_refs ≡ get id₂ e.socket_refs)
      ⊎ ((id ≡ id₂) × (get id₂ (reattach_socket e r id previous).socket_refs ≡ some r))
unfolding reattach_socket
refs-reattach e r id previous id₂ = elim (Option-cases (get previous e.socket_channels)) [
  | inl k ↦ ground (arith, k)
  | inr (ids, k) ↦ ground (
    arith,
    k,
    refs-add_to_each ids r id (record e { socket_channels = delete previous e.socket_channels })
        id₂,
  )
]

pub listed-remove :
    (e : Emitter) (id id₂ c : Str) → listed (remove_socket_from_all e id).0 id₂ c ≡ listed e id₂ c
unfolding remove_socket_from_all
listed-remove e id id₂ c = refl
