-- ===== src/Hub/Manager/Destruction.antt =====
-- How channels go: `destroy` and `destroyAll`.
use code_quest.Common.{
  Option-cases, ◌≡◌, ◌≢◌, refl, ◌∙◌, ==_refl, List, [], ◌∷◌, map, none, some, Str, if◌then◌else◌,
  str_eq, str_beq, str_beq_iff, is_some, arith, inl, inr,
}
use code_quest.Common.Map.{Map, get, delete, keys, get-delete}
use code_quest.Common.Keys.{member}
use code_quest.Hub.Channel.Defs as Channel
use code_quest.Hub.Channel.Defs.{Channel, has_control_request}
use code_quest.Hub.Manager.Defs.{Manager, channel, kills, destroy, delete_each, destroy_all}

-- the ids of the map
member-keys : (id : Str) (m : Map Str Channel) → member id (keys m) ≡ is_some (get id m)
unfolding member get
member-keys id [] = refl
member-keys id ((k, c) ∷ m) = ground (arith, member-keys id m)

get-delete_each :
    (ids : List Str) (m : Map Str Channel) (id : Str)
    → get id (delete_each ids m) ≡ (if member id ids then none else get id m)
unfolding delete_each member
get-delete_each [] m id = refl
get-delete_each (i ∷ ids) m id =
    ground (arith, get-delete_each ids (delete i m) id, get-delete i id m, str_beq_iff i id)

empty_of_get : (m : Map Str Channel) → ((id : Str) → get id m ≡ none) → m ≡ []
unfolding get
empty_of_get [] h = refl
empty_of_get ((k, c) ∷ m) h = ground (arith, h k, str_beq_iff k k)

channels-destroy_all : (m : Manager) → (destroy_all m).0.channels ≡ []
unfolding destroy_all
channels-destroy_all m = empty_of_get (delete_each (keys m.channels) m.channels) (λ id.
    ground (arith, get-delete_each (keys m.channels) m.channels id, member-keys id m.channels))

destroy_unknown : (m : Manager) (id : Str) → get id m.channels ≡ none → destroy m id ≡ (m, [])
unfolding destroy
destroy_unknown m id h = ground (arith, h)

effects-destroy :
    (m : Manager) (id : Str) (c : Channel)
    → get id m.channels ≡ some c
    → (destroy m id).1 ≡ kills id ∷ map (channel id) (Channel.destroy c).1
unfolding destroy
effects-destroy m id c h = ground (arith, h)

get-destroy :
    (m : Manager) (id j : Str)
    → get j (destroy m id).0.channels ≡ (if str_beq id j then none else get j m.channels)
unfolding destroy
get-destroy m id j = elim (Option-cases (get id m.channels)) [
  | inl h ↦ ground (arith, h, str_beq_iff id j)
  | inr (c, h) ↦ ground (arith, h, get-delete id j m.channels)
]

-- `destroy` of an id with a channel kills its process first and then destroys the channel; it leaves
-- none under the id and those of the other ids as they are, and a second call does nothing.
-- `destroyAll` leaves no channel at all.
pub destroy-removes :
    (m : Manager) (id other : Str) (c : Channel)
    → get id m.channels ≡ some c
    → other ≢ id
    → ((destroy m id).1 ≡ kills id ∷ map (channel id) (Channel.destroy c).1)
      × (get id (destroy m id).0.channels ≡ none)
      × (get other (destroy m id).0.channels ≡ get other m.channels)
      × (destroy (destroy m id).0 id ≡ ((destroy m id).0, []))
      × ((destroy_all m).0.channels ≡ [])
destroy-removes m id other c h apart =
    let gone : get id (destroy m id).0.channels ≡ none =
      get-destroy m id id ∙ (rw (==_refl id) refl) in
    (
      effects-destroy m id c h,
      gone,
      ground (arith, get-destroy m id other, str_beq_iff id other, apart),
      destroy_unknown (destroy m id).0 id gone,
      channels-destroy_all m,
    )
