-- ===== src/Hub/Manager/Lookup.antt =====
-- How channels are found: by session and by control request.
use code_quest.Common.{
  ℕ, ◌≡◌, refl, ap, true, false, not, ◌&&◌, [], ◌∷◌, ◌++◌, Option, none, some, Str, str_eq,
  str_beq_iff, is_some, arith, Bool-cases, ◌⊎◌, All, inl, inr,
}
use code_quest.Common.Map.{Map}
use code_quest.Common.Keys.{member}
use code_quest.Hub.Channel.Defs.{Channel, has_control_request}
use code_quest.Hub.Manager.Defs.{
  Manager, named, find_by_request_id, get_alive_channels, get_alive_session_ids,
  find_alive_by_session_id, is_session,
}

is_session-some : (id : Str) (s : Option Str) → is_session id s ≡ true → s ≡ some id
is_session-some id none h = ground (arith, h)
is_session-some id (some t) h = ap some ((str_beq_iff t id).0 h)

found-alive :
    (id : Str) (m : Map Str Channel)
    → (find_alive_by_session_id m id ≡ none)
      ⊎ ((c : Channel) × (find_alive_by_session_id m id ≡ some c)
          × (c.exited ≡ false)
          × (c.session_id ≡ some id))
unfolding find_alive_by_session_id
found-alive id [] = inl refl
found-alive id ((k, c) ∷ m) = elim (Bool-cases (not c.exited && is_session id c.session_id)) [
  | inl h ↦
      inr (c, (rw h refl), ground (arith, h), is_session-some id c.session_id (ground (arith, h)))
  | inr h ↦ elim (found-alive id m) [
    | inl n ↦ inl (rw h n)
    | inr (d, e, alive, named_so) ↦ inr (d, (rw h e), alive, named_so)
  ]
]

member-named :
    (x : ℕ) (xs : Str) (m : Map Str Channel)
    → is_some (find_alive_by_session_id m (x ∷ xs)) ≡ member (x ∷ xs) (named (get_alive_channels m))
unfolding find_alive_by_session_id get_alive_channels member
member-named x xs [] = refl
member-named x xs ((k, c) ∷ m) =
    elim c.session_id
        as (λ s.
          (c.session_id ≡ s)
          → is_some (find_alive_by_session_id ((k, c) ∷ m) (x ∷ xs))
            ≡ member (x ∷ xs) (named (get_alive_channels ((k, c) ∷ m)))) [
              | none ↦ λ e. ground (arith, member-named x xs m, e)
              | some s ↦ λ e.
                  elim s
                      as (λ t.
                        (c.session_id ≡ some t)
                        → is_some (find_alive_by_session_id ((k, c) ∷ m) (x ∷ xs))
                          ≡ member (x ∷ xs) (named (get_alive_channels ((k, c) ∷ m)))) [
                            | [] ↦ λ f. ground (arith, member-named x xs m, f)
                            | y ∷ ys ↦ λ f. ground (arith, member-named x xs m, f)
                          ]
                    e
            ]
      refl

-- `findAliveBySessionId` finds a channel for an id that is not empty exactly if
-- `getAliveSessionIds` lists the id, and the channel that it finds is alive and has the id.
pub find_alive-listed :
    (m : Manager) (x : ℕ) (xs : Str)
    → (is_some (find_alive_by_session_id m.channels (x ∷ xs))
        ≡ member (x ∷ xs) (get_alive_session_ids m))
      × ((find_alive_by_session_id m.channels (x ∷ xs) ≡ none)
          ⊎ ((c : Channel) × (find_alive_by_session_id m.channels (x ∷ xs) ≡ some c)
              × (c.exited ≡ false)
              × (c.session_id ≡ some (x ∷ xs))))
find_alive-listed m x xs = (
  (unfold get_alive_session_ids in member-named x xs m.channels),
  found-alive (x ∷ xs) m.channels,
)

-- `findByRequestId` gives the first channel, in the order of creation, that has the control request,
-- and nothing only if no channel has it.
pub find_by_request-first :
    (m : Map Str Channel) (request : Str)
    → ((find_by_request_id m request ≡ none)
        × All (λ (e : Str × Channel). has_control_request e.1 request ≡ false) m)
      ⊎ ((before : Map Str Channel) × (after : Map Str Channel) × (id : Str) × (c : Channel) × (m
            ≡ (before ++ (id, c) ∷ after))
          × All (λ (e : Str × Channel). has_control_request e.1 request ≡ false) before
          × (has_control_request c request ≡ true)
          × (find_by_request_id m request ≡ some (id, c)))
unfolding find_by_request_id
find_by_request-first [] request = inl (refl, tt)
find_by_request-first ((id, c) ∷ m) request = elim (Bool-cases (has_control_request c request)) [
  | inl h ↦ inr ([], m, id, c, refl, tt, h, (rw h refl))
  | inr h ↦ elim (find_by_request-first m request) [
    | inl (none_found, all) ↦ inl ((rw h none_found), (h, all))
    | inr (before, after, i, d, split, all, has_it, found) ↦ inr (
      (id, c) ∷ before,
      after,
      i,
      d,
      ap (λ (r : Map Str Channel). (id, c) ∷ r) split,
      (h, all),
      has_it,
      (rw h found),
    )
  ]
]
