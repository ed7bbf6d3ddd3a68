-- ===== src/Hub/Emitter/Tracking.antt =====
-- Histories of the emitter's tables. A socket is a ResumableSocket, whose id is that of its present
-- connection and changes when it is bound to another one.
use code_quest.Common.{
  ℕ, ◌≡◌, ◌≢◌, refl, ◌∙◌, sym, Bool, true, false, ◌&&◌, List, [], ◌∷◌, Option, none, some, Str,
  if◌then◌else◌, nat_eq, str_eq, nat_beq, nat_beq_iff, str_beq_iff, arith, Option-cases, inl, inr,
}
use code_quest.Common.Map.{get, get-set, get-delete}
use code_quest.Common.Keys.{member}
use code_quest.Hub.Emitter.Defs.{
  Emitter, new, channels, add_socket_to_channel, remove_socket_from_all, reattach_socket,
  expire_socket, handle_connection,
}
use code_quest.Hub.Emitter.Membership.{
  follows, listed, follows-add, listed-add, follows-remove, follows-reattach, listed-reattach,
  refs-reattach, listed-remove,
}

-- `ids` gives the present id of each socket.
pub record World : Type 0 where
  pub emitter : Emitter
  pub ids : ℕ → Str

abbrev pub renamed : ℕ → Str → (ℕ → Str) → ℕ → Str
renamed r id ids s = if nat_beq r s then id else ids s

-- A socket that never connected has the id of no connection.
unfoldable pub start : World
start = record { emitter = new; ids = λ _. [] }

-- `reconnects`: the socket is bound to a new connection, `onRebind` reattaches it, and then it is
-- told to the listeners of connections; `reattaches`: it takes an earlier id's channels over while
-- it is connected.
pub data Step : Type 0 where
  connects : ℕ → (socket_id : Str) → Step
  joins : Str → ℕ → Step
  leaves : (socket_id : Str) → Step
  reconnects : ℕ → (socket_id : Str) → Step
  reattaches : ℕ → (previous_socket_id : Str) → Step
  expires : (socket_id : Str) → Step

unfoldable pub step : World → Step → World
step w (connects r id) = record {
  emitter = (handle_connection w.emitter r id).0;
  ids = renamed r id w.ids;
}
step w (joins c r) = record w { emitter = add_socket_to_channel w.emitter c r (w.ids r) }
step w (leaves id) = record w { emitter = (remove_socket_from_all w.emitter id).0 }
step w (reconnects r id) = record {
  emitter = (handle_connection (reattach_socket w.emitter r id (w.ids r)) r id).0;
  ids = renamed r id w.ids;
}
step w (reattaches r previous) = record w {
  emitter = reattach_socket w.emitter r (w.ids r) previous;
}
step w (expires id) = record w { emitter = expire_socket w.emitter id }

unfoldable pub run : World → List Step → World
run w [] = w
run w (s ∷ steps) = run (step w s) steps

abbrev pub is_ref : ℕ → Option ℕ → Bool
is_ref r none = false
is_ref r (some s) = nat_beq s r

abbrev pub connected : World → ℕ → Bool
connected w r = is_ref r (get (w.ids r) w.emitter.socket_refs)

-- an id that nobody uses
abbrev pub IsFree : Emitter → Str → Type 0
IsFree e id = (get id e.socket_refs ≡ none) × (channels e id ≡ [])

-- A socket connects and reconnects with an id that nobody uses, when no connection has its earlier
-- id any more; it joins and reattaches while it is connected, to an id that is not, and an id expires
-- that is not connected.
abbrev pub IsAllowed : World → Step → Type 0
IsAllowed w (connects r id) = IsFree w.emitter id × (get (w.ids r) w.emitter.socket_refs ≡ none)
IsAllowed w (joins c r) = get (w.ids r) w.emitter.socket_refs ≡ some r
IsAllowed w (leaves id) = Unit
IsAllowed w (reconnects r id) = IsFree w.emitter id × (get (w.ids r) w.emitter.socket_refs ≡ none)
IsAllowed w (reattaches r previous) =
    (get (w.ids r) w.emitter.socket_refs ≡ some r) × (get previous w.emitter.socket_refs ≡ none)
IsAllowed w (expires id) = get id w.emitter.socket_refs ≡ none

abbrev pub AreAllowed : World → List Step → Type 0
AreAllowed w [] = Unit
AreAllowed w (s ∷ steps) = IsAllowed w s × AreAllowed (step w s) steps

-- A socket follows the channels that are listed for its id, if it is connected.
pub record IsTracked (w : World) : Type 0 where
  pub follow :
      (c : Str) (r : ℕ) → follows w.emitter c r ≡ (connected w r && listed w.emitter (w.ids r) c)
  pub owned : (id : Str) (r : ℕ) → get id w.emitter.socket_refs ≡ some r → w.ids r ≡ id

connects-follow :
    (w : World) (r : ℕ) (id : Str)
    → IsTracked w
    → IsAllowed w (connects r id)
    → IsTracked (step w (connects r id))
unfolding step handle_connection member
connects-follow w r id t ((free, empty), gone) = record {
  follow = λ c s. ground (
    arith,
    t.follow c s,
    free,
    empty,
    gone,
    get-set id id r w.emitter.socket_refs,
    get-set id (w.ids s) r w.emitter.socket_refs,
    str_beq_iff id id,
    str_beq_iff id (w.ids s),
    nat_beq_iff r s,
  );
  owned = λ i s h. ground (
    arith,
    h,
    gone,
    t.owned i s,
    get-set id i r w.emitter.socket_refs,
    str_beq_iff id i,
    nat_beq_iff r s,
  );
}

refs-joins :
    (w : World) (c : Str) (r : ℕ) (id : Str)
    → get (w.ids r) w.emitter.socket_refs ≡ some r
    → get id (step w (joins c r)).emitter.socket_refs ≡ get id w.emitter.socket_refs
unfolding step add_socket_to_channel
refs-joins w c r id h =
    ground (arith, h, get-set (w.ids r) id r w.emitter.socket_refs, str_beq_iff (w.ids r) id)

joins-follow :
    (w : World) (c : Str) (r : ℕ)
    → IsTracked w
    → IsAllowed w (joins c r)
    → IsTracked (step w (joins c r))
unfolding step
joins-follow w c r t h = record {
  follow = λ c₂ s. ground (
    arith,
    t.follow c₂ s,
    h,
    refs-joins w c r (w.ids s) h,
    follows-add w.emitter c r (w.ids r) c₂ s,
    listed-add w.emitter c r (w.ids r) (w.ids s) c₂,
    str_beq_iff (w.ids r) (w.ids s),
    nat_beq_iff r s,
    t.owned (w.ids r) s,
  );
  owned = λ id s k. t.owned id s (sym (refs-joins w c r id h) ∙ k);
}

leaves-follow : (w : World) (id : Str) → IsTracked w → IsTracked (step w (leaves id))
unfolding step
leaves-follow w id t =
    let e : Emitter = w.emitter in
    record {
      follow = λ c s. elim (Option-cases (get id e.socket_refs)) [
        | inl h ↦
            unfold remove_socket_from_all in
            ground (
              arith,
              t.follow c s,
              h,
              get-delete id (w.ids s) e.socket_refs,
              str_beq_iff id (w.ids s),
            )
        | inr (r, h) ↦
            let gone = follows-remove e id c r s h in
            unfold remove_socket_from_all in
            ground (
              arith,
              t.follow c s,
              h,
              gone,
              t.owned id r h,
              get-delete id (w.ids s) e.socket_refs,
              str_beq_iff id (w.ids s),
              nat_beq_iff r s,
            )
      ];
      owned = λ i s k.
          unfold remove_socket_from_all in
          ground (arith, k, t.owned i s, get-delete id i e.socket_refs, str_beq_iff id i);
    }

reconnects-follow :
    (w : World) (r : ℕ) (id : Str)
    → IsTracked w
    → IsAllowed w (reconnects r id)
    → IsTracked (step w (reconnects r id))
unfolding step handle_connection member
reconnects-follow w r id t ((free, empty), gone) =
    let e : Emitter = reattach_socket w.emitter r id (w.ids r) in
    record {
      follow = λ c s. ground (
        arith,
        t.follow c s,
        free,
        empty,
        gone,
        follows-reattach w.emitter r id (w.ids r) c s,
        listed-reattach w.emitter r id (w.ids r) id c,
        listed-reattach w.emitter r id (w.ids r) (w.ids s) c,
        refs-reattach w.emitter r id (w.ids r) (w.ids s),
        get-set id id r e.socket_refs,
        get-set id (w.ids s) r e.socket_refs,
        str_beq_iff id id,
        str_beq_iff id (w.ids s),
        str_beq_iff (w.ids r) (w.ids s),
        nat_beq_iff r s,
      );
      owned = λ i s h. ground (
        arith,
        h,
        gone,
        t.owned i s,
        refs-reattach w.emitter r id (w.ids r) i,
        get-set id i r e.socket_refs,
        str_beq_iff id i,
        nat_beq_iff r s,
      );
    }

reattaches-follow :
    (w : World) (r : ℕ) (previous : Str)
    → IsTracked w
    → IsAllowed w (reattaches r previous)
    → IsTracked (step w (reattaches r previous))
unfolding step
reattaches-follow w r previous t (live, gone) = record {
  follow = λ c s. ground (
    arith,
    t.follow c s,
    live,
    gone,
    follows-reattach w.emitter r (w.ids r) previous c s,
    listed-reattach w.emitter r (w.ids r) previous (w.ids s) c,
    refs-reattach w.emitter r (w.ids r) previous (w.ids s),
    str_beq_iff (w.ids r) (w.ids s),
    str_beq_iff previous (w.ids s),
    nat_beq_iff r s,
  );
  owned = λ id s k. ground (
    arith,
    k,
    live,
    t.owned id s,
    refs-reattach w.emitter r (w.ids r) previous id,
    str_beq_iff (w.ids r) id,
  );
}

expires-follow :
    (w : World) (id : Str)
    → IsTracked w
    → IsAllowed w (expires id)
    → IsTracked (step w (expires id))
unfolding step expire_socket member
expires-follow w id t h = record {
  follow = λ c s. ground (
    arith,
    t.follow c s,
    h,
    get-delete id (w.ids s) w.emitter.socket_channels,
    str_beq_iff id (w.ids s),
  );
  owned = t.owned;
}

step-IsTracked : (w : World) (s : Step) → IsTracked w → IsAllowed w s → IsTracked (step w s)
step-IsTracked w (connects r id) t h = connects-follow w r id t h
step-IsTracked w (joins c r) t h = joins-follow w c r t h
step-IsTracked w (leaves id) t h = leaves-follow w id t
step-IsTracked w (reconnects r id) t h = reconnects-follow w r id t h
step-IsTracked w (reattaches r previous) t h = reattaches-follow w r previous t h
step-IsTracked w (expires id) t h = expires-follow w id t h

run-IsTracked :
    (w : World) (steps : List Step) → IsTracked w → AreAllowed w steps → IsTracked (run w steps)
unfolding run
run-IsTracked w [] t h = t
run-IsTracked w (s ∷ steps) t (h, hs) = run-IsTracked (step w s) steps (step-IsTracked w s t h) hs

start-IsTracked : IsTracked start
unfolding start new get member
start-IsTracked = record { follow = λ c r. refl; owned = λ id r h. absurd (ground arith) }

-- In every history from the start in which a socket connects, and reconnects with another id, when
-- no connection has its earlier id any more and nobody uses the new one, joins and reattaches only
-- while it is connected, reattaches to an id that is not connected, and in which no connected id
-- expires: a socket gets the broadcasts of exactly the channels that are listed for its present id
-- while it is connected, and of none while it is not.
pub follows-run :
    (steps : List Step) (c : Str) (r : ℕ)
    → AreAllowed start steps
    → let w = run start steps in
      follows w.emitter c r ≡ (connected w r && listed w.emitter (w.ids r) c)
follows-run steps c r h = let t = run-IsTracked start steps start-IsTracked h in t.follow c r

get-connected :
    (w : World) (r : ℕ) → connected w r ≡ true → get (w.ids r) w.emitter.socket_refs ≡ some r
get-connected w r h = elim (Option-cases (get (w.ids r) w.emitter.socket_refs)) [
  | inl k ↦ ground (arith, h, k)
  | inr (s, k) ↦ ground (arith, h, k, nat_beq_iff s r)
]

-- After such a history, the disconnection of a socket that is connected takes it out of a channel
-- and takes no socket with another id out. Another socket that does not follow the channel follows
-- it, once it reattaches under whatever id to the id of the first, exactly if the first followed it;
-- and so does the first itself when it reconnects, whatever its new id is.
pub follows-leaves_reattaches :
    (steps : List Step) (c id : Str) (r r₂ r₃ : ℕ)
    → let w = run start steps in
      AreAllowed start steps
      → connected w r ≡ true
      → w.ids r₂ ≢ w.ids r
      → r₃ ≢ r
      → follows w.emitter c r₃ ≡ false
      → (follows (step w (leaves (w.ids r))).emitter c r ≡ false)
        × (follows (step w (leaves (w.ids r))).emitter c r₂ ≡ follows w.emitter c r₂)
        × (follows (reattach_socket (step w (leaves (w.ids r))).emitter r₃ id (w.ids r)) c r₃
            ≡ follows w.emitter c r)
        × (follows (step (step w (leaves (w.ids r))) (reconnects r id)).emitter c r
            ≡ follows w.emitter c r)
unfolding step
follows-leaves_reattaches steps c id r r₂ r₃ h live apart other free =
    let w : World = run start steps in
    let e : Emitter = w.emitter in
    let i : Str = w.ids r in
    let t = run-IsTracked start steps start-IsTracked h in
    let refs = get-connected w r live in
    let left : Emitter = (remove_socket_from_all e i).0 in
    let out = follows-remove e i c r r refs in
    let same = listed-remove e i i c in
    (
      ground (arith, out, t.follow c r, live, nat_beq_iff r r),
      ground (arith, follows-remove e i c r r₂ refs, apart, nat_beq_iff r r₂),
      ground (
        arith,
        follows-remove e i c r r₃ refs,
        t.follow c r,
        live,
        free,
        other,
        follows-reattach left r₃ id i c r₃,
        same,
        nat_beq_iff r r₃,
        nat_beq_iff r₃ r₃,
      ),
      unfold handle_connection in
          ground (
            arith,
            out,
            t.follow c r,
            live,
            follows-reattach left r id i c r,
            same,
            nat_beq_iff r r,
          ),
    )
