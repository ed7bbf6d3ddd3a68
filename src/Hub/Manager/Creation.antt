-- ===== src/Hub/Manager/Creation.antt =====
-- How a channel comes to be: `createEager` and `join`.
use code_quest.Common.{
  ◌≡◌, ◌≢◌, refl, ◌∙◌, ==_refl, true, false, List, [], ◌∷◌, Option, none, some, Str, if◌then◌else◌,
  str_eq, str_beq, str_beq_iff, or_default, arith, Option-cases, inl, inr,
}
use code_quest.Common.Json.{Json, obj, end}
use code_quest.Common.Text.{lit}
use code_quest.Common.Map.{get, set, keys, get-set}
use code_quest.Git.Worktree.{WorktreeInfo}
use code_quest.Hub.Channel.Defs as Channel
use code_quest.Hub.Channel.Defs.{Channel, has_control_request}
use code_quest.Hub.Tracker.Defs as Tracker
use code_quest.Hub.Emitter.Defs.{Emitter}
use code_quest.Hub.Manager.Defs.{
  Manager, Effect, ok, setup_channel, exists_error, is_alive, path_or, with_worktree, initialize,
  create_eager, join,
}

-- the manager that a call of `create_eager` leaves, and what it throws
abbrev pub after : (Manager × List Effect) × Option Str → Manager
after ((m, _), _) = m

abbrev pub error_of : (Manager × List Effect) × Option Str → Option Str
error_of (_, e) = e

with_worktree-fields :
    (w : Option WorktreeInfo) (c : Channel)
    → ((with_worktree w c).exited ≡ c.exited)
      × ((with_worktree w c).is_bound ≡ c.is_bound)
      × ((with_worktree w c).session_id ≡ c.session_id)
      × ((with_worktree w c).control_requests ≡ c.control_requests)
unfolding Channel.set_worktree with_worktree
with_worktree-fields none c = (refl, refl, refl, refl)
with_worktree-fields (some w) c = (refl, refl, refl, refl)

abbrev pub Preparing : Type 0
Preparing = Emitter → Channel → Emitter × Channel

create_eager-alive :
    (provider : Str) (launch_args : List Str) (resolve : Str → Str) (prepare : Preparing)
    (spawn_error : Option Str) (m : Manager) (id cwd : Str) (worktree : Option WorktreeInfo)
    (options : Option Json) (request : Str)
    → is_alive (get id m.channels) ≡ true
    → create_eager provider launch_args resolve prepare spawn_error m id cwd worktree options
        request
      ≡ ((m, []), some (exists_error id))
unfolding create_eager
create_eager-alive provider launch_args resolve prepare spawn_error m id cwd worktree options
      request h =
    rw h refl

join-alive :
    (provider : Str) (launch_args : List Str) (m : Manager) (id resolved : Str)
    (located : Str × Str) (request : Str)
    → is_alive (get id m.channels) ≡ true
    → join provider launch_args m id resolved located request ≡ ok (m, [])
unfolding join
join-alive provider launch_args m id resolved located request h = rw h refl

-- What the caller does leaves the channel alive, bound and without a request.
pub record IsUntouched (c : Channel) : Type 0 where
  pub running : c.exited ≡ false
  pub bound : c.is_bound ≡ true
  pub idle : c.control_requests.pending ≡ []

module _ (provider : Str) (launch_args : List Str) (resolve : Str → Str) (prepare : Preparing)
    (spawn_error : Option Str) (m : Manager) (id cwd : Str) (worktree : Option WorktreeInfo)
    (options : Option Json) (request : Str) where
  abbrev pub created : (Manager × List Effect) × Option Str
  unfolding create_eager
  created =
      create_eager provider launch_args resolve prepare spawn_error m id cwd worktree options
        request

  -- the channel before the caller has it, and after
  abbrev pub first : Channel
  unfolding Channel.bind_runner Channel.new
  first = Channel.bind_runner (Channel.new id provider launch_args (resolve (path_or worktree cwd)))

  abbrev pub prepared : Channel
  unfolding with_worktree
  prepared = (prepare m.emitter (with_worktree worktree first)).1

  -- the channel that it leaves
  abbrev fresh : Channel
  unfolding Channel.send_request
  fresh = elim spawn_error [
    | some error ↦ prepared
    | none ↦
        (Channel.send_request prepared request (lit "session:initialize")
          (some (or_default options (obj end)))).0
  ]

  get-created :
      (j : Str)
      → is_alive (get id m.channels) ≡ false
      → get j (after created).channels ≡ (if str_beq id j then some fresh else get j m.channels)
  unfolding create_eager setup_channel initialize
  get-created j dead =
      let older = set id first m.channels in
      let old = set id prepared older in
      elim (Option-cases spawn_error) [
        | inl k ↦ ground (
          arith,
          dead,
          k,
          get-set id j fresh old,
          get-set id j prepared older,
          get-set id j first m.channels,
        )
        | inr (error, k) ↦
            ground (arith, dead, k, get-set id j prepared older, get-set id j first m.channels)
      ]

  error-created : is_alive (get id m.channels) ≡ false → error_of created ≡ spawn_error
  unfolding create_eager
  error-created dead = elim (Option-cases spawn_error) [
    | inl k ↦ ground (arith, dead, k)
    | inr (error, k) ↦ ground (arith, dead, k)
  ]

  -- the requests that wait: the one that initialises the channel, if its process was started
  abbrev pub awaited : Option Str → List Str
  awaited none = request ∷ []
  awaited (some _) = []

  fresh-state :
      IsUntouched prepared
      → (fresh.exited ≡ false)
        × (fresh.is_bound ≡ true)
        × (fresh.session_id ≡ prepared.session_id)
        × (fresh.project_root ≡ prepared.project_root)
        × (keys fresh.control_requests.pending ≡ awaited spawn_error)
  unfolding Channel.send_request Tracker.send_outbound set
  fresh-state h = elim (Option-cases spawn_error) [
    | inl k ↦ ground (arith, k, h.running, h.bound, h.idle)
    | inr (error, k) ↦ ground (arith, k, h.running, h.bound, h.idle)
  ]

  -- `createEager` for an id with no channel that is alive, whose caller leaves the new channel alive,
  -- bound and without a request before the process is started, throws exactly what starting the
  -- process throws. It leaves a channel under the id that is alive, is bound to its runner, has the
  -- session and the project root that the caller gave it, and waits for the answer of exactly the
  -- request that initialises it, or of none if the process was not started, whatever channel stood
  -- there before; it leaves the channels of the other ids. A second call throws and changes nothing,
  -- and a join gives the channel as it stands.
  pub create_eager-registers :
      (other : Str) (resolved : Str) (located : Str × Str)
      → is_alive (get id m.channels) ≡ false
      → other ≢ id
      → IsUntouched prepared
      → (error_of created ≡ spawn_error)
        × ((c : Channel) × (get id (after created).channels ≡ some c)
            × (c.exited ≡ false)
            × (c.is_bound ≡ true)
            × (c.session_id ≡ prepared.session_id)
            × (c.project_root ≡ prepared.project_root)
            × (keys c.control_requests.pending ≡ awaited spawn_error))
        × (get other (after created).channels ≡ get other m.channels)
        × (create_eager provider launch_args resolve prepare spawn_error
              (after created)
              id
              cwd
              worktree
              options
              request
            ≡ ((after created, []), some (exists_error id)))
        × (join provider launch_args (after created) id resolved located request
            ≡ ok (after created, []))
  create_eager-registers other resolved located dead apart untouched =
      let (running, bound, session, root, waiting) = fresh-state untouched in
      let stored : get id (after created).channels ≡ some fresh =
        get-created id dead ∙ (rw (==_refl id) refl) in
      let live : is_alive (get id (after created).channels) ≡ true = rw stored (rw running refl) in
      (
        error-created dead,
        (fresh, stored, running, bound, session, root, waiting),
        get-created other dead ∙ (ground (arith, str_beq_iff id other, apart)),
        create_eager-alive provider launch_args resolve prepare spawn_error (after created) id cwd
            worktree options request live,
        join-alive provider launch_args (after created) id resolved located request live,
      )
