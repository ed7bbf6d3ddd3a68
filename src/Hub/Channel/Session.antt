-- ===== src/Hub/Channel/Session.antt =====
-- What the first message of a session leaves in the channel.
use code_quest.Common.{
  ℕ, ◌≡◌, refl, ap, ◌∙◌, List, [], ◌∷◌, Option, none, some, Str, if◌then◌else◌, str_eq, str_beq,
  arith, Option-cases, inl, inr,
}
use code_quest.Common.Json.{Json}
use code_quest.Common.Text.{lit}
use code_quest.Common.Map.{get, set, get-set}
use code_quest.Git.Worktree.{WorktreeInfo, detect_worktree}
use code_quest.Hub.Channel.Defs.{
  Channel, Config, SessionInit, spread, pick_defined, update_meta_cache, update_session_config,
  set_worktree, apply_session_init, apply_session_id, apply_session_init_config,
}

-- the later of two values, if there is one
abbrev pub overridden : Option Json → Option Json → Option Json
overridden none old = old
overridden (some v) old = some v

-- what the entries give for a name; the last one counts
abbrev pub given : Str → List (Str × Option Json) → Option Json
given k [] = none
given k ((j, v) ∷ entries) = overridden (given k entries) (if str_beq j k then v else none)

get-spread_pick :
    (k : Str) (config : Config) (entries : List (Str × Option Json))
    → get k (spread config (pick_defined entries)) ≡ overridden (given k entries) (get k config)
unfolding spread pick_defined
get-spread_pick k config [] = refl
get-spread_pick k config ((j, none) ∷ entries) = ground (arith, get-spread_pick k config entries)
get-spread_pick k config ((j, some v) ∷ entries) =
    ground (arith, get-spread_pick k (set j v config) entries, get-set j k v config)

-- what a first message gives for the names of the cache
abbrev pub told : SessionInit → Str → Option Json
told init k = given k (
    (lit "model", init.model)
    ∷ (lit "tools", init.tools)
    ∷ (lit "permissionMode", init.permission_mode)
    ∷ (lit "fastModeState", init.fast_mode_state)
    ∷ (lit "mcpServers", init.mcp_servers)
    ∷ (lit "slashCommands", init.slash_commands)
    ∷ [])

init_config-meta :
    (c : Channel) (config : Option (Option Str × Config))
    → (apply_session_init_config c config).meta_cache ≡ c.meta_cache
unfolding apply_session_init_config update_session_config set_worktree
init_config-meta c config = ground arith

session_id-meta :
    (id : Option Str) (c : Channel) → (apply_session_id id c).meta_cache ≡ c.meta_cache
session_id-meta id c = ground arith

init-meta :
    (c : Channel) (init : SessionInit) (k : Str)
    → get k (apply_session_init c (some init)).meta_cache
      ≡ overridden (told init k) (get k c.meta_cache)
unfolding apply_session_init update_meta_cache pick_defined apply_session_init_config
    update_session_config set_worktree
init-meta c init k =
    get-spread_pick k
      (apply_session_init_config (apply_session_id init.session_id c) init.config).meta_cache
      ((lit "model", init.model)
        ∷ (lit "tools", init.tools)
        ∷ (lit "permissionMode", init.permission_mode)
        ∷ (lit "fastModeState", init.fast_mode_state)
        ∷ (lit "mcpServers", init.mcp_servers)
        ∷ (lit "slashCommands", init.slash_commands)
        ∷ [])
    ∙ ap (λ (m : Config). overridden (told init k) (get k m))
        (init_config-meta (apply_session_id init.session_id c) init.config
          ∙ session_id-meta init.session_id c)

abbrev pub if_nonempty : Option Str → Option Str → Option Str
if_nonempty none old = old
if_nonempty (some []) old = old
if_nonempty (some (x ∷ s)) old = some (x ∷ s)

abbrev pub detected : Str → Option WorktreeInfo → Option WorktreeInfo
detected path old = elim (detect_worktree path) [ none ↦ old | some w ↦ some w ]

detect-path : (path : Str) (w : WorktreeInfo) → detect_worktree path ≡ some w → w.path ≡ path
unfolding detect_worktree
detect-path path w h = ground (arith, h)

-- what the configuration of the first message leaves
record Configured (c d : Channel) (path : Str) (config : Config) : Type 0 where
  path_taken : d.cwd ≡ path
  tree : d.worktree ≡ detected path c.worktree
  settings : d.session_config ≡ spread c.session_config config
  id_kept : d.session_id ≡ c.session_id
  requests_kept : d.control_requests ≡ c.control_requests
  bound_kept : d.is_bound ≡ c.is_bound
  exit_kept : d.exited ≡ c.exited

config-Configured :
    (c : Channel) (x : ℕ) (xs : Str) (config : Config)
    → Configured c (apply_session_init_config c (some (some (x ∷ xs), config))) (x ∷ xs) config
unfolding apply_session_init_config update_session_config set_worktree
config-Configured c x xs config = elim (Option-cases (detect_worktree (x ∷ xs))) [
  | inl h ↦ record {
    path_taken = ground (arith, h);
    tree = ground (arith, h);
    settings = ground (arith, h);
    id_kept = ground (arith, h);
    requests_kept = ground (arith, h);
    bound_kept = ground (arith, h);
    exit_kept = ground (arith, h);
  }
  | inr (w, h) ↦
      let p = detect-path (x ∷ xs) w h in
      record {
        path_taken = ground (arith, h, p);
        tree = ground (arith, h);
        settings = ground (arith, h);
        id_kept = ground (arith, h);
        requests_kept = ground (arith, h);
        bound_kept = ground (arith, h);
        exit_kept = ground (arith, h);
      }
]

-- After a `session:init` whose configuration has a working directory that is not empty, the cache
-- has for each of its six names what the message tells, and what it had where the message is
-- silent; an id that is not empty becomes the channel's; the working directory becomes the
-- channel's, and with it the worktree that its path names, if it names one, or else the one that it
-- had; and the session's settings are taken over, the last entry of a name, without forgetting the
-- others. What is pending, and whether the channel is bound and has exited, stays.
pub apply_session_init-takes :
    (c : Channel) (init : SessionInit) (x : ℕ) (xs : Str) (settings : List (Str × Option Json))
    (k : Str)
    → init.config ≡ some (some (x ∷ xs), pick_defined settings)
    → let d = apply_session_init c (some init) in
      (get k d.meta_cache ≡ overridden (told init k) (get k c.meta_cache))
      × (d.session_id ≡ if_nonempty init.session_id c.session_id)
      × (d.cwd ≡ x ∷ xs)
      × (d.worktree ≡ detected (x ∷ xs) c.worktree)
      × (get k d.session_config ≡ overridden (given k settings) (get k c.session_config))
      × (d.control_requests ≡ c.control_requests)
      × (d.is_bound ≡ c.is_bound)
      × (d.exited ≡ c.exited)
unfolding apply_session_init update_meta_cache pick_defined
apply_session_init-takes c init x xs settings k h =
    let s = config-Configured (apply_session_id init.session_id c) x xs (pick_defined settings) in
    (
      init-meta c init k,
      rw h (ground (arith, s.id_kept)),
      rw h (s.path_taken),
      rw h (ground (arith, s.tree)),
      rw h (ground (arith, s.settings, get-spread_pick k c.session_config settings)),
      rw h (ground (arith, s.requests_kept)),
      rw h (ground (arith, s.bound_kept)),
      rw h (ground (arith, s.exit_kept)),
    )
