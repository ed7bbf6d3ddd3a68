-- ===== src/Hub/Channel/Lifecycle.antt =====
-- What a channel makes of its runner's events, in every order.
use code_quest.Common.{
  ℕ, ◌≡◌, refl, sym, subst, ap, ◌∙◌, Bool, true, false, List, [], ◌∷◌, ◌++◌, map, Option, none,
  some, Str, str_eq, arith,
}
use code_quest.Common.Text.{lit}
use code_quest.Common.Map.{values, keys}
use code_quest.Hub.Tracker.Defs as Tracker
use code_quest.Hub.Tracker.Defs.{ControlResponse, reject_each}
use code_quest.Hub.Channel.Defs.{
  Channel, SessionInit, ClientMessage, error_message, session_init, session_status, other, Effect,
  tracker, on_exit, on_message, on_stderr, on_control_response, on_process_exit, unbind_runner,
  destroy, clear_timeouts, handle_internal_message, apply_error_message, apply_session_init,
  apply_session_init_config, apply_session_status, update_session_config, update_meta_cache,
  set_worktree,
}

-- what the runner's process does
pub data RunnerEvent : Type 0 where
  says : ClientMessage → RunnerEvent
  complains : Str → RunnerEvent
  responds : Str → ControlResponse → RunnerEvent
  exits : Option ℕ → (printed : Str) → RunnerEvent

unfoldable pub step : Channel → RunnerEvent → Channel × List Effect
unfolding on_message on_stderr on_control_response on_process_exit
step c (says message) = on_message c message
step c (complains line) = (on_stderr c line, [])
step c (responds id response) = on_control_response c id response
step c (exits code printed) = on_process_exit c code printed

unfoldable pub run : Channel → List RunnerEvent → Channel × List Effect
unfolding step
run c [] = (c, [])
run c (event ∷ events) =
    let (d, effects) = step c event in let (e, later) = run d events in (e, effects ++ later)

-- A channel but for its last error.
abbrev pub with_error : Channel → Option Str → Channel
with_error c e = record c { last_error = e }

step_unbound :
    (c : Channel) (e : Option Str) (event : RunnerEvent)
    → c.is_bound ≡ false
    → (step (with_error c e) event).1 ≡ []
      × (step (with_error c e) event).0 ≡ with_error c (step (with_error c e) event).0.last_error
unfolding step on_message on_stderr on_control_response on_process_exit
step_unbound c e (says message) h = (rw h refl, rw h refl)
step_unbound c e (complains line) h = (refl, refl)
step_unbound c e (responds id response) h = (rw h refl, rw h refl)
step_unbound c e (exits code printed) h = (rw h refl, rw h refl)

run_unbound :
    (c : Channel) (e : Option Str) (events : List RunnerEvent)
    → c.is_bound ≡ false
    → ((run (with_error c e) events).1 ≡ [])
      × ((run (with_error c e) events).0 ≡ with_error c (run (with_error c e) events).0.last_error)
unfolding run
run_unbound c e [] h = (refl, refl)
run_unbound c e (event ∷ events) h =
    let one = step_unbound c e event h in
    let later =
      subst
        (λ (d : Channel).
          ((run d events).1 ≡ []) × ((run d events).0 ≡ with_error c (run d events).0.last_error))
        (sym one.1) (run_unbound c (step (with_error c e) event).0.last_error events h) in
    (
      ap (λ (es : List Effect). es ++ (run (step (with_error c e) event).0 events).1) one.0
          ∙ later.0,
      later.1,
    )

-- `destroy` rejects all outbound requests with "Channel destroyed", each in the order in which it
-- was made, and then clears all MCP timers; it leaves a channel that has exited and has no request,
-- no timer and no session setting. Whatever its process still does then reaches nobody and changes
-- nothing but the last error.
pub run-destroy :
    (c : Channel) (events : List RunnerEvent)
    → let d = (destroy c).0 in
      ((destroy c).1 ≡ (
        map tracker (reject_each (keys c.control_requests.pending) (lit "Channel destroyed"))
        ++ clear_timeouts (values c.mcp_timeouts)))
      × ((run d events).1 ≡ [])
      × ((run d events).0 ≡ with_error d (run d events).0.last_error)
      × (d.exited ≡ true)
      × (d.control_requests.pending ≡ [])
      × (d.control_requests.meta ≡ [])
      × (d.mcp_timeouts ≡ [])
      × (d.session_config ≡ [])
unfolding destroy unbind_runner Tracker.clear Tracker.reject_all_pending
run-destroy c events =
    let quiet = run_unbound (destroy c).0 (destroy c).0.last_error events refl in
    (refl, quiet.0, quiet.1, refl, refl, refl, refl, refl)

-- whether a message carries an error that replaces the last one
abbrev pub is_error : RunnerEvent → Bool
is_error (says (error_message (some _))) = true
is_error (complains _) = true
is_error _ = false

abbrev pub is_exit : RunnerEvent → Bool
is_exit (exits _ _) = true
is_exit _ = false

-- neither errors nor exits among the events
abbrev pub IsQuiet : List RunnerEvent → Type 0
IsQuiet [] = Unit
IsQuiet (event ∷ events) = (is_error event ≡ false) × (is_exit event ≡ false) × IsQuiet events

set_worktree-error :
    (c : Channel) (init : Option SessionInit)
    → ((apply_session_init c init).last_error ≡ c.last_error)
      × ((apply_session_init c init).is_bound ≡ c.is_bound)
unfolding apply_session_init apply_session_init_config update_session_config update_meta_cache
    set_worktree
set_worktree-error c init = ground arith

step_quiet :
    (c : Channel) (event : RunnerEvent)
    → is_error event ≡ false
    → is_exit event ≡ false
    → ((step c event).0.last_error ≡ c.last_error) × ((step c event).0.is_bound ≡ c.is_bound)
unfolding step on_message on_control_response handle_internal_message apply_error_message
    apply_session_status update_session_config
step_quiet c (says (error_message none)) h k = ground arith
step_quiet c (says (error_message (some e))) h k = ground arith
step_quiet c (says (session_init init)) h k = ground (arith, set_worktree-error c init)
step_quiet c (says (session_status none)) h k = ground arith
step_quiet c (says (session_status (some none))) h k = ground arith
step_quiet c (says (session_status (some (some mode)))) h k = ground arith
step_quiet c (says (other name)) h k = ground arith
step_quiet c (complains line) h k = ground arith
step_quiet c (responds id response) h k = ground arith
step_quiet c (exits code printed) h k = ground arith

run_quiet :
    (c : Channel) (events : List RunnerEvent)
    → IsQuiet events
    → ((run c events).0.last_error ≡ c.last_error) × ((run c events).0.is_bound ≡ c.is_bound)
unfolding run
run_quiet c [] h = (refl, refl)
run_quiet c (event ∷ events) (h, k, hs) =
    let one = step_quiet c event h k in
    let rest = run_quiet (step c event).0 events hs in (rest.0 ∙ one.0, rest.1 ∙ one.1)

step-reports :
    (c : Channel) (e : Str)
    → c.is_bound ≡ true
    → ((step c (says (error_message (some e)))).0.last_error ≡ some e)
      × ((step c (says (error_message (some e)))).0.is_bound ≡ true)
unfolding step on_message handle_internal_message apply_error_message
step-reports c e h = ground (arith, h)

run-after :
    (c : Channel) (event : RunnerEvent) (events : List RunnerEvent)
    → (run c (event ∷ events)).0 ≡ (run (step c event).0 events).0
unfolding run
run-after c event events = refl

-- If the process of a bound channel reports an error, then says and answers whatever it likes but
-- no further error, nor anything on its error stream, and then exits: every outbound request that
-- is still pending is rejected with that error, none stays pending, the owner is told, and the
-- channel has exited.
pub exit-last_error :
    (c : Channel) (e : Str) (events : List RunnerEvent) (code : Option ℕ) (printed : Str)
    → c.is_bound ≡ true
    → IsQuiet events
    → let d = (run c (says (error_message (some e)) ∷ events)).0 in
      ((step d (exits code printed)).1
        ≡ (map tracker (reject_each (keys d.control_requests.pending) e) ++ on_exit code ∷ []))
      × ((step d (exits code printed)).0.control_requests.pending ≡ [])
      × ((step d (exits code printed)).0.exited ≡ true)
unfolding step on_process_exit Tracker.reject_all_pending
exit-last_error c e events code printed bound quiet =
    let first = (step c (says (error_message (some e)))).0 in
    let rest = run_quiet first events quiet in
    let start = step-reports c e bound in
    let d = (run c (says (error_message (some e)) ∷ events)).0 in
    let same = run-after c (says (error_message (some e))) events in
    let b : d.is_bound ≡ true = (ap (λ (x : Channel). x.is_bound) same ∙ rest.1) ∙ start.1 in
    let l : d.last_error ≡ some e = (ap (λ (x : Channel). x.last_error) same ∙ rest.0) ∙ start.0 in
    (rw b (rw l refl), rw b refl, rw b refl)
