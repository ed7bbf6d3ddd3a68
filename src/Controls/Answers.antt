-- ===== src/Controls/Answers.antt =====
-- How often a question is answered.
use code_quest.Common.{
  ℕ, Bool, ◌+◌, List, [], ◌∷◌, ◌++◌, Option, none, some, Str, if◌then◌else◌, str_eq, str_beq,
}
use code_quest.Controls.Server.{DiffReviewEvent}
use code_quest.Controls.Client.{
  PendingControl, ControlState, Response, Effect, responds, on_control_permission,
  on_control_hook_callback, on_cancel_request, reset_controls_on_close, respond_to_control,
  responds_diff, responds_elicitation, on_control_elicitation, on_control_diff_review,
  respond_to_elicitation, cancel_elicitation, on_diff_respond, Elicitation,
}

-- What reaches the browser, and what the user does. The dialogs of an elicitation and of a diff act on
-- the one that is shown.
pub data Step : Type 0 where
  permission_comes : (request_id tool_name tool_use_id : Str) → Step
  hook_comes : (request_id callback_id : Str) → (tool_use_id : Option Str) → Step
  elicitation_comes : (request_id prompt : Str) → Step
  diff_comes : DiffReviewEvent → Step
  cancel_comes : (request_id : Str) → Step
  session_closes : Step
  user_responds : Response → (request_id : Option Str) → Step
  user_answers : (answer : Str) → Step
  user_cancels : Step
  user_decides : (accepted : Bool) → Step

abbrev on_elicitation :
    (ControlState → Str → ControlState × List Effect) → ControlState → ControlState × List Effect
on_elicitation act s = elim s.elicitation [ none ↦ (s, []) | some e ↦ act s e.request_id ]

abbrev on_review : (accepted : Bool) → ControlState → ControlState × List Effect
unfolding on_diff_respond
on_review accepted s = elim s.diff_review [
  | none ↦ (s, [])
  | some r ↦ on_diff_respond s r.tool_id accepted
]

unfoldable pub step : ControlState → Step → ControlState × List Effect
unfolding on_control_permission on_control_hook_callback on_cancel_request reset_controls_on_close
    respond_to_control on_control_elicitation on_control_diff_review respond_to_elicitation
    cancel_elicitation on_diff_respond
step s (permission_comes request_id tool_name tool_use_id) =
    on_control_permission s request_id tool_name tool_use_id
step s (hook_comes request_id callback_id tool_use_id) =
    on_control_hook_callback s request_id callback_id tool_use_id
step s (elicitation_comes request_id prompt) =
    (on_control_elicitation s request_id prompt none none none, [])
step s (diff_comes p) = (on_control_diff_review s p, [])
step s (cancel_comes request_id) = (on_cancel_request s request_id, [])
step s session_closes = (reset_controls_on_close s, [])
step s (user_responds response request_id) = respond_to_control s response request_id
step s (user_answers answer) = on_elicitation (λ t i. respond_to_elicitation t i answer) s
step s user_cancels = on_elicitation cancel_elicitation s
step s (user_decides accepted) = on_review accepted s

unfoldable pub run : ControlState → List Step → ControlState × List Effect
unfolding step
run s [] = (s, [])
run s (x ∷ xs) = let (t, effects) = step s x in let (u, later) = run t xs in (u, effects ++ later)

-- how often a question came, is pending and was answered
abbrev pub comes : Str → Step → ℕ
comes i (permission_comes j _ _) = if str_beq j i then 1 else 0
comes i (hook_comes j _ _) = if str_beq j i then 1 else 0
comes i (elicitation_comes j _) = if str_beq j i then 1 else 0
comes i _ = 0

abbrev pub arrivals : Str → List Step → ℕ
arrivals i [] = 0
arrivals i (x ∷ xs) = comes i x + arrivals i xs

abbrev pub pending : Str → List PendingControl → ℕ
pending i [] = 0
pending i (c ∷ cs) = (if str_beq c.request_id i then 1 else 0) + pending i cs

abbrev shown : Str → Option Elicitation → ℕ
shown i none = 0
shown i (some e) = if str_beq e.request_id i then 1 else 0

abbrev pub unanswered : Str → ControlState → ℕ
unanswered i s = pending i s.controls + shown i s.elicitation

-- how often the user decided on a diff
abbrev is_decision : Step → ℕ
is_decision (user_decides _) = 1
is_decision _ = 0

abbrev pub decisions : List Step → ℕ
decisions [] = 0
decisions (x ∷ xs) = is_decision x + decisions xs

abbrev is_answer : Str → Effect → ℕ
is_answer i (responds j _) = if str_beq j i then 1 else 0
is_answer i (responds_diff j _) = if str_beq j i then 1 else 0
is_answer i (responds_elicitation j _) = if str_beq j i then 1 else 0
is_answer i _ = 0

abbrev pub answers : Str → List Effect → ℕ
answers i [] = 0
answers i (e ∷ es) = is_answer i e + answers i es
