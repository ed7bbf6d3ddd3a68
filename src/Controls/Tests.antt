-- ===== src/Controls/Tests.antt =====
-- Questions to the user at concrete inputs.
use code_quest.Common.{◌≡◌, refl, true, false, List, [], ◌∷◌, none, some, is_some}
use code_quest.Common.Text.{lit}
use code_quest.Hub.Channel.Defs as Channel
use code_quest.Hub.Channel.Defs.{Channel}
use code_quest.Controls.Server.{OpenDiff, on_open_diff}
use code_quest.Controls.Client.{no_state, allow, deny, on_diff_respond}
use code_quest.Controls.Review.{take_reviews, review-unanswered}
use code_quest.Controls.Answers.{
  Step, permission_comes, hook_comes, user_responds, elicitation_comes, user_answers, user_cancels,
  user_decides,
}

abbrev steps : List Step
steps =
    permission_comes (lit "q") (lit "Bash") (lit "t")
    ∷ hook_comes (lit "h") (lit "cb") none
    ∷ user_responds (allow false) (some (lit "q"))
    ∷ user_responds (deny true) (some (lit "q"))
    ∷ elicitation_comes (lit "e") (lit "Which?")
    ∷ user_answers (lit "this")
    ∷ user_cancels
    ∷ user_decides true
    ∷ user_responds (deny false) none
    ∷ []

abbrev review : OpenDiff
review = record { request_id = lit "r"; original_path = lit "/a"; new_path = lit "/b" }

abbrev channel : Channel
channel = record {
  channel_id = lit "c";
  provider = lit "claude";
  launch_args = [];
  session_config = [];
  meta_cache = [];
  session_id = none;
  cwd = lit "/";
  project_root = none;
  worktree = none;
  last_error = none;
  exited = false;
  title_generated = false;
  pending_title_prompt = none;
  title = none;
  parent_id = none;
  is_processing = false;
  control_requests = record { meta = []; pending = []; timers = [] };
  mcp_timeouts = [];
  terminal_lines = [];
  is_bound = true;
}

review-unanswered_example :
    let opened = on_open_diff (λ _. some (lit "x")) channel (some review) in
    let shown = take_reviews opened.1 no_state in
    let answered = on_diff_respond shown (lit "r") true in
    (is_some shown.diff_review ≡ true)
    × (Channel.has_control_request opened.0 (lit "r") ≡ true)
    × (answered.1 ≡ [])
    × (answered.0.diff_review ≡ none)
review-unanswered_example =
    review-unanswered (λ _. some (lit "x")) channel review no_state (lit "x") (lit "x") true refl
      refl refl
