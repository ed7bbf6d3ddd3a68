-- ===== src/Timeline/Tests.antt =====
-- A short conversation.
use code_quest.Common.{◌≡◌, refl, true, false, List, [], ◌∷◌, none, some}
use code_quest.Common.Text.{lit}
use code_quest.Timeline.Defs.{
  Message, tool_use, pending_action, other, grouped, solo, split_timeline_runs, split_from,
  flush_pending, is_tool_use_message, is_permission_message,
}
use code_quest.Timeline.Runs.{flatten, IsSplit, split_timeline_runs-splits}

abbrev read : Message
read = tool_use (lit "Read") none (some (some true))

abbrev talk : List Message
talk = other 1 ∷ read ∷ read ∷ pending_action 2 ∷ other 3 ∷ []

split_timeline_runs-splits_example :
    (flatten (split_timeline_runs talk) ≡ talk) × IsSplit false (split_timeline_runs talk)
split_timeline_runs-splits_example = split_timeline_runs-splits talk

talk_runs :
    split_timeline_runs talk
    ≡ solo (other 1) ∷ grouped (read ∷ read ∷ pending_action 2 ∷ []) ∷ solo (other 3) ∷ []
unfolding split_timeline_runs split_from flush_pending is_tool_use_message is_permission_message
talk_runs = refl
