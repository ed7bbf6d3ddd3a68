-- ===== src/Controls/Review.antt =====
-- The review of a diff, from the process to the user and back.
use code_quest.Common.{
  ◌≡◌, refl, Bool, true, false, List, [], ◌∷◌, Option, none, some, Str, str_eq, arith, any, find,
  is_some,
}
use code_quest.Common.Text.{lit}
use code_quest.Common.Map.{get-set_self}
use code_quest.Hub.Tracker.Defs as Tracker
use code_quest.Hub.Channel.Defs as Channel
use code_quest.Hub.Channel.Defs.{Channel}
use code_quest.Controls.Server as Server
use code_quest.Controls.Server.{OpenDiff, DiffReviewEvent, diff_review, on_open_diff}
use code_quest.Controls.Client.{
  ControlState, PendingControl, has_tool_use_id, on_control_diff_review, diff_respond,
  on_diff_respond,
}

-- the reviews among what the server sends, as the browser takes them in
abbrev pub take_reviews : List Server.Effect → ControlState → ControlState
take_reviews [] s = s
take_reviews (diff_review _ p ∷ es) s = take_reviews es (on_control_diff_review s p)
take_reviews (_ ∷ es) s = take_reviews es s

find-none :
    (i : Str) (cs : List PendingControl)
    → any (has_tool_use_id i) cs ≡ false
    → find (has_tool_use_id i) cs ≡ none
find-none i [] h = refl
find-none i (c ∷ cs) h = ground (arith, h, find-none i cs)

diff_respond-none :
    (s : ControlState) (i : Str) (accepted : Bool)
    → any (has_tool_use_id i) s.controls ≡ false
    → diff_respond s i accepted ≡ []
unfolding diff_respond
diff_respond-none s i accepted h = ground (arith, find-none i s.controls h)

kept :
    (t : Tracker.Tracker) (i : Str)
    → Tracker.has_inbound
        (Tracker.track_inbound t i
          (record { subtype = lit "open_diff"; tool_name = none; tool_use_id = none }))
        i
      ≡ true
unfolding Tracker.has_inbound Tracker.track_inbound
kept t i =
    let meta : Tracker.RequestMeta = record {
      subtype = lit "open_diff";
      tool_name = none;
      tool_use_id = none;
    } in
    rw (get-set_self i meta t.meta) refl

-- When the process asks for the review of a diff and its files can be read, the browser shows the
-- review, and the request waits at the server; but whatever the user decides is sent to nobody, and
-- the review is closed, unless a question is pending whose tool has the id of this request.
pub review-unanswered :
    (read : Str → Option Str) (ch : Channel) (p : OpenDiff) (s : ControlState) (old new : Str)
    (accepted : Bool)
    → read p.original_path ≡ some old
    → read p.new_path ≡ some new
    → any (has_tool_use_id p.request_id) s.controls ≡ false
    → let opened = on_open_diff read ch (some p) in
      let shown = take_reviews opened.1 s in
      let answered = on_diff_respond shown p.request_id accepted in
      (is_some shown.diff_review ≡ true)
      × (Channel.has_control_request opened.0 p.request_id ≡ true)
      × (answered.1 ≡ [])
      × (answered.0.diff_review ≡ none)
unfolding on_open_diff on_control_diff_review on_diff_respond Channel.has_control_request
    Channel.track_control_request
review-unanswered read ch p s old new accepted h k none_of =
    rw (h, k)
      (
        refl,
        kept ch.control_requests p.request_id,
        diff_respond-none (take_reviews (Server.open_read ch p (some old) (some new)).1 s)
            p.request_id accepted none_of,
        refl,
      )
