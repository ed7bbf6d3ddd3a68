-- ===== src/Topics/Tests.antt =====
-- Subscriptions at concrete inputs.
use code_quest.Common.{◌≡◌, List, [], ◌∷◌, is_some, ltb}
use code_quest.Common.Text.{lit}
use code_quest.Topics.Defs.{new}
use code_quest.Topics.Counting.{
  Step, subscribes, unsubscribes, run, active, entry, count_of, refcount-run,
}

-- Two subscriptions under one id, of which the first is released twice.
abbrev steps : List Step
steps =
    subscribes (lit "/a") (lit "s") 1
    ∷ subscribes (lit "/a") (lit "s") 2
    ∷ unsubscribes 0
    ∷ unsubscribes 0
    ∷ []

refcount-run_example :
    (count_of (entry (lit "/a") (lit "s") (run new steps).subs)
      ≡ active (lit "/a") (lit "s") (run new steps).closures)
    × (is_some (entry (lit "/a") (lit "s") (run new steps).subs)
        ≡ ltb 0 (active (lit "/a") (lit "s") (run new steps).closures))
refcount-run_example = refcount-run steps (lit "/a") (lit "s")
