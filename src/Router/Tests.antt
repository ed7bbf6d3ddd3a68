-- ===== src/Router/Tests.antt =====
-- Listeners of a channel at concrete inputs.
use code_quest.Common.{◌≡◌, refl, List, [], ◌∷◌, length, if◌then◌else◌}
use code_quest.Common.Text.{lit}
use code_quest.Router.Defs.{
  Step, subscribes, unsubscribes, registers, unregisters, disposes, handled_events, new, run, fire,
  is_empty,
}
use code_quest.Router.Sharing.{fire-wanted}
use code_quest.Router.Wanted.{bounds_of, wanted}

abbrev steps : List Step
steps =
    subscribes (lit "a") 1
    ∷ subscribes (lit "a") 2
    ∷ subscribes (lit "b") 3
    ∷ unsubscribes (lit "a") 1
    ∷ disposes
    ∷ registers (lit "b" ∷ lit "a" ∷ []) 5
    ∷ registers (lit "a" ∷ lit "c" ∷ []) 7
    ∷ unregisters (lit "b" ∷ lit "a" ∷ []) 5
    ∷ unsubscribes (lit "a") 2
    ∷ subscribes (lit "a") 4
    ∷ unsubscribes (lit "a") 2
    ∷ []

fire-wanted_example :
    (fire (run new steps) (lit "a") ≡ wanted (lit "a") [] steps)
    × (length (bounds_of (lit "a") (run new steps).attached)
        ≡ (if is_empty (wanted (lit "a") [] steps) then 0 else 1))
fire-wanted_example = fire-wanted steps (lit "a")

handled_events_test :
    handled_events (lit "b" ∷ lit "a" ∷ []) (lit "a" ∷ lit "c" ∷ [])
    ≡ (lit "b" ∷ lit "a" ∷ lit "c" ∷ [])
unfolding handled_events
handled_events_test = refl
