-- ===== src/Transport/Registry/Tests.antt =====
-- Session keys and their timers at concrete inputs.
use code_quest.Common.{◌≡◌, refl, true, List, [], ◌∷◌, is_some, str_eq, nat_eq}
use code_quest.Common.Text.{lit}
use code_quest.Common.Map.{get}
use code_quest.Common.Keys.{member, add, remove}
use code_quest.Transport.Registry.Defs.{
  Step, connects, closes, fires, new, run, fire, made, rebound, expired,
}
use code_quest.Transport.Registry.Keeping.{is_orderly, connected, fire-run, overlap-expires}

-- A session reconnects in time; another one is given up.
abbrev steps : List Step
steps =
    connects (lit "k") (lit "a")
    ∷ connects (lit "j") (lit "b")
    ∷ closes (lit "k")
    ∷ closes (lit "j")
    ∷ connects (lit "k") (lit "c")
    ∷ fires 1
    ∷ []

fire-run_example :
    (is_some (get (lit "k") (run new steps).0.registry) ≡ true)
    × (get (lit "k") (fire (run new steps).0 0).0.registry
        ≡ get (lit "k") (run new steps).0.registry)
unfolding is_orderly connected member add remove
fire-run_example = fire-run steps 0 (lit "k") refl refl

overlap-expires_example :
    let r = run new (
      connects (lit "k") (lit "a")
      ∷ connects (lit "k") (lit "b")
      ∷ closes (lit "k")
      ∷ fires 0
      ∷ connects (lit "k") (lit "c")
      ∷ []) in
    r.1
    ≡ (made 0 (lit "a") ∷ rebound 0 (lit "b") (lit "a") ∷ expired (lit "b") ∷ made 1 (lit "c") ∷ [])
overlap-expires_example = overlap-expires (lit "k") (lit "a") (lit "b") (lit "c")
