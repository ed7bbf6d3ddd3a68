-- ===== src/Broadcaster/Tests.antt =====
-- Subscriptions of working directories at concrete inputs.
use code_quest.Common.{◌+◌, ◌≤◌, ◌≡◌, refl, not, List, [], ◌∷◌, some, is_some, str_eq, nat_eq}
use code_quest.Common.Text.{lit}
use code_quest.Common.Map.{keys, get, set, delete}
use code_quest.Common.Keys.{add}
use code_quest.Broadcaster.Defs.{
  Broadcaster, Read, created, called, new, subscribe, settle, Step, adds, subscribes, unsubscribes,
  changes, settles, wakes, run, initial, step, add_type, init_cwd_entry, deliver, deliver_all,
  deliver_initial, on_source_change, clear_promise, settled_by, take_value, tell, unsubscribe, wake,
  wake_from, wake_one,
}
use code_quest.Broadcaster.Sources.{sources-run, subscribers, is_none_left}
use code_quest.Broadcaster.Opening.{subs_of}
use code_quest.Broadcaster.Views.{creations, stops, open_of, view_at}
use code_quest.Broadcaster.Updates.{value_at, changes-lost}

-- Two subscribers of one directory with two types; one leaves, and both have left at the end.
abbrev steps : List Step
steps =
    adds (lit "git")
    ∷ adds (lit "files")
    ∷ subscribes (lit "/a") (lit "s") 1
    ∷ subscribes (lit "/a") (lit "t") 2
    ∷ settles 0 (some 10)
    ∷ wakes
    ∷ unsubscribes (lit "/a") (lit "s")
    ∷ changes (lit "/a") (lit "git")
    ∷ settles 2 (some 11)
    ∷ []

sources-run_example :
    (creations (lit "/a") (lit "git") (run new steps).1
      ≡ stops (lit "/a") (lit "git") (run new steps).1
        + open_of (lit "git") (view_at (lit "/a") (run new steps).0))
    × (open_of (lit "git") (view_at (lit "/a") (run new steps).0) ≤ 1)
    × (keys (subs_of (view_at (lit "/a") (run new steps).0)) ≡ subscribers (lit "/a") [] steps)
    × (is_some (view_at (lit "/a") (run new steps).0)
        ≡ not (is_none_left (subscribers (lit "/a") [] steps)))
sources-run_example = sources-run steps (lit "/a") (lit "git")

steps_effects : (run new steps).1 ≡ (
    created (lit "/a") (lit "git")
    ∷ created (lit "/a") (lit "files")
    ∷ called 1 (lit "git") 10
    ∷ called 2 (lit "git") 10
    ∷ called 2 (lit "git") 11
    ∷ [])
unfolding run step new add_type subscribe init_cwd_entry deliver deliver_all deliver_initial
    unsubscribe on_source_change settle clear_promise settled_by take_value tell wake wake_from
    wake_one get set delete add
steps_effects = refl

abbrev reading : Broadcaster
unfolding run step new add_type subscribe init_cwd_entry deliver deliver_all deliver_initial get set
    add
reading = (run new (adds (lit "git") ∷ subscribes (lit "/a") (lit "s") 1 ∷ [])).0

abbrev the_read : Read
the_read = record { cwd = lit "/a"; type = lit "git"; serial = 0; reason = initial (lit "s") 1 }

changes-lost_example :
    let b = run new (
      adds (lit "git")
      ∷ subscribes (lit "/a") (lit "s") 1
      ∷ changes (lit "/a") (lit "git")
      ∷ settles 0 (some 5)
      ∷ []) in
    (b.0.reads ≡ [])
    × (value_at (lit "/a") (lit "git") b.0 ≡ some (some 5))
    × (b.1 ≡ (created (lit "/a") (lit "git") ∷ called 1 (lit "git") 5 ∷ []))
changes-lost_example = changes-lost (lit "/a") (lit "s") (lit "git") 1 5
