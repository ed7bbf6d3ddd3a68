-- ===== src/Broadcaster/Sources.antt =====
-- Which sources are open: those of the directories that have a subscriber.
use code_quest.Common.{
  ℕ, ◌+◌, ◌≤◌, ◌≡◌, refl, ap, ◌∙◌, not, Bool, true, false, none, some, if◌then◌else◌, str_beq, List,
  [], ◌∷◌, Str, str_eq, str_beq_iff, nat_eq, Option-cases, inl, inr, arith, is_some,
}
use code_quest.Common.Map.{Map, get, set, delete, keys, get-set, get-delete}
use code_quest.Common.Keys.{add, remove}
use code_quest.Common.Distinct.{occurrences}
use code_quest.Broadcaster.Defs.{
  Broadcaster, Effect, new, add_type, is_empty, make_types, subscribe, unsubscribe,
  on_source_change, settle, wake, Step, adds, subscribes, unsubscribes, changes, settles, wakes,
  step, run,
}
use code_quest.Broadcaster.Views.{
  open_of, has_subscriber, view_at, creations, stops, creations-append, stops-append,
  stops-stop_all, creations-stop_all, IsQuiet, View,
}
use code_quest.Broadcaster.Quiet.{view-on_source_change, settle-IsQuiet, wake_from-IsQuiet}
use code_quest.Broadcaster.Opening.{
  subs_of, occurrences-make_types, is_empty-set, view-subscribe, effects-subscribe,
}
use code_quest.Broadcaster.Factories.{factories-step}

-- Each type has at most one source in a directory, and a directory is kept for its subscribers only.
pub record IsTidy (b : Broadcaster) : Type 0 where
  pub factories : (t : Str) → occurrences t b.factories ≤ 1
  pub types : (cwd t : Str) → open_of t (view_at cwd b) ≤ 1
  pub kept : (cwd : Str) → is_some (view_at cwd b) ≡ has_subscriber (view_at cwd b)

-- A step keeps the factories or adds one, and what it opens and stops is what changes.
pub record IsBalanced (c t : Str) (b d : Broadcaster) (es : List Effect) : Type 0 where
  pub opened : open_of t (view_at c d) + stops c t es ≡ open_of t (view_at c b) + creations c t es
  pub few : open_of t (view_at c d) ≤ 1
  pub kept : is_some (view_at c d) ≡ has_subscriber (view_at c d)

subscribe-IsBalanced :
    (c t : Str) (b : Broadcaster) (cwd s : Str) (cb : ℕ)
    → IsTidy b
    → IsBalanced c t b (subscribe b cwd s cb).0 (subscribe b cwd s cb).1
subscribe-IsBalanced c t b cwd s cb h = record { opened = all.0; few = all.1; kept = all.2 }
  where
    made : occurrences t (keys (make_types b.factories [])) ≡ occurrences t b.factories
    made =
        omega (arith, occurrences-make_types b.factories [] t (λ u. omega (arith, h.factories u)))

    all :
        (open_of t (view_at c (subscribe b cwd s cb).0) + stops c t (subscribe b cwd s cb).1
          ≡ open_of t (view_at c b) + creations c t (subscribe b cwd s cb).1)
        × (open_of t (view_at c (subscribe b cwd s cb).0) ≤ 1)
        × (is_some (view_at c (subscribe b cwd s cb).0)
            ≡ has_subscriber (view_at c (subscribe b cwd s cb).0))
    all = elim (Option-cases (view_at cwd b)) [
      | inl k ↦ ground (
        arith,
        k,
        made,
        str_beq_iff cwd c,
        h.types c t,
        h.kept c,
        h.factories t,
        view-subscribe c b cwd s cb,
        effects-subscribe c t b cwd s cb,
        is_empty-set s cb [],
      )
      | inr ((types, subs), k) ↦ ground (
        arith,
        k,
        str_beq_iff cwd c,
        h.types c t,
        h.kept c,
        view-subscribe c b cwd s cb,
        effects-subscribe c t b cwd s cb,
        is_empty-set s cb subs,
      )
    ]

unsubscribe-IsBalanced :
    (c t : Str) (b : Broadcaster) (cwd s : Str)
    → IsTidy b
    → IsBalanced c t b (unsubscribe b cwd s).0 (unsubscribe b cwd s).1
unfolding unsubscribe
unsubscribe-IsBalanced c t b cwd s h = elim (Option-cases (get cwd b.entries)) [
  | inl k ↦ record {
    opened = ground (arith, k);
    few = ground (arith, k, h.types c t);
    kept = ground (arith, k, h.kept c);
  }
  | inr (e, k) ↦
      let gone = get-delete cwd c b.entries in
      let less = get-set cwd c (record e { subs = delete s e.subs }) b.entries in
      record {
        opened = ground (
          arith,
          k,
          gone,
          less,
          str_beq_iff cwd c,
          stops-stop_all c t cwd e.types,
          creations-stop_all c t cwd e.types,
        );
        few = ground (arith, k, gone, less, str_beq_iff cwd c, h.types c t);
        kept = ground (arith, k, gone, less, str_beq_iff cwd c, h.kept c);
      }
]

same-IsBalanced :
    (c t : Str) (b d : Broadcaster) (es : List Effect)
    → IsTidy b
    → view_at c d ≡ view_at c b
    → IsQuiet c t es
    → IsBalanced c t b d es
same-IsBalanced c t b d es h v q = record {
  opened = rw v (omega (arith, q));
  few = rw v (h.types c t);
  kept = rw v (h.kept c);
}

step-IsBalanced :
    (c t : Str) (b : Broadcaster) (s : Step) → IsTidy b → IsBalanced c t b (step b s).0 (step b s).1
unfolding step add_type
step-IsBalanced c t b (adds type) h = same-IsBalanced c t b (add_type b type) [] h refl (refl, refl)
step-IsBalanced c t b (subscribes cwd s cb) h = subscribe-IsBalanced c t b cwd s cb h
step-IsBalanced c t b (unsubscribes cwd s) h = unsubscribe-IsBalanced c t b cwd s h
step-IsBalanced c t b (changes cwd u) h =
    same-IsBalanced c t b (on_source_change b cwd u) [] h (view-on_source_change b cwd u c)
      (refl, refl)
step-IsBalanced c t b (settles n o) h =
    let (v, q) = settle-IsQuiet c t b n o in
    same-IsBalanced c t b (settle b n o).0 (settle b n o).1 h v q
step-IsBalanced c t b wakes h =
    let (v, q) = wake_from-IsQuiet c t b.ready b in
    same-IsBalanced c t b (wake b).0 (wake b).1 h v q

step-IsTidy : (b : Broadcaster) (s : Step) → IsTidy b → IsTidy (step b s).0
step-IsTidy b s h = record {
  factories = λ t. factories-step b s t (h.factories t);
  types = λ c t. (step-IsBalanced c t b s h).few;
  kept = λ c. (step-IsBalanced c [] b s h).kept;
}

sources-run_from :
    (b : Broadcaster) (steps : List Step) (c t : Str)
    → IsTidy b
    → IsBalanced c t b (run b steps).0 (run b steps).1
unfolding run
sources-run_from b [] c t h = same-IsBalanced c t b b [] h refl (refl, refl)
sources-run_from b (s ∷ steps) c t h =
    let first = step-IsBalanced c t b s h in
    let rest = sources-run_from (step b s).0 steps c t (step-IsTidy b s h) in
    record {
      opened = omega (
        arith,
        first.opened,
        rest.opened,
        creations-append c t (step b s).1 (run (step b s).0 steps).1,
        stops-append c t (step b s).1 (run (step b s).0 steps).1,
      );
      few = rest.few;
      kept = rest.kept;
    }

abbrev pub is_none_left : List Str → Bool
is_none_left [] = true
is_none_left (_ ∷ _) = false

-- The subscribers of a directory after some steps: those who subscribed and did not leave again.
abbrev pub subscribers_after : Str → List Str → Step → List Str
subscribers_after c ss (subscribes cwd s cb) = if str_beq cwd c then add s ss else ss
subscribers_after c ss (unsubscribes cwd s) = if str_beq cwd c then remove s ss else ss
subscribers_after c ss _ = ss

abbrev pub subscribers : Str → List Str → List Step → List Str
subscribers c ss [] = ss
subscribers c ss (s ∷ steps) = subscribers c (subscribers_after c ss s) steps

keys-set-add : (s : Str) (cb : ℕ) (m : Map Str ℕ) → keys (set s cb m) ≡ add s (keys m)
unfolding set add
keys-set-add s cb [] = refl
keys-set-add s cb ((j, v) ∷ m) = ground (arith, keys-set-add s cb m)

keys-delete-remove : (s : Str) (m : Map Str ℕ) → keys (delete s m) ≡ remove s (keys m)
unfolding delete remove
keys-delete-remove s [] = refl
keys-delete-remove s ((j, v) ∷ m) = ground (arith, keys-delete-remove s m)

is_empty-keys : (m : Map Str ℕ) → is_empty m ≡ is_none_left (keys m)
is_empty-keys [] = refl
is_empty-keys (x ∷ m) = refl

unsubscribe-subscribers :
    (c : Str) (b : Broadcaster) (cwd s : Str)
    → keys (subs_of (view_at c (unsubscribe b cwd s).0))
      ≡ subscribers_after c (keys (subs_of (view_at c b))) (unsubscribes cwd s)
unfolding unsubscribe remove
unsubscribe-subscribers c b cwd s = elim (Option-cases (get cwd b.entries)) [
  | inl k ↦ ground (arith, k, str_beq_iff cwd c)
  | inr (e, k) ↦ ground (
    arith,
    k,
    str_beq_iff cwd c,
    get-delete cwd c b.entries,
    get-set cwd c (record e { subs = delete s e.subs }) b.entries,
    keys-delete-remove s e.subs,
    is_empty-keys (delete s e.subs),
  )
]

step-subscribers :
    (c : Str) (b : Broadcaster) (s : Step)
    → keys (subs_of (view_at c (step b s).0)) ≡ subscribers_after c (keys (subs_of (view_at c b))) s
unfolding step add_type
step-subscribers c b (adds type) = refl
step-subscribers c b (subscribes cwd s cb) = ground (
  arith,
  view-subscribe c b cwd s cb,
  keys-set-add s cb (subs_of (view_at cwd b)),
  str_beq_iff cwd c,
)
step-subscribers c b (unsubscribes cwd s) = unsubscribe-subscribers c b cwd s
step-subscribers c b (changes cwd u) = rw (view-on_source_change b cwd u c) refl
step-subscribers c b (settles n o) = rw (settle-IsQuiet c [] b n o).0 refl
step-subscribers c b wakes = rw (wake_from-IsQuiet c [] b.ready b).0 refl

run-subscribers :
    (c : Str) (b : Broadcaster) (steps : List Step)
    → keys (subs_of (view_at c (run b steps).0))
      ≡ subscribers c (keys (subs_of (view_at c b))) steps
unfolding run
run-subscribers c b [] = refl
run-subscribers c b (s ∷ steps) =
    run-subscribers c (step b s).0 steps
    ∙ ap (λ ss. subscribers c ss steps) (step-subscribers c b s)

has_subscriber-keys : (v : View) → has_subscriber v ≡ not (is_none_left (keys (subs_of v)))
has_subscriber-keys none = refl
has_subscriber-keys (some (types, subs)) = ap not (is_empty-keys subs)

-- However subscribers come and go, sources change, reads end or fail and waiters are woken: of each
-- type, the sources created for a directory are those stopped and the one that is open, at most
-- one; the subscribers that the broadcaster has for a directory are exactly those who subscribed and
-- did not leave again; and it keeps a directory, with its sources, exactly if there is one, so that
-- no source stays open without a subscriber, and none is stopped for the others when one leaves.
pub sources-run :
    (steps : List Step) (c t : Str)
    → (creations c t (run new steps).1
        ≡ stops c t (run new steps).1 + open_of t (view_at c (run new steps).0))
      × (open_of t (view_at c (run new steps).0) ≤ 1)
      × (keys (subs_of (view_at c (run new steps).0)) ≡ subscribers c [] steps)
      × (is_some (view_at c (run new steps).0) ≡ not (is_none_left (subscribers c [] steps)))
unfolding new get
sources-run steps c t =
    let start : IsTidy new = record {
      factories = λ _. omega arith;
      types = λ _ _. omega arith;
      kept = λ _. refl;
    } in
    let all = sources-run_from new steps c t start in
    let same = run-subscribers c new steps in
    (
      omega (arith, all.opened),
      all.few,
      same,
      all.kept
          ∙ has_subscriber-keys (view_at c (run new steps).0)
          ∙ ap (λ ss. not (is_none_left ss)) same,
    )
