-- ===== src/Broadcaster/Factories.antt =====
-- The operations of broadcaster.ts besides addType keep the types that it knows.
use code_quest.Common.{
  ℕ, ◌≤◌, ◌≡◌, refl, List, [], ◌∷◌, Option, none, some, Str, if◌then◌else◌, str_eq, str_beq,
  str_beq_iff, nat_eq, Option-cases, inl, inr, arith, ltb, suc,
}
use code_quest.Common.Map.{get}
use code_quest.Common.Keys.{add}
use code_quest.Common.Distinct.{occurrences}
use code_quest.Broadcaster.Defs.{
  Broadcaster, Read, Waiter, add_type, init_cwd_entry, deliver, subscribe, unsubscribe,
  on_source_change, clear_promise, take_value, settled_by, settle, wake_from, wake, Step, adds,
  subscribes, unsubscribes, changes, settles, wakes, step,
}

occurrences-add :
    (t u : Str) (ts : List Str)
    → occurrences u (add t ts) ≡ (
        if ltb 0 (occurrences t ts)
        then occurrences u ts
        else if str_beq t u
        then suc (occurrences u ts)
        else occurrences u ts)
unfolding add
occurrences-add t u [] = ground arith
occurrences-add t u (j ∷ ts) =
    ground (arith, occurrences-add t u ts, str_beq_iff j t, str_beq_iff j u, str_beq_iff t u)

factories-subscribe :
    (b : Broadcaster) (cwd s : Str) (cb : ℕ) → (subscribe b cwd s cb).0.factories ≡ b.factories
unfolding subscribe init_cwd_entry deliver
factories-subscribe b cwd s cb = elim (Option-cases (get cwd b.entries)) [
  | inl h ↦ ground (arith, h)
  | inr (x, h) ↦ ground (arith, h)
]

factories-clear_promise : (b : Broadcaster) (r : Read) → (clear_promise b r).factories ≡ b.factories
unfolding clear_promise
factories-clear_promise b r = elim (Option-cases (get r.cwd b.entries)) [
  | inl h ↦ ground (arith, h)
  | inr (e, h) ↦ elim (Option-cases (get r.type e.types)) [
    | inl k ↦ ground (arith, h, k)
    | inr (x, k) ↦ ground (arith, h, k)
  ]
]

factories-settled_by :
    (o : Option ℕ) (b : Broadcaster) (r : Read) → (settled_by o b r).0.factories ≡ b.factories
unfolding settled_by take_value
factories-settled_by none b r = refl
factories-settled_by (some v) b r = elim (Option-cases (get r.cwd b.entries)) [
  | inl h ↦ ground (arith, h)
  | inr (e, h) ↦ elim (Option-cases (get r.type e.types)) [
    | inl k ↦ ground (arith, h, k)
    | inr (x, k) ↦ ground (arith, h, k)
  ]
]

factories-settle :
    (b : Broadcaster) (n : ℕ) (o : Option ℕ) → (settle b n o).0.factories ≡ b.factories
unfolding settle
factories-settle b n o = elim (Option-cases (get n b.reads)) [
  | inl h ↦ ground (arith, h)
  | inr (r, h) ↦
      ground (arith, h, factories-settled_by o (clear_promise b r) r, factories-clear_promise b r)
]

factories-unsubscribe :
    (b : Broadcaster) (cwd s : Str) → (unsubscribe b cwd s).0.factories ≡ b.factories
unfolding unsubscribe
factories-unsubscribe b cwd s = elim (Option-cases (get cwd b.entries)) [
  | inl h ↦ ground (arith, h)
  | inr (e, h) ↦ ground (arith, h)
]

factories-on_source_change :
    (b : Broadcaster) (cwd u : Str) → (on_source_change b cwd u).factories ≡ b.factories
unfolding on_source_change
factories-on_source_change b cwd u = elim (Option-cases (get cwd b.entries)) [
  | inl h ↦ ground (arith, h)
  | inr (e, h) ↦ elim (Option-cases (get u e.types)) [
    | inl k ↦ ground (arith, h, k)
    | inr (x, k) ↦ ground (arith, h, k)
  ]
]

factories-wake_from :
    (ws : List Waiter) (b : Broadcaster) → (wake_from ws b).0.factories ≡ b.factories
unfolding wake_from
factories-wake_from [] b = refl
factories-wake_from (w ∷ ws) b = refl

pub factories-step :
    (b : Broadcaster) (s : Step) (t : Str)
    → occurrences t b.factories ≤ 1
    → occurrences t (step b s).0.factories ≤ 1
unfolding step add_type wake
factories-step b (adds type) t h =
    ground (arith, h, occurrences-add type t b.factories, str_beq_iff type t)
factories-step b (subscribes cwd s cb) t h = rw (factories-subscribe b cwd s cb) h
factories-step b (unsubscribes cwd s) t h = rw (factories-unsubscribe b cwd s) h
factories-step b (changes cwd u) t h = rw (factories-on_source_change b cwd u) h
factories-step b (settles n o) t h = rw (factories-settle b n o) h
factories-step b wakes t h = rw (factories-wake_from b.ready b) h
