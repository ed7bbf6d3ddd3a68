-- ===== src/Hub/Recorder/Order.antt =====
-- The order in which the lines reach the store, and how often.
use code_quest.Common.{
  ℕ, zero, suc, ◌≡◌, refl, ap, ◌∙◌, sym, Bool, true, List, [], ◌∷◌, ◌++◌, map, map-append,
  append_assoc, append-nil, none, some, Str, if◌then◌else◌, str_eq, arith, length, filter, drop,
  shift, shift-drop, head?,
}
use code_quest.Hub.Recorder.Defs.{
  Event, Entry, event, delta, flushing, finishing, Task, Recorder, is_delta, nth, begin, go_on,
  rooted, progress, record_for,
}

nth-drop : (n : ℕ) (es : List Event) → nth n es ≡ head? (drop n es)
nth-drop zero [] = refl
nth-drop zero (e ∷ es) = refl
nth-drop (suc n) [] = refl
nth-drop (suc n) (e ∷ es) = nth-drop n es

abbrev pub line : Entry → Event
line (event e _) = e
line (delta _ e _) = e

module _ (write_deltas : Bool) where
  -- the lines that the store is meant to have
  abbrev pub is_kept : Event → Bool
  is_kept e = if is_delta e then write_deltas else true

  abbrev pub kept : List Event → List Event
  kept events = filter (λ (e : Event). is_kept e) events

  -- The store answers the first task, time and again.
  unfoldable pub settle : ℕ → Recorder → Recorder
  settle zero r = r
  settle (suc n) r = settle n (progress write_deltas true 0 r)

  lines-begin :
      (r : Recorder) (e : Event) (session : Str)
      → map line (begin write_deltas r e session).0.store ≡ (map line r.store ++ kept (e ∷ []))
  unfolding begin
  lines-begin r e session = ground (
    arith,
    map-append line r.store (event e session ∷ []),
    map-append line r.store (delta r.current_turn_root e session ∷ []),
    append-nil (map line r.store),
  )

  -- what `begin` leaves alone
  begin-rest :
      (r : Recorder) (e : Event) (session : Str)
      → ((begin write_deltas r e session).0.tasks ≡ r.tasks)
        × ((begin write_deltas r e session).0.pending_events ≡ r.pending_events)
  unfolding begin
  begin-rest r e session = ground arith

  rooted-rest :
      (ok : Bool) (t : Task) (r : Recorder)
      → ((rooted write_deltas ok t r).tasks ≡ r.tasks)
        × ((rooted write_deltas ok t r).pending_events ≡ r.pending_events)
        × ((rooted write_deltas ok t r).store ≡ r.store)
  unfolding rooted
  rooted-rest ok t r = ground arith

  more :
      (r : Recorder) (t : Task) (at : ℕ) (next x : Event)
      → r.tasks ≡ t ∷ []
      → t.rest ≡ flushing at next
      → nth (suc at) r.pending_events ≡ some x
      → let p = progress write_deltas true 0 r in
        (u : Task) × (p.tasks ≡ u ∷ [])
        × (u.rest ≡ flushing (suc at) next)
        × (p.pending_events ≡ r.pending_events)
        × (map line p.store ≡ (map line r.store ++ kept (x ∷ [])))
  unfolding progress go_on
  more r t at next x h k l =
      let q = rooted write_deltas true t r in
      let same = rooted-rest true t r in
      let b = begin-rest q x t.session in
      let s = lines-begin q x t.session in
      let u : Task = record {
        session = t.session;
        current = x;
        id = (begin write_deltas q x t.session).1;
        rest = flushing (suc at) next;
      } in
      (
        u,
        ground (arith, h, k, l, same, b),
        refl,
        ground (arith, h, k, l, same, b),
        ground (arith, h, k, l, same, s),
      )

  last :
      (r : Recorder) (t : Task) (at : ℕ) (next : Event)
      → r.tasks ≡ t ∷ []
      → t.rest ≡ flushing at next
      → nth (suc at) r.pending_events ≡ none
      → let p = progress write_deltas true 0 r in
        (u : Task) × (p.tasks ≡ u ∷ [])
        × (u.rest ≡ finishing)
        × (p.pending_events ≡ [])
        × (map line p.store ≡ (map line r.store ++ kept (next ∷ [])))
  unfolding progress go_on
  last r t at next h k l =
      let q : Recorder = record (rooted write_deltas true t r) { pending_events = [] } in
      let same = rooted-rest true t r in
      let b = begin-rest q next t.session in
      let s = lines-begin q next t.session in
      let u : Task = record {
        session = t.session;
        current = next;
        id = (begin write_deltas q next t.session).1;
        rest = finishing;
      } in
      (
        u,
        ground (arith, h, k, l, same, b),
        refl,
        ground (arith, h, k, l, same, b),
        ground (arith, h, k, l, same, s),
      )

  done :
      (r : Recorder) (t : Task)
      → r.tasks ≡ t ∷ []
      → t.rest ≡ finishing
      → let p = progress write_deltas true 0 r in
        (p.tasks ≡ []) × (p.pending_events ≡ r.pending_events) × (p.store ≡ r.store)
  unfolding progress go_on
  done r t h k = ground (arith, h, k, rooted-rest true t r)

  kept-append : (es fs : List Event) → kept (es ++ fs) ≡ (kept es ++ kept fs)
  kept-append [] fs = refl
  kept-append (e ∷ es) fs = ground (arith, kept-append es fs)

  abbrev Settled : Recorder → Recorder → List Event → Type 0
  Settled r p events =
      (p.tasks ≡ [])
      × (p.pending_events ≡ [])
      × (map line p.store ≡ (map line r.store ++ kept events))

  settle-Settled :
      (rest : List Event) (r : Recorder) (t : Task) (at : ℕ) (next : Event)
      → r.tasks ≡ t ∷ []
      → t.rest ≡ flushing at next
      → drop (suc at) r.pending_events ≡ rest
      → Settled r (settle (suc (suc (length rest))) r) (rest ++ next ∷ [])
  unfolding settle
  settle-Settled [] r t at next h k l =
      let (u, tasks, to, empty, lines) =
        last r t at next h k (ground (arith, nth-drop (suc at) r.pending_events, l)) in
      let (gone, same, store) = done (progress write_deltas true 0 r) u tasks to in
      (gone, same ∙ empty, ap (map line) store ∙ lines)
  settle-Settled (x ∷ rest) r t at next h k l =
      let (u, tasks, to, same, lines) =
        more r t at next x h k (ground (arith, nth-drop (suc at) r.pending_events, l)) in
      let p = progress write_deltas true 0 r in
      let later = settle-Settled rest p u (suc at) next tasks to (
        ap (drop (suc (suc at))) same
        ∙ (sym (shift-drop (suc at) r.pending_events) ∙ ap shift l)) in
      (
        later.0,
        later.1,
        later.2
            ∙ (rw lines (
                append_assoc (map line r.store) (kept (x ∷ [])) (kept (rest ++ next ∷ []))
                ∙ ap (λ (es : List Event). map line r.store ++ es)
                    (sym (kept-append (x ∷ []) (rest ++ next ∷ []))))),
      )

  record_for-some :
      (r : Recorder) (e : Event) (es : List Event) (next : Event) (session : Str)
      → r.pending_events ≡ e ∷ es
      → let p = record_for write_deltas r next session in
        (t : Task) × (p.tasks ≡ (r.tasks ++ t ∷ []))
        × (t.rest ≡ flushing 0 next)
        × (p.pending_events ≡ r.pending_events)
        × (map line p.store ≡ (map line r.store ++ kept (e ∷ [])))
  unfolding record_for
  record_for-some r e es next session h =
      let b = begin-rest r e session in
      let s = lines-begin r e session in
      let t : Task = record {
        session = session;
        current = e;
        id = (begin write_deltas r e session).1;
        rest = flushing 0 next;
      } in
      (t, ground (arith, h, b), refl, ground (arith, h, b), ground (arith, h, s))

  record_for-none :
      (r : Recorder) (next : Event) (session : Str)
      → r.pending_events ≡ []
      → let p = record_for write_deltas r next session in
        (t : Task) × (p.tasks ≡ (r.tasks ++ t ∷ []))
        × (t.rest ≡ finishing)
        × (p.pending_events ≡ [])
        × (map line p.store ≡ (map line r.store ++ kept (next ∷ [])))
  unfolding record_for
  record_for-none r next session h =
      let b = begin-rest r next session in
      let s = lines-begin r next session in
      let t : Task = record {
        session = session;
        current = next;
        id = (begin write_deltas r next session).1;
        rest = finishing;
      } in
      (t, ground (arith, h, b), refl, ground (arith, h, b), ground (arith, h, s))

  record_for-Settled :
      (es : List Event) (r : Recorder) (next : Event) (session : Str)
      → r.tasks ≡ []
      → r.pending_events ≡ es
      → Settled r
          (settle (suc (length es)) (record_for write_deltas r next session))
          (es ++ next ∷ [])
  record_for-Settled [] r next session h k =
      let (t, tasks, to, empty, lines) = record_for-none r next session k in
      let p = record_for write_deltas r next session in
      let (gone, same, store) = done p t (tasks ∙ (rw h refl)) to in
      unfold settle in (gone, same ∙ empty, ap (map line) store ∙ lines)
  record_for-Settled (e ∷ es) r next session h k =
      let (t, tasks, to, same, lines) = record_for-some r e es next session k in
      let p = record_for write_deltas r next session in
      let later = settle-Settled es p t 0 next (tasks ∙ (rw h refl)) to (ap (drop 1) (same ∙ k)) in
      (
        later.0,
        later.1,
        later.2
            ∙ (rw lines (
                append_assoc (map line r.store) (kept (e ∷ [])) (kept (es ++ next ∷ []))
                ∙ ap (λ (ds : List Event). map line r.store ++ ds)
                    (sym (kept-append (e ∷ []) (es ++ next ∷ []))))),
      )

  -- When a session has its id and no task is under way, a further line makes the store get, once it
  -- has answered often enough, the lines that were buffered, in the order in which they came, and
  -- then that line, each once, without the deltas unless they are to be written; the buffer is
  -- empty then and no task is left.
  pub record_for-settles :
      (r : Recorder) (next : Event) (session : Str)
      → r.tasks ≡ []
      → Settled r
          (settle (suc (length r.pending_events)) (record_for write_deltas r next session))
          (r.pending_events ++ next ∷ [])
  record_for-settles r next session h = record_for-Settled r.pending_events r next session h refl

  -- A second line that comes before the store has answered the first line's task hands the first
  -- buffered line to the store again, whatever the buffer has behind it.
  pub record_for-repeats :
      (r : Recorder) (e next next₂ : Event) (es : List Event) (session : Str)
      → r.pending_events ≡ e ∷ es
      → is_kept e ≡ true
      → map line
          (record_for write_deltas (record_for write_deltas r next session) next₂ session).store
        ≡ (map line r.store ++ e ∷ e ∷ [])
  record_for-repeats r e next next₂ es session h k =
      let (t, tasks, to, same, lines) = record_for-some r e es next session h in
      let (u, _, _, _, again) =
        record_for-some (record_for write_deltas r next session) e es next₂ session (same ∙ h) in
      again ∙ (rw lines (rw k (append_assoc (map line r.store) (e ∷ []) (e ∷ []))))
