-- ===== src/Transport/Resumable/Replay.antt =====
-- What a peer gets back when it resumes.
use code_quest.Common.{
  ℕ, zero, suc, ◌+◌, ◌-◌, ◌≤◌, ◌<◌, ◌≡◌, refl, ap, ◌∙◌, List, [], ◌∷◌, map, none, some, Str, length,
  drop, length-drop, ltb, if◌then◌else◌, arith, true, false, inl, inr, Bool-cases,
}
use code_quest.Transport.Resumable.{
  ResumableSocket, Emission, ResumeResult, ok, gap, run, Call, find_index, new, emission, resume,
  replay, answer,
}
use code_quest.Transport.Resumable.Numbering.{
  numbered, sends, length-numbered, Tracks, run-Tracks, buffer_size-run, inner-run, history, bound,
}

module _ {ℓ} {A : Type ℓ} where
  find_index-numbered :
      (last k : ℕ) (h : List (Str × A))
      → k ≤ last
      → find_index last (numbered k h) ≡ (if ltb last (k + length h) then some (last - k) else none)
  unfolding find_index
  find_index-numbered last k [] p = ground arith
  find_index-numbered last k (x ∷ h) p = ground (arith, find_index-numbered last (suc k) h)

  drop-numbered :
      (d k n : ℕ) (h : List (Str × A)) → n ≡ k + d → drop d (numbered k h) ≡ numbered n (drop d h)
  drop-numbered zero k n h e = ground arith
  drop-numbered (suc d) k n [] e = refl
  drop-numbered (suc d) k n (x ∷ h) e = drop-numbered d (suc k) n h (omega arith)

  map-emission :
      (inner : Str) (k : ℕ) (h : List (Str × A))
      → map (emission inner) (numbered k h) ≡ sends inner h
  map-emission inner k [] = refl
  map-emission inner k (x ∷ h) =
      ap (◌∷◌ (record { target = inner; event = x.0; args = x.1 })) (map-emission inner (suc k) h)

  drop_past : (n : ℕ) (h : List (Str × A)) → length h ≤ n → drop n h ≡ []
  drop_past zero [] p = refl
  drop_past zero (x ∷ h) p = absurd (omega arith)
  drop_past (suc n) [] p = refl
  drop_past (suc n) (x ∷ h) p = drop_past n h (omega arith)

  drop-drop : (a b n : ℕ) (h : List (Str × A)) → n ≡ b + a → drop a (drop b h) ≡ drop n h
  drop-drop a zero n h e = ground arith
  drop-drop zero (suc b) zero h e = absurd (omega arith)
  drop-drop (suc a) (suc b) zero h e = absurd (omega arith)
  drop-drop zero (suc b) (suc n) [] e = refl
  drop-drop (suc a) (suc b) (suc n) [] e = refl
  drop-drop a (suc b) (suc n) (x ∷ h) e = drop-drop a b n h (omega arith)

  -- what `resume` answers when the events `missed` are at hand
  abbrev pub replayed : Str → List (Str × A) → ResumeResult × List (Emission A)
  replayed inner missed = (ok (length missed), sends inner missed)

  replay-numbered :
      (inner : Str) (last k : ℕ) (h : List (Str × A))
      → k ≤ last
      → replay inner (find_index last (numbered k h)) (numbered k h)
        ≡ replayed inner (drop (last - k) h)
  replay-numbered inner last k h p = elim (Bool-cases (ltb last (k + length h))) [
    | inl inside ↦ rw (
      find_index-numbered last k h p,
      inside,
      drop-numbered (last - k) k last h (omega arith),
      length-numbered,
      map-emission,
    )
    | inr past ↦ rw (find_index-numbered last k h p, past, drop_past (last - k) h (ground arith))
  ]

  answer-numbered :
      (inner : Str) (last k : ℕ) (x : Str × A) (h : List (Str × A))
      → answer inner (numbered k (x ∷ h)) last
        ≡ (if ltb last k then (gap, []) else replayed inner (drop (last - k) (x ∷ h)))
  answer-numbered inner last k x h = elim (Bool-cases (ltb last k)) [
    | inl before ↦ let gone : ltb (last + 1) (suc k) ≡ true = ground arith in rw (before, gone)
    | inr after ↦
        let here : ltb (last + 1) (suc k) ≡ false = ground arith in
        rw (after, here) (replay-numbered inner last k (x ∷ h) (ground arith))
  ]

  -- The specification of `resume` over the history `h` of a socket that keeps `size` events.
  abbrev pub resumed : Str → ℕ → List (Str × A) → ℕ → ResumeResult × List (Emission A)
  resumed inner size h last =
      if ltb (last + size) (length h) then (gap, []) else replayed inner (drop last h)

  answer-window :
      (inner : Str) (size last k : ℕ) (h d : List (Str × A))
      → 0 < size
      → k ≡ length h - size
      → drop k h ≡ d
      → answer inner (numbered k d) last ≡ resumed inner size h last
  answer-window inner size last k h [] p e q =
      let none_left : length h ≡ 0 = omega (arith, ap length q, length-drop k h) in
      rw (drop_past last h (omega arith)) (ground arith)
  answer-window inner size last k h (x ∷ d) p e q = elim (Bool-cases (ltb last k)) [
    | inl before ↦
        let gone : ltb (last + size) (length h) ≡ true = ground arith in
        answer-numbered inner last k x d ∙ rw (before, gone)
    | inr after ↦
        let here : ltb (last + size) (length h) ≡ false = ground arith in
        answer-numbered inner last k x d
        ∙ rw (after, here, ← q, drop-drop (last - k) k last h (ground arith))
  ]

  pub resume-Tracks :
      (rs : ResumableSocket A) (h : List (Str × A)) (last : ℕ)
      → Tracks h rs
      → 0 < rs.buffer_size
      → resume rs last ≡ resumed rs.inner rs.buffer_size h last
  unfolding resume
  resume-Tracks rs h last t p =
      ap (λ b. answer rs.inner b last) t.kept
      ∙ answer-window rs.inner rs.buffer_size last (length h - rs.buffer_size) h _ p refl refl

  pub new-Tracks : (inner : Str) (size : ℕ) → Tracks [] (new {A = A} inner size)
  unfolding new
  new-Tracks inner size = record { counted = refl; kept = ground arith }

-- A socket that keeps `size > 0` events, whatever it has been asked to emit and however often it
-- was bound to another connection, answers a peer that has received the first `last` events: with a
-- gap, and nothing emitted, exactly when more than `size` events came after those; else it emits on
-- the present inner socket all the events after the first `last`, in their order, each once, and
-- answers with their number.
pub resume-run {ℓ} :
    {A : Type ℓ} (inner : Str) (size last : ℕ) (calls : List (Call A))
    → 0 < size
    → resume (run (new inner size) calls) last
      ≡ resumed (bound inner calls) size (history calls) last
unfolding new
resume-run inner size last calls p =
    let kept = buffer_size-run (new inner size) calls in
    resume-Tracks (run (new inner size) calls) (history calls) last
      (run-Tracks [] (new inner size) calls (new-Tracks inner size)) (rw kept p)
    ∙ rw (kept, inner-run (new inner size) calls)
