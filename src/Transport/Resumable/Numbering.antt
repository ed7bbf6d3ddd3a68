-- ===== src/Transport/Resumable/Numbering.antt =====
-- The buffer of a resumable socket as the end of the numbered history.
use code_quest.Common.{
  append-nil, append_assoc, ℕ, suc, ◌+◌, ◌-◌, ◌≡◌, refl, ap, ◌∙◌, List, [], ◌∷◌, ◌++◌, Str, length,
  length-append, drop, length-drop, drop-snoc, shift-drop, shift, ltb, if◌then◌else◌, arith, inl,
  inr, Bool-cases,
}
use code_quest.Transport.Resumable.{
  BufferedEvent, ResumableSocket, Emission, push, emit, rebind, run, Call, emits, rebinds,
}

module _ {ℓ} {A : Type ℓ} where
  -- The events of a history, numbered from `k + 1`.
  abbrev pub numbered : ℕ → List (Str × A) → List (BufferedEvent A)
  numbered k [] = []
  numbered k ((event, args) ∷ h) =
      record { seq = suc k; event = event; args = args } ∷ numbered (suc k) h

  abbrev pub sends : Str → List (Str × A) → List (Emission A)
  sends inner [] = []
  sends inner ((event, args) ∷ h) =
      record { target = inner; event = event; args = args } ∷ sends inner h

  pub length-numbered : (k : ℕ) (h : List (Str × A)) → length (numbered k h) ≡ length h
  length-numbered k [] = refl
  length-numbered k (x ∷ h) = ap suc (length-numbered (suc k) h)

  numbered-snoc :
      (k : ℕ) (h : List (Str × A)) (event : Str) (args : A) (n : ℕ)
      → n ≡ k + length h + 1
      → (numbered k h ++ record { seq = n; event = event; args = args } ∷ [])
        ≡ numbered k (h ++ (event, args) ∷ [])
  numbered-snoc k [] event args n e = ground arith
  numbered-snoc k (x ∷ h) event args n e =
      ap (◌∷◌ (record { seq = suc k; event = x.0; args = x.1 }))
        (numbered-snoc (suc k) h event args n (omega arith))

  shift-numbered : (k : ℕ) (h : List (Str × A)) → shift (numbered k h) ≡ numbered (suc k) (shift h)
  shift-numbered k [] = refl
  shift-numbered k (x ∷ h) = refl

  -- The socket has emitted the history `h`, and keeps the last `buffer_size` events of it.
  pub record Tracks (h : List (Str × A)) (rs : ResumableSocket A) : Type ℓ where
    pub counted : rs.next_seq ≡ length h
    pub kept : rs.buffer ≡ numbered (length h - rs.buffer_size) (drop (length h - rs.buffer_size) h)

  pushed :
      (h : List (Str × A)) (rs : ResumableSocket A) (event : Str) (args : A)
      → Tracks h rs
      → push rs event args
        ≡ numbered
            (length h - rs.buffer_size)
            (drop (length h - rs.buffer_size) (h ++ (event, args) ∷ []))
  pushed h rs event args t =
      rw (t.kept, drop-snoc (length h - rs.buffer_size) h (event, args) (omega arith))
        (numbered-snoc _ (drop (length h - rs.buffer_size) h) event args (rs.next_seq + 1)
          (omega (arith, t.counted, length-drop (length h - rs.buffer_size) h)))

  shift_pushed :
      (h : List (Str × A)) (rs : ResumableSocket A) (event : Str) (args : A)
      → Tracks h rs
      → shift (push rs event args)
        ≡ numbered
            (suc (length h - rs.buffer_size))
            (drop (suc (length h - rs.buffer_size)) (h ++ (event, args) ∷ []))
  shift_pushed h rs event args t =
      let k = length h - rs.buffer_size in
      let h' = h ++ (event, args) ∷ [] in
      ap shift (pushed h rs event args t)
      ∙ shift-numbered k (drop k h')
      ∙ ap (numbered (suc k)) (shift-drop k h')

  length-pushed :
      (h : List (Str × A)) (rs : ResumableSocket A) (event : Str) (args : A)
      → Tracks h rs
      → length (push rs event args) ≡ length h + 1 - (length h - rs.buffer_size)
  length-pushed h rs event args t =
      let k = length h - rs.buffer_size in
      let h' = h ++ (event, args) ∷ [] in
      omega (
        arith,
        ap length (pushed h rs event args t),
        length-numbered k (drop k h'),
        length-drop k h',
        length-append h ((event, args) ∷ []),
      )

  window :
      (h : List (Str × A)) (rs : ResumableSocket A) (event : Str) (args : A) (n : ℕ)
      → Tracks h rs
      → n ≡ length h + 1 - rs.buffer_size
      → (if ltb rs.buffer_size (length (push rs event args))
          then shift (push rs event args)
          else push rs event args)
        ≡ numbered n (drop n (h ++ (event, args) ∷ []))
  window h rs event args n t e =
      elim (Bool-cases (ltb rs.buffer_size (length (push rs event args)))) [
        | inl full ↦
            let same : n ≡ suc (length h - rs.buffer_size) =
              ground (arith, length-pushed h rs event args t) in
            rw (full, same) (shift_pushed h rs event args t)
        | inr room ↦
            let same : n ≡ length h - rs.buffer_size =
              ground (arith, length-pushed h rs event args t) in
            rw (room, same) (pushed h rs event args t)
      ]

  emit-Tracks :
      (h : List (Str × A)) (rs : ResumableSocket A) (event : Str) (args : A)
      → Tracks h rs
      → Tracks (h ++ (event, args) ∷ []) (emit rs event args).0
  unfolding emit
  emit-Tracks h rs event args t = record {
    counted = omega (arith, length-append h ((event, args) ∷ []), t.counted);
    kept = window h rs event args _ t (omega (arith, length-append h ((event, args) ∷ [])));
  }

  pub rebind-Tracks :
      (h : List (Str × A)) (rs : ResumableSocket A) (inner : Str)
      → Tracks h rs
      → Tracks h (rebind rs inner)
  unfolding rebind
  rebind-Tracks h rs inner t = record { counted = t.counted; kept = t.kept }

  -- the events that the calls emit
  abbrev pub history : List (Call A) → List (Str × A)
  history [] = []
  history (emits event args ∷ calls) = (event, args) ∷ history calls
  history (rebinds _ ∷ calls) = history calls

  -- the inner socket after the calls
  abbrev pub bound : Str → List (Call A) → Str
  bound inner [] = inner
  bound inner (emits _ _ ∷ calls) = bound inner calls
  bound inner (rebinds inner' ∷ calls) = bound inner' calls

  pub run-Tracks :
      (h : List (Str × A)) (rs : ResumableSocket A) (calls : List (Call A))
      → Tracks h rs
      → Tracks (h ++ history calls) (run rs calls)
  unfolding run
  run-Tracks h rs [] t = rw (append-nil h) t
  run-Tracks h rs (emits event args ∷ calls) t =
      rw (append_assoc h ((event, args) ∷ []) (history calls)) at (
        run-Tracks (h ++ (event, args) ∷ []) (emit rs event args).0 calls
          (emit-Tracks h rs event args t))
  run-Tracks h rs (rebinds inner ∷ calls) t =
      run-Tracks h (rebind rs inner) calls (rebind-Tracks h rs inner t)

  pub buffer_size-run :
      (rs : ResumableSocket A) (calls : List (Call A)) → (run rs calls).buffer_size ≡ rs.buffer_size
  unfolding run
  buffer_size-run rs [] = refl
  buffer_size-run rs (emits event args ∷ calls) = buffer_size-run (emit rs event args).0 calls
  buffer_size-run rs (rebinds inner ∷ calls) = buffer_size-run (rebind rs inner) calls

  pub inner-run :
      (rs : ResumableSocket A) (calls : List (Call A)) → (run rs calls).inner ≡ bound rs.inner calls
  unfolding run
  inner-run rs [] = refl
  inner-run rs (emits event args ∷ calls) = inner-run (emit rs event args).0 calls
  inner-run rs (rebinds inner ∷ calls) = inner-run (rebind rs inner) calls
