-- ===== src/Transport/Resumable.antt =====
-- packages/transport/src/resumable-socket.ts: a socket that numbers and buffers what it emits. A
-- call returns the new state and what it emits on the inner socket, which is known by its id.
pub mod Numbering
pub mod Replay
use code_quest.Common.{
  true, false, ℕ, zero, suc, ◌+◌, List, [], ◌∷◌, ◌++◌, map, Option, none, some, Bool, Str, length,
  drop, shift, head?, ltb, if◌then◌else◌,
}

module _ {ℓ} (A : Type ℓ) where
  pub record BufferedEvent : Type ℓ where
    pub seq : ℕ
    pub event : Str
    pub args : A

  pub record ResumableSocket : Type ℓ where
    pub inner : Str
    pub buffer_size : ℕ
    pub buffer : List BufferedEvent
    pub next_seq : ℕ

  -- one call of `emit` on an inner socket
  pub record Emission : Type ℓ where
    pub target : Str
    pub event : Str
    pub args : A

  -- a call from outside that changes the socket
  pub data Call : Type ℓ where
    emits : Str → A → Call
    rebinds : Str → Call

pub data ResumeResult : Type 0 where
  ok : (replayed : ℕ) → ResumeResult
  gap : ResumeResult

module _ {ℓ} {A : Type ℓ} where
  unfoldable pub new : Str → ℕ → ResumableSocket A
  new inner size = record { inner = inner; buffer_size = size; buffer = []; next_seq = 0 }

  abbrev pub push : ResumableSocket A → Str → A → List (BufferedEvent A)
  push rs event args =
      rs.buffer ++ record { seq = rs.next_seq + 1; event = event; args = args } ∷ []

  unfoldable pub emit : ResumableSocket A → Str → A → ResumableSocket A × List (Emission A)
  emit rs event args = (
    record rs {
      next_seq = rs.next_seq + 1;
      buffer =
          if ltb rs.buffer_size (length (push rs event args))
          then shift (push rs event args)
          else push rs event args;
    },
    record { target = rs.inner; event = event; args = args } ∷ [],
  )

  unfoldable pub rebind : ResumableSocket A → Str → ResumableSocket A
  rebind rs inner = record rs { inner = inner }

  -- `findIndex((b) => b.seq > lastSeq)`
  unfoldable pub find_index : ℕ → List (BufferedEvent A) → Option ℕ
  find_index last [] = none
  find_index last (b ∷ bs) = elim (ltb last b.seq) [
    | true ↦ some 0
    | false ↦ elim (find_index last bs) [ none ↦ none | some i ↦ some (suc i) ]
  ]

  abbrev pub emission : Str → BufferedEvent A → Emission A
  emission inner b = record { target = inner; event = b.event; args = b.args }

  abbrev pub replay : Str → Option ℕ → List (BufferedEvent A) → ResumeResult × List (Emission A)
  replay inner none buffer = (ok 0, [])
  replay inner (some start) buffer =
      (ok (length (drop start buffer)), map (emission inner) (drop start buffer))

  -- The test `lastSeq < oldest - 1` is over the integers.
  abbrev pub answer : Str → List (BufferedEvent A) → ℕ → ResumeResult × List (Emission A)
  answer inner [] last = (ok 0, [])
  answer inner (b ∷ bs) last =
      if ltb (last + 1) b.seq then (gap, []) else replay inner (find_index last (b ∷ bs)) (b ∷ bs)

  unfoldable pub resume : ResumableSocket A → ℕ → ResumeResult × List (Emission A)
  unfolding find_index
  resume rs last = answer rs.inner rs.buffer last

  unfoldable pub buffer_seqs : ResumableSocket A → List ℕ
  buffer_seqs rs = map (λ b. b.seq) rs.buffer

  unfoldable pub run : ResumableSocket A → List (Call A) → ResumableSocket A
  unfolding emit rebind
  run rs [] = rs
  run rs (emits event args ∷ calls) = run (emit rs event args).0 calls
  run rs (rebinds inner ∷ calls) = run (rebind rs inner) calls
