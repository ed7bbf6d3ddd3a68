-- ===== src/Timeline/Runs.antt =====
-- The runs of a conversation.
use code_quest.Common.{
  ◌≡◌, refl, ◌∙◌, sym, Bool, true, false, ◌&&◌, List, [], ◌∷◌, ◌++◌, append_assoc, append-nil,
  arith, Bool-cases, inl, inr, All, All-append, ◌<◌, length,
}
use code_quest.Timeline.Defs.{
  Message, TimelineRun, grouped, solo, flush_pending, folds, split_from, split_timeline_runs,
}

abbrev pub messages_of : TimelineRun → List Message
messages_of (grouped ms) = ms
messages_of (solo m) = m ∷ []

abbrev pub flatten : List TimelineRun → List Message
flatten [] = []
flatten (r ∷ rs) = messages_of r ++ flatten rs

-- whether the messages of the run fold
abbrev pub is_folding : TimelineRun → Bool
is_folding (grouped ms) = true
is_folding (solo m) = folds m

abbrev pub Folding : List Message → Type 0
Folding = All (λ (m : Message). folds m ≡ true)

abbrev pub IsRun : TimelineRun → Type 0
IsRun (grouped ms) = Folding ms × (1 < length ms)
IsRun (solo m) = Unit

-- Each group has at least two messages, all of which fold, and no two runs that fold are neighbours;
-- `before` tells whether the run before folds.
abbrev pub IsSplit : (before : Bool) → List TimelineRun → Type 0
IsSplit before [] = Unit
IsSplit before (r ∷ rs) = IsRun r × ((before && is_folding r) ≡ false) × IsSplit (is_folding r) rs

flatten-append : (rs qs : List TimelineRun) → flatten (rs ++ qs) ≡ (flatten rs ++ flatten qs)
flatten-append [] qs = refl
flatten-append (r ∷ rs) qs = rw (flatten-append rs qs, append_assoc (messages_of r)) refl

flatten-flush : (pending : List Message) → flatten (flush_pending pending) ≡ pending
unfolding flush_pending
flatten-flush [] = refl
flatten-flush (m ∷ []) = refl
flatten-flush (m ∷ n ∷ rest) = append-nil (m ∷ n ∷ rest)

flatten-split_from :
    (pending messages : List Message)
    → flatten (split_from pending messages) ≡ (pending ++ messages)
unfolding split_from
flatten-split_from pending [] = flatten-flush pending ∙ sym (append-nil pending)
flatten-split_from pending (m ∷ messages) = elim (Bool-cases (folds m)) [
  | inl h ↦
      rw h
        (flatten-split_from (pending ++ m ∷ []) messages ∙ append_assoc pending (m ∷ []) messages)
  | inr h ↦ rw h (
      flatten-append (flush_pending pending) (solo m ∷ split_from [] messages)
      ∙ (rw (flatten-flush pending, flatten-split_from [] messages) refl))
]

flush-IsSplit :
    (pending : List Message) (m : Message) (rest : List TimelineRun)
    → Folding pending
    → folds m ≡ false
    → IsSplit false rest
    → IsSplit false (flush_pending pending ++ solo m ∷ rest)
unfolding flush_pending
flush-IsSplit [] m rest h k s = (tt, refl, rw k s)
flush-IsSplit (n ∷ []) m rest h k s = (tt, refl, (tt, ground (arith, k), rw k s))
flush-IsSplit (n ∷ p ∷ pending) m rest h k s = ((h, omega arith), refl, (tt, k, rw k s))

flush_pending-IsSplit :
    (pending : List Message) → Folding pending → IsSplit false (flush_pending pending)
unfolding flush_pending
flush_pending-IsSplit [] h = tt
flush_pending-IsSplit (n ∷ []) h = (tt, refl, tt)
flush_pending-IsSplit (n ∷ p ∷ pending) h = ((h, omega arith), refl, tt)

split_from-IsSplit :
    (pending messages : List Message)
    → Folding pending
    → IsSplit false (split_from pending messages)
unfolding split_from
split_from-IsSplit pending [] h = flush_pending-IsSplit pending h
split_from-IsSplit pending (m ∷ messages) h = elim (Bool-cases (folds m)) [
  | inl k ↦ rw k (
      split_from-IsSplit (pending ++ m ∷ []) messages
        (All-append (λ (n : Message). folds n ≡ true) pending (m ∷ []) h (k, tt)))
  | inr k ↦
      rw k
        (flush-IsSplit pending m (split_from [] messages) h k (split_from-IsSplit [] messages tt))
]

-- The runs have the messages of the conversation in their order, each once; every group has at
-- least two messages, all of which are tool uses or permissions; a message that stands alone is
-- not a neighbour of a run of such messages if it is one itself, so that the groups are as long
-- as can be.
pub split_timeline_runs-splits :
    (messages : List Message)
    → (flatten (split_timeline_runs messages) ≡ messages)
      × IsSplit false (split_timeline_runs messages)
unfolding split_timeline_runs
split_timeline_runs-splits messages =
    (flatten-split_from [] messages, split_from-IsSplit [] messages tt)
