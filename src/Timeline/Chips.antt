-- ===== src/Timeline/Chips.antt =====
-- What the chips of a run add up to.
use code_quest.Common.{
  ℕ, zero, suc, ◌+◌, ◌≡◌, refl, Bool, true, false, not, ◌&&◌, ◌||◌, List, [], ◌∷◌, ◌++◌, Option,
  none, some, Str, str_eq, if◌then◌else◌, ◌==◌, or_default, arith, Bool-cases, Option-cases, inl,
  inr, length, is_some,
}
use code_quest.Common.Text.{lit}
use code_quest.Common.Map.{get, get-set}
use code_quest.Timeline.Defs.{
  Message, ToolUse, GroupChip, Chips, bump, push, add_generic, add_tool, add_if_tool, add_chips,
  build_group_chips, get_tool_use_meta, failed, is_empty, skill_chip_label, str_from_input,
}

-- how many tool uses a chip stands for
abbrev pub weight : GroupChip → ℕ
weight c = or_default c.count 1

abbrev pub total : List GroupChip → ℕ
total [] = 0
total (c ∷ cs) = weight c + total cs

abbrev pub has_error : List GroupChip → Bool
has_error [] = false
has_error (c ∷ cs) = c.is_error || has_error cs

-- whether the message is a tool use with a name, and whether that use failed
abbrev pub is_named : Option ToolUse → Bool
is_named none = false
is_named (some t) = not (is_empty t.content)

abbrev pub has_failed : Option ToolUse → Bool
has_failed none = false
has_failed (some t) = not (is_empty t.content) && failed t.result

abbrev pub uses : List Message → ℕ
uses [] = 0
uses (m ∷ ms) = (if is_named (get_tool_use_meta m) then 1 else 0) + uses ms

abbrev pub failures : List Message → Bool
failures [] = false
failures (m ∷ ms) = has_failed (get_tool_use_meta m) || failures ms

total-append : (cs ds : List GroupChip) → total (cs ++ ds) ≡ total cs + total ds
total-append [] ds = omega arith
total-append (c ∷ cs) ds = omega (arith, total-append cs ds)

has_error-append : (cs ds : List GroupChip) → has_error (cs ++ ds) ≡ (has_error cs || has_error ds)
has_error-append [] ds = refl
has_error-append (c ∷ cs) ds = ground (arith, has_error-append cs ds)

-- the chip at a place counts its uses
abbrev counts : ℕ → List GroupChip → Bool
counts n [] = false
counts zero (c ∷ cs) = is_some c.count
counts (suc n) (c ∷ cs) = counts n cs

counts-length : (n : ℕ) (cs ds : List GroupChip) → counts n cs ≡ true → counts n (cs ++ ds) ≡ true
counts-length n [] ds h = absurd (ground (arith, h))
counts-length zero (c ∷ cs) ds h = h
counts-length (suc n) (c ∷ cs) ds h = counts-length n cs ds h

counts-last :
    (cs : List GroupChip) (c : GroupChip) → counts (length cs) (cs ++ c ∷ []) ≡ is_some c.count
counts-last [] c = refl
counts-last (d ∷ cs) c = counts-last cs c

bump-facts :
    (n k : ℕ) (e : Bool) (cs : List GroupChip)
    → counts n cs ≡ true
    → (total (bump n e cs) ≡ total cs + 1)
      × (has_error (bump n e cs) ≡ (e || has_error cs))
      × (counts k cs ≡ true → counts k (bump n e cs) ≡ true)
unfolding bump
bump-facts n k e [] h = absurd (ground (arith, h))
bump-facts zero zero e (c ∷ cs) h = ground (arith, h)
bump-facts zero (suc k) e (c ∷ cs) h = ground (arith, h)
bump-facts (suc n) zero e (c ∷ cs) h = ground (arith, h, bump-facts n zero e cs h)
bump-facts (suc n) (suc k) e (c ∷ cs) h = ground (arith, h, bump-facts n k e cs h)

-- Each reference of the map is to a chip that counts.
IsReferred : Chips → Type 0
IsReferred s = (name : Str) (n : ℕ) → get name s.generic ≡ some n → counts n s.chips ≡ true

-- A tool use adds one to the total, passes on its failure and keeps the references.
record Adds (t : ToolUse) (s u : Chips) : Type 0 where
  more : total u.chips ≡ total s.chips + (if is_empty t.content then 0 else 1)
  fails : has_error u.chips ≡ ((not (is_empty t.content) && failed t.result) || has_error s.chips)
  refers : IsReferred u

push-Adds :
    (t : ToolUse) (s : Chips) (label : Str)
    → is_empty t.content ≡ false
    → IsReferred s
    → Adds t s (push (record { label = label; count = none; is_error = failed t.result }) s)
unfolding IsReferred
push-Adds t s label named r =
    let c : GroupChip = record { label = label; count = none; is_error = failed t.result } in
    record {
      more = ground (arith, named, total-append s.chips (c ∷ []));
      fails = ground (arith, named, has_error-append s.chips (c ∷ []));
      refers = λ name n h. counts-length n s.chips (c ∷ []) (r name n h);
    }

add_generic-Adds :
    (t : ToolUse) (s : Chips)
    → is_empty t.content ≡ false
    → IsReferred s
    → Adds t s (add_generic t.content (failed t.result) s)
unfolding add_generic IsReferred
add_generic-Adds t s named r = elim (Option-cases (get t.content s.generic)) [
  | inl h ↦
      let c : GroupChip = record {
        label = t.content;
        count = some 1;
        is_error = failed t.result;
      } in
      record {
        more = ground (arith, h, named, total-append s.chips (c ∷ []));
        fails = ground (arith, h, named, has_error-append s.chips (c ∷ []));
        refers = λ name n k. ground (
          arith,
          h,
          k,
          r name n,
          get-set t.content name (length s.chips) s.generic,
          counts-length n s.chips (c ∷ []),
          counts-last s.chips c,
        );
      }
  | inr (i, h) ↦
      let b = bump-facts i i (failed t.result) s.chips (r t.content i h) in
      record {
        more = ground (arith, h, named, b.0);
        fails = ground (arith, h, named, b.1);
        refers = λ name n k.
            ground
              (arith, h, k, r name n, bump-facts i n (failed t.result) s.chips (r t.content i h));
      }
]

named-Adds :
    (t : ToolUse) (s : Chips)
    → is_empty t.content ≡ false
    → IsReferred s
    → Adds t s (
        if t.content == lit "Skill"
        then push
            (record {
              label = skill_chip_label (str_from_input t.input (lit "skill") (lit "skill"));
              count = none;
              is_error = failed t.result;
            })
            s
        else if t.content == lit "Task" || t.content == lit "Agent"
        then push
            (record {
              label = str_from_input t.input (lit "description") (lit "Agent");
              count = none;
              is_error = failed t.result;
            })
            s
        else add_generic t.content (failed t.result) s)
named-Adds t s h r = elim (Bool-cases (t.content == lit "Skill")) [
  | inl k ↦
      rw k
        (push-Adds t s (skill_chip_label (str_from_input t.input (lit "skill") (lit "skill"))) h r)
  | inr k ↦ elim (Bool-cases (t.content == lit "Task" || t.content == lit "Agent")) [
    | inl l ↦
        rw (k, l) (push-Adds t s (str_from_input t.input (lit "description") (lit "Agent")) h r)
    | inr l ↦ rw (k, l) (add_generic-Adds t s h r)
  ]
]

add_tool-Adds : (t : ToolUse) (s : Chips) → IsReferred s → Adds t s (add_tool t s)
unfolding add_tool
add_tool-Adds t s r = elim (Bool-cases (is_empty t.content)) [
  | inl h ↦ rw h (record { more = ground (arith, h); fails = ground (arith, h); refers = r })
  | inr h ↦ rw h (named-Adds t s h r)
]

add_chips-total :
    (ms : List Message) (s : Chips)
    → IsReferred s
    → (total (add_chips ms s).chips ≡ total s.chips + uses ms)
      × (has_error (add_chips ms s).chips ≡ (failures ms || has_error s.chips))
unfolding add_chips add_if_tool
add_chips-total [] s r = (omega arith, refl)
add_chips-total (m ∷ ms) s r = elim (Option-cases (get_tool_use_meta m)) [
  | inl h ↦ ground (arith, h, add_chips-total ms s r)
  | inr (t, h) ↦
      let a = add_tool-Adds t s r in
      ground (arith, h, a.more, a.fails, add_chips-total ms (add_tool t s) a.refers)
]

new-IsReferred : IsReferred (record { chips = []; generic = [] })
unfolding IsReferred get
new-IsReferred name n h = absurd (ground (arith, h))

-- The chips of a run stand for as many tool uses as the run has messages with a named tool, a chip
-- without a count for one; and some chip shows an error exactly if some such message has a failed
-- result.
pub build_group_chips-total :
    (ms : List Message)
    → (total (build_group_chips ms) ≡ uses ms) × (has_error (build_group_chips ms) ≡ failures ms)
unfolding build_group_chips
build_group_chips-total ms =
    let a = add_chips-total ms (record { chips = []; generic = [] }) new-IsReferred in
    ground (arith, a.0, a.1)
