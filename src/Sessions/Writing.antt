-- ===== src/Sessions/Writing.antt =====
-- What a transcript that is read and written for a session has as entries when it is read again.
use code_quest.Common.{
  ℕ, ◌≡◌, refl, ap, ◌∙◌, Bool, true, false, not, ◌&&◌, List, [], ◌∷◌, ◌++◌, map, Option, none, some,
  Str, if◌then◌else◌, str_eq, str_beq, str_beq_iff, is_some, filter, Bool-cases, inl, inr, arith,
  All,
}
use code_quest.Common.Text.{lit, trim}
use code_quest.Common.Json.{Json, Fields, field, end, prop, obj, str}
use code_quest.Sessions.Defs.{
  is_empty, RawEvent, string_of, entry_of, parse_line, read_entry, next_last, SessionData,
  decode_one, decode_lines, decode_session, out, encode_entry, encode_parsed, encode_event,
  ContextOf, set_field, with_cwd, is_sidechain, line_of, encode_events, encode,
}
use code_quest.Sessions.Transcripts.{parse_line-some, is_kept_type}

prop-set_field :
    (k : Str) (v : Json) (fs : Fields) (j : Str)
    → prop j (set_field k v fs) ≡ (if str_beq k j then some v else prop j fs)
unfolding prop
prop-set_field k v end j = ground (arith, str_beq_iff k j)
prop-set_field k v (field i w fs) j =
    ground (arith, prop-set_field k v fs j, str_beq_iff i k, str_beq_iff i j, str_beq_iff k j)

-- The fields that an entry is written with.
abbrev labelled : ContextOf → Fields → Fields
labelled c fs = with_cwd c.cwd (set_field (lit "sessionId") (str c.session_id) fs)

-- What a property is then: the session's id and its directory, unless it is empty, and the others
-- as they were.
abbrev pub expected : ContextOf → Str → Fields → Option Json
expected c k fs =
    if str_beq (lit "cwd") k && not (is_empty c.cwd)
    then some (str c.cwd)
    else if str_beq (lit "sessionId") k
    then some (str c.session_id)
    else prop k fs

prop-labelled : (c : ContextOf) (fs : Fields) (k : Str) → prop k (labelled c fs) ≡ expected c k fs
prop-labelled c fs k = ground (
  arith,
  prop-set_field (lit "sessionId") (str c.session_id) fs k,
  prop-set_field (lit "cwd") (str c.cwd) (set_field (lit "sessionId") (str c.session_id) fs) k,
)

abbrev pub with_entry : Option Fields → List Fields → List Fields
with_entry none fss = fss
with_entry (some fs) fss = fs ∷ fss

module _ (parse : Str → Option Json) (stringify : Json → Str) where
  -- the entries of a file, line by line
  abbrev pub entries : List Str → List Fields
  entries [] = []
  entries (line ∷ lines) = with_entry (parse_line parse line) (entries lines)

  abbrev pub kept_entries : List Fields → List Fields
  kept_entries fss =
      filter (λ (fs : Fields). is_kept_type parse (string_of (prop (lit "type") fs)) fs) fss

  -- `JSON.stringify` writes the entry as a text that is not blank, and `JSON.parse` gives it back.
  abbrev pub IsWritten : ContextOf → Fields → Type 0
  IsWritten c fs =
      (parse (stringify (obj (labelled c fs))) ≡ some (obj (labelled c fs)))
      × (is_empty (trim (stringify (obj (labelled c fs)))) ≡ false)

  entry_of-checked :
      (fs gs : Fields)
      → entry_of (some (obj gs)) ≡ some fs
      → (is_some (string_of (prop (lit "type") gs)) ≡ true)
        × (is_sidechain (prop (lit "isSidechain") gs) ≡ false)
        × (gs ≡ fs)
  entry_of-checked fs gs h = elim (Bool-cases (is_some (string_of (prop (lit "type") gs)))) [
    | inl a ↦ elim (Bool-cases (is_sidechain (prop (lit "isSidechain") gs))) [
      | inl b ↦ absurd (ground (arith, a, b, h))
      | inr b ↦ (a, b, ground (arith, a, b, h))
    ]
    | inr a ↦ absurd (ground (arith, a, h))
  ]

  parse_line-checked :
      (line : Str) (fs : Fields)
      → parse_line parse line ≡ some fs
      → (is_some (string_of (prop (lit "type") fs)) ≡ true)
        × (is_sidechain (prop (lit "isSidechain") fs) ≡ false)
  parse_line-checked line fs h =
      let given = parse_line-some parse line fs h in
      let checked : entry_of (some (obj fs)) ≡ some fs =
        unfold parse_line in
        elim (Bool-cases (is_empty (trim line))) [
          | inl e ↦ absurd (unfold parse_line in ground (arith, h, e))
          | inr e ↦ unfold parse_line in ground (arith, h, e, given)
        ] in
      let all = entry_of-checked fs fs checked in (all.0, all.1)

  parse_line-labelled :
      (c : ContextOf) (fs : Fields)
      → IsWritten c fs
      → is_some (string_of (prop (lit "type") fs)) ≡ true
      → is_sidechain (prop (lit "isSidechain") fs) ≡ false
      → parse_line parse (stringify (obj (labelled c fs))) ≡ some (labelled c fs)
  unfolding parse_line
  parse_line-labelled c fs (back, text) typed main =
      let same : prop (lit "type") (labelled c fs) ≡ prop (lit "type") fs =
        prop-labelled c fs (lit "type") in
      let other : prop (lit "isSidechain") (labelled c fs) ≡ prop (lit "isSidechain") fs =
        prop-labelled c fs (lit "isSidechain") in
      rw (text, back, same, typed, other, main) refl

  is_empty-trim : (s : Str) → is_empty (trim s) ≡ false → is_empty s ≡ false
  is_empty-trim [] h = absurd (unfold trim in ground (arith, h))
  is_empty-trim (x ∷ s) h = refl

  encode_entry-kept :
      (e : RawEvent) (c : ContextOf) (o : Option Str) (fs : Fields)
      → e.direction ≡ out
      → encode_entry parse stringify e (some c) o fs
        ≡ (if is_kept_type parse o fs then some (stringify (obj (labelled c fs))) else none)
  unfolding encode_entry
  encode_entry-kept e c none fs d = refl
  encode_entry-kept e c (some type) fs d = ground (arith, d)

  encode_event-read_entry :
      (date : Str → Option ℕ) (id : Str) (now last : ℕ) (line : Str) (fs : Fields) (c : ContextOf)
      → parse_line parse line ≡ some fs
      → encode_event parse stringify (read_entry date id now last line fs) (some c) ≡ (
          if is_kept_type parse (string_of (prop (lit "type") fs)) fs
          then some (stringify (obj (labelled c fs)))
          else none)
  unfolding encode_event encode_parsed read_entry
  encode_event-read_entry date id now last line fs c h = rw (parse_line-some parse line fs h) (
      encode_entry-kept (read_entry date id now last line fs) c (string_of (prop (lit "type") fs))
        fs refl)

  -- an entry that is written, or left out, before others
  entries-line_of :
      (k : Str) (c : ContextOf) (fs : Fields) (rest : List Str) (more : List Fields) (b : Bool)
      → is_some (string_of (prop (lit "type") fs)) ≡ true
      → is_sidechain (prop (lit "isSidechain") fs) ≡ false
      → All (IsWritten c) (if b then fs ∷ more else more)
      → (All (IsWritten c) more → map (prop k) (entries rest) ≡ map (expected c k) more)
      → map (prop k) (
          entries (
            line_of parse stringify (if b then some (stringify (obj (labelled c fs))) else none)
            ++ rest))
        ≡ map (expected c k) (if b then fs ∷ more else more)
  entries-line_of k c fs rest more false typed main written h = h written
  entries-line_of k c fs rest more true typed main (w, written) h =
      let s = stringify (obj (labelled c fs)) in
      let first : entries (s ∷ rest) ≡ (labelled c fs ∷ entries rest) =
        ap (λ o. with_entry o (entries rest)) (parse_line-labelled c fs w typed main) in
      rw (is_empty-trim s w.1) (
        ap (map (prop k)) first
        ∙ ap (λ v. v ∷ map (prop k) (entries rest)) (prop-labelled c fs k)
        ∙ ap (λ vs. expected c k fs ∷ vs) (h written))

  module _ (date : Str → Option ℕ) (now : ℕ) (id : Str) (c : ContextOf) (k : Str) where
    entries-decode_one :
        (last : ℕ) (line : Str) (lines : List Str) (o : Option Fields) (rest : ℕ → SessionData)
        → parse_line parse line ≡ o
        → All (IsWritten c) (kept_entries (with_entry o (entries lines)))
        → ((l : ℕ)
            → All (IsWritten c) (kept_entries (entries lines))
            → map (prop k) (entries (encode_events parse stringify c (rest l).events))
              ≡ map (expected c k) (kept_entries (entries lines)))
        → map (prop k) (
            entries (
              encode_events parse stringify c
                (decode_one parse date now id last line o rest).events))
          ≡ map (expected c k) (kept_entries (with_entry o (entries lines)))
    unfolding encode_events
    entries-decode_one last line lines none rest h written more = more last written
    entries-decode_one last line lines (some fs) rest h written more =
        let e = read_entry date id now last line fs in
        let (typed, main) = parse_line-checked line fs h in
        rw (encode_event-read_entry date id now last line fs c h) (
          entries-line_of k c fs
            (encode_events parse stringify c (rest (next_last last e.timestamp)).events)
            (kept_entries (entries lines))
            (is_kept_type parse (string_of (prop (lit "type") fs)) fs) typed main written
            (more (next_last last e.timestamp)))

    entries-decode_lines :
        (last : ℕ) (lines : List Str)
        → All (IsWritten c) (kept_entries (entries lines))
        → map (prop k) (
            entries
              (encode_events parse stringify c (decode_lines parse date now id last lines).events))
          ≡ map (expected c k) (kept_entries (entries lines))
    unfolding decode_lines encode_events
    entries-decode_lines last [] written = refl
    entries-decode_lines last (line ∷ lines) written =
        entries-decode_one last line lines (parse_line parse line)
          (λ l. decode_lines parse date now id l lines) refl written
          (λ l w. entries-decode_lines l lines w)

  -- A transcript that is read, written for a session and read again has its entries as they were,
  -- each with the session's id as `sessionId` and, unless it is empty, the directory of the record
  -- that was read as `cwd`, in order; but the events of the stream, the control messages and the
  -- prompts of the user, that is the entries of type user whose content does not begin with the
  -- result of a tool, are lost. What `JSON.stringify` makes of the entries that are written is not
  -- to be blank, and `JSON.parse` is to give it back.
  pub decode-encode_session :
      (date : Str → Option ℕ) (now : ℕ) (today : Str) (lines : List Str) (id session_id k : Str)
      → let (events, r) = decode_session parse date now today lines id in
        let c : ContextOf = record { session_id = session_id; cwd = r.cwd } in
        All (IsWritten c) (kept_entries (entries lines))
        → map (prop k) (entries (encode parse stringify session_id events r))
          ≡ map (expected c k) (kept_entries (entries lines))
  unfolding encode decode_session
  decode-encode_session date now today lines id session_id k written =
      entries-decode_lines date now id _ k 0 lines written
