-- ===== src/Sessions/Transcripts.antt =====
-- What is read of a transcript, and what of that is written again.
use code_quest.Common.{
  ℕ, ◌≡◌, refl, ap, Bool, false, not, ◌&&◌, List, [], ◌∷◌, map, Option, none, some, Str,
  if◌then◌else◌, str_eq, ◌==◌, or_default, is_some, filter, Bool-cases, inl, inr, arith,
}
use code_quest.Common.Text.{lit, trim}
use code_quest.Common.Keys.{member}
use code_quest.Common.Json.{Json, Fields, prop, obj, null, bool, nat, num, str, arr}
use code_quest.Sessions.Defs.{
  is_empty, SessionRecord, make_default_session_record, string_of, entry_of, parse_line,
  build_session_record, read_entry, SessionData, first_of, decode_one, decode_lines, decode_session,
  skip_types, is_user_tool_result,
}

module _ (parse : Str → Option Json) where
  abbrev pub is_decodable : Str → Bool
  is_decodable line = is_some (parse_line parse line)

  -- the session record of the first line that has its fields
  abbrev pub record_in : Option Fields → Option SessionRecord
  record_in none = none
  record_in (some fs) = build_session_record fs

  abbrev pub first_record : List Str → Option SessionRecord
  first_record [] = none
  first_record (line ∷ lines) = first_of (record_in (parse_line parse line)) (first_record lines)

  -- An entry is written again unless it belongs to the stream or is a prompt of the user.
  abbrev pub is_kept_type : Option Str → Fields → Bool
  is_kept_type none fs = false
  is_kept_type (some type) fs =
      not (member type skip_types) && not (type == lit "user" && not (is_user_tool_result fs))

  abbrev pub is_kept : Option Fields → Bool
  is_kept none = false
  is_kept (some fs) = is_kept_type (string_of (prop (lit "type") fs)) fs

module _ (parse : Str → Option Json) (date : Str → Option ℕ) (now : ℕ) where
  raws-decode_one :
      (id : Str) (last : ℕ) (line : Str) (o : Option Fields) (rest : ℕ → SessionData)
      (lines : List Str)
      → ((l : ℕ) → map (λ e. e.raw) (rest l).events ≡ lines)
      → map (λ e. e.raw) (decode_one parse date now id last line o rest).events
        ≡ (if is_some o then line ∷ lines else lines)
  unfolding read_entry
  raws-decode_one id last line none rest lines h = h last
  raws-decode_one id last line (some fs) rest lines h = ap (λ ls. line ∷ ls) (h _)

  raws-decode_lines :
      (id : Str) (last : ℕ) (lines : List Str)
      → map (λ e. e.raw) (decode_lines parse date now id last lines).events
        ≡ filter (is_decodable parse) lines
  unfolding decode_lines
  raws-decode_lines id last [] = refl
  raws-decode_lines id last (line ∷ lines) =
      raws-decode_one id last line (parse_line parse line)
        (λ l. decode_lines parse date now id l lines) (filter (is_decodable parse) lines)
        (λ l. raws-decode_lines id l lines)

  record-decode_one :
      (id : Str) (last : ℕ) (line : Str) (o : Option Fields) (rest : ℕ → SessionData)
      (found : Option SessionRecord)
      → ((l : ℕ) → (rest l).record_found ≡ found)
      → (decode_one parse date now id last line o rest).record_found
        ≡ first_of (record_in parse o) found
  record-decode_one id last line none rest found h = h last
  record-decode_one id last line (some fs) rest found h =
      ap (first_of (build_session_record fs)) (h _)

  record-decode_lines :
      (id : Str) (last : ℕ) (lines : List Str)
      → (decode_lines parse date now id last lines).record_found ≡ first_record parse lines
  unfolding decode_lines
  record-decode_lines id last [] = refl
  record-decode_lines id last (line ∷ lines) =
      record-decode_one id last line (parse_line parse line)
        (λ l. decode_lines parse date now id l lines) (first_record parse lines)
        (λ l. record-decode_lines id l lines)

entry_of-some : (o : Option Json) (fs : Fields) → entry_of o ≡ some fs → o ≡ some (obj fs)
entry_of-some none fs h = ground (arith, h)
entry_of-some (some null) fs h = ground (arith, h)
entry_of-some (some (bool b)) fs h = ground (arith, h)
entry_of-some (some (nat n)) fs h = ground (arith, h)
entry_of-some (some (num n)) fs h = ground (arith, h)
entry_of-some (some (str s)) fs h = ground (arith, h)
entry_of-some (some (arr items)) fs h = ground (arith, h)
entry_of-some (some (obj gs)) fs h = ground (arith, h)

pub parse_line-some :
    (parse : Str → Option Json) (line : Str) (fs : Fields)
    → parse_line parse line ≡ some fs
    → parse line ≡ some (obj fs)
unfolding parse_line
parse_line-some parse line fs h = elim (Bool-cases (is_empty (trim line))) [
  | inl e ↦ absurd (ground (arith, h, e))
  | inr e ↦ entry_of-some (parse line) fs (ground (arith, h, e))
]

-- The events of a transcript are its lines that are entries, in order and as they stand, and the
-- session's record is that of the first of them with an id, a directory and a time, or else the
-- default one.
pub decode_session-decodes :
    (parse : Str → Option Json) (date : Str → Option ℕ) (now : ℕ) (today : Str) (lines : List Str)
    (id : Str)
    → (map (λ e. e.raw) (decode_session parse date now today lines id).0
        ≡ filter (is_decodable parse) lines)
      × ((decode_session parse date now today lines id).1
          ≡ or_default (first_record parse lines) (make_default_session_record today id))
unfolding decode_session
decode_session-decodes parse date now today lines id = (
  raws-decode_lines parse date now id 0 lines,
  ap (λ o. or_default o (make_default_session_record today id))
      (record-decode_lines parse date now id 0 lines),
)
