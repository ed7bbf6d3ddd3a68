-- ===== src/Sessions/Tests.antt =====
-- Transcripts at concrete inputs.
use code_quest.Common.{
  ◌≡◌, refl, List, [], ◌∷◌, Option, none, some, Str, map, str_eq, ◌==◌, if◌then◌else◌,
}
use code_quest.Common.Text.{lit, trim}
use code_quest.Common.Keys.{member}
use code_quest.Common.Json.{Json, Fields, str, obj, field, end, prop}
use code_quest.Sessions.Defs.{
  RawEvent, SessionRecord, decode_session, decode_lines, parse_line, build_session_record, encode,
  is_user_tool_result,
}
use code_quest.Sessions.Writing.{entries, kept_entries, expected, decode-encode_session}

abbrev turn : (session : Str) → Fields
turn session = field (lit "type") (str (lit "assistant")) (
    field (lit "sessionId") (str session)
      (field (lit "cwd") (str (lit "/w")) (field (lit "timestamp") (str (lit "t")) end)))

-- Three lines: `u` is a prompt of the user, `a` a turn of the assistant with a session's fields, and
-- `b` that turn in the session `n`.
abbrev parse : Str → Option Json
parse line =
    if line == lit "u"
    then some (obj (field (lit "type") (str (lit "user")) end))
    else if line == lit "a"
    then some (obj (turn (lit "s")))
    else if line == lit "b"
    then some (obj (turn (lit "n")))
    else none

abbrev stringify : Json → Str
stringify j = lit "b"

abbrev lines : List Str
lines = lit "u" ∷ lit "?" ∷ lit "a" ∷ []

abbrev read : List RawEvent × SessionRecord
read = decode_session parse (λ _. some 5) 9 (lit "now") lines (lit "id")

decode-encode_session_example :
    map
      (prop (lit "cwd"))
      (entries parse stringify (encode parse stringify (lit "n") read.0 read.1))
    ≡ map
        (expected (record { session_id = lit "n"; cwd = read.1.cwd }) (lit "cwd"))
        (kept_entries parse stringify (entries parse stringify lines))
unfolding decode_session decode_lines parse_line build_session_record trim prop member
    is_user_tool_result
decode-encode_session_example =
    decode-encode_session parse stringify (λ _. some 5) 9 (lit "now") lines (lit "id") (lit "n")
      (lit "cwd") ((refl, refl), tt)
