-- ===== src/Transport/Envelope.antt =====
-- packages/transport/src/envelope.ts: the messages of the wire. What `JSON.parse` gives is an
-- argument, `none` where it throws; `unknown` data that is undefined is `none`.
use code_quest.Common.{ℕ, Bool, Option, none, some, Str, ◌==◌, if◌then◌else◌, ◌≡◌, refl, str_eq}
use code_quest.Common.Text.{lit}
use code_quest.Common.Json.{Json, bool, nat, str, obj, Fields, end, field, prop}

pub data Envelope : Type 0 where
  event : (seq : ℕ) → Str → Option Json → Envelope
  request : (id : Str) → Str → Option Json → Envelope
  response : (id : Str) → Bool → Option Json → Option Str → Envelope
  ping : Envelope
  pong : Envelope
  resume : (last_seq : ℕ) → Envelope

abbrev as_nat : Option Json → Option ℕ
as_nat (some (nat n)) = some n
as_nat _ = none

abbrev as_str : Option Json → Option Str
as_str (some (str s)) = some s
as_str _ = none

abbrev as_bool : Option Json → Option Bool
as_bool (some (bool b)) = some b
as_bool _ = none

-- `z.string().optional()`
abbrev as_str_optional : Option Json → Option (Option Str)
as_str_optional none = some none
as_str_optional (some (str s)) = some (some s)
as_str_optional (some _) = none

infixl 5 ◌>>=◌
abbrev ◌>>=◌ : {A B : Type 0} → Option A → (A → Option B) → Option B
none >>= f = none
some a >>= f = f a

parse_event : Fields → Option Envelope
unfolding prop
parse_event fs = do
  seq ← as_nat (prop (lit "seq") fs)
  name ← as_str (prop (lit "event") fs)
  some (event seq name (prop (lit "data") fs))

parse_request : Fields → Option Envelope
unfolding prop
parse_request fs = do
  id ← as_str (prop (lit "id") fs)
  name ← as_str (prop (lit "event") fs)
  some (request id name (prop (lit "data") fs))

parse_response : Fields → Option Envelope
unfolding prop
parse_response fs = do
  id ← as_str (prop (lit "id") fs)
  success ← as_bool (prop (lit "ok") fs)
  error ← as_str_optional (prop (lit "error") fs)
  some (response id success (prop (lit "data") fs) error)

parse_resume : Fields → Option Envelope
unfolding prop
parse_resume fs = do last ← as_nat (prop (lit "lastSeq") fs); some (resume last)

-- the discriminated union on `kind`
by_kind : Str → Fields → Option Envelope
unfolding parse_event parse_request parse_response parse_resume
by_kind kind fs =
    if kind == lit "event"
    then parse_event fs
    else if kind == lit "request"
    then parse_request fs
    else if kind == lit "response"
    then parse_response fs
    else if kind == lit "ping"
    then some ping
    else if kind == lit "pong"
    then some pong
    else if kind == lit "resume"
    then parse_resume fs
    else none

unfoldable pub parse_envelope : Option Json → Option Envelope
unfolding by_kind prop
parse_envelope (some (obj fs)) = do kind ← as_str (prop (lit "kind") fs); by_kind kind fs
parse_envelope _ = none

-- a property of an object literal, which `JSON.stringify` leaves out where it is undefined
abbrev optional_field : Str → Option Json → Fields → Fields
optional_field k none fs = fs
optional_field k (some v) fs = field k v fs

abbrev to_str : Option Str → Option Json
to_str none = none
to_str (some s) = some (str s)

-- The object literals that the senders hand to `JSON.stringify`.
unfoldable pub to_json : Envelope → Json
to_json (event seq name payload) = obj (
    field (lit "kind") (str (lit "event")) (
      field (lit "seq") (nat seq)
        (field (lit "event") (str name) (optional_field (lit "data") payload end))))
to_json (request id name payload) = obj (
    field (lit "kind") (str (lit "request")) (
      field (lit "id") (str id)
        (field (lit "event") (str name) (optional_field (lit "data") payload end))))
to_json (response id success payload error) = obj (
    field (lit "kind") (str (lit "response")) (
      field (lit "id") (str id) (
        field (lit "ok") (bool success)
          (optional_field (lit "data") payload (optional_field (lit "error") (to_str error) end)))))
to_json ping = obj (field (lit "kind") (str (lit "ping")) end)
to_json pong = obj (field (lit "kind") (str (lit "pong")) end)
to_json (resume last) =
    obj (field (lit "kind") (str (lit "resume")) (field (lit "lastSeq") (nat last) end))

-- Every envelope that a sender writes is read back as it was.
pub parse_envelope-to_json : (e : Envelope) → parse_envelope (some (to_json e)) ≡ some e
unfolding parse_envelope to_json
parse_envelope-to_json (event seq name none) = refl
parse_envelope-to_json (event seq name (some v)) = refl
parse_envelope-to_json (request id name none) = refl
parse_envelope-to_json (request id name (some v)) = refl
parse_envelope-to_json (response id success none none) = refl
parse_envelope-to_json (response id success none (some e)) = refl
parse_envelope-to_json (response id success (some v) none) = refl
parse_envelope-to_json (response id success (some v) (some e)) = refl
parse_envelope-to_json ping = refl
parse_envelope-to_json pong = refl
parse_envelope-to_json (resume last) = refl
