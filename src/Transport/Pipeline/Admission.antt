-- ===== src/Transport/Pipeline/Admission.antt =====
-- Which guards let a request pass: auth.ts, bearer-auth.ts and bearer-token.ts.
use code_quest.Common.{
  ℕ, ◌<◌, ◌≡◌, refl, ap, subst, sym, ◌↔◌, Bool, true, false, ◌&&◌, List, [], ◌∷◌, ◌∙◌, Option, none,
  some, Str, str_eq, str_beq, str_beq_iff, nat_eq, arith, All, All-append, length,
}
use code_quest.Common.Text.{lit}
use code_quest.Transport.Pipeline.Defs.{
  Request, Verdict, accepts, refuses, throws, Context, Middleware, auth, bearer_auth, bearer_token,
  heartbeat, resumable, Entry, next, Comparison, equal, different, length_error, safe_compare,
  compared, bearer_entry, auth_entry, auth_verdict, enter, expected, authorization_of,
}

-- A string without surrogates: what UTF-8 represents faithfully.
abbrev pub IsPlain : Str → Type 0
IsPlain s = All (λ c. c < 55_296) s

abbrev pub HasPlainToken : Middleware → Type 0
HasPlainToken (bearer_auth token) = IsPlain token
HasPlainToken _ = Unit

abbrev pub is_accepting : Verdict → Bool
is_accepting (accepts _) = true
is_accepting _ = false

abbrev pub is_header : Str → Option Str → Bool
is_header token none = false
is_header token (some header) = str_beq header (expected token)

-- whether a request passes a middleware
unfoldable pub admits : Request → Middleware → Bool
admits r (auth authenticate) = is_accepting (authenticate r)
admits r (bearer_auth token) = is_header token r.authorization
admits r _ = true

unfoldable pub admits_all : Request → List Middleware → Bool
unfolding admits
admits_all r [] = true
admits_all r (m ∷ ms) = admits r m && admits_all r ms

-- No two strings without surrogates have the same UTF-8.
abbrev pub IsFaithful : (Str → List ℕ) → Type 0
IsFaithful utf8 = (a b : Str) → IsPlain a → IsPlain b → utf8 a ≡ utf8 b → a ≡ b

abbrev pub HasPlainHeader : Option Str → Type 0
HasPlainHeader none = Unit
HasPlainHeader (some header) = IsPlain header

equal-is_equal :
    (utf8 : Str → List ℕ) (a b : Str)
    → (safe_compare utf8 a b ≡ equal)
    → str_beq (utf8 a) (utf8 b) ≡ true
unfolding safe_compare
equal-is_equal utf8 a b h = ground (arith, h)

-- The comparison of two strings without surrogates finds them equal exactly if they are.
safe_compare_iff :
    (utf8 : Str → List ℕ) (a b : Str)
    → IsFaithful utf8
    → IsPlain a
    → IsPlain b
    → (safe_compare utf8 a b ≡ equal) ↔ (a ≡ b)
unfolding safe_compare
safe_compare_iff utf8 a b faithful p q = (
  λ h. faithful a b p q ((str_beq_iff (utf8 a) (utf8 b)).0 (equal-is_equal utf8 a b h)),
  λ h.
      ground
        (arith, ap length h, ap utf8 h, ap (λ s. length (utf8 s)) h, str_beq_iff (utf8 a) (utf8 b)),
)

expected-IsPlain : (token : Str) → IsPlain token → IsPlain (expected token)
expected-IsPlain token p = All-append (λ c. c < 55_296) (lit "Bearer ") token ground arith p

abbrev pub is_next : Entry → Bool
is_next (next _) = true
is_next _ = false

abbrev pub request_of : Entry → Option Request
request_of (next c) = c.req
request_of _ = none

compared-equal :
    (utf8 : Str → List ℕ) (x : Comparison) (c : Context)
    → (is_next (compared utf8 x c) ≡ true) ↔ (x ≡ equal)
compared-equal utf8 equal c = (λ _. refl, λ _. refl)
compared-equal utf8 different c = ground arith
compared-equal utf8 length_error c = ground arith

compared-request :
    (utf8 : Str → List ℕ) (x : Comparison) (c : Context)
    → is_next (compared utf8 x c) ≡ true
    → request_of (compared utf8 x c) ≡ c.req
compared-request utf8 equal c h = refl
compared-request utf8 different c h = ground (arith, h)
compared-request utf8 length_error c h = ground (arith, h)

bearer-admits :
    (utf8 : Str → List ℕ) (token : Str) (o : Option Str) (c : Context)
    → IsFaithful utf8
    → IsPlain token
    → HasPlainHeader o
    → is_next (bearer_entry utf8 token o c) ≡ is_header token o
bearer-admits utf8 token none c faithful p q = refl
bearer-admits utf8 token (some []) c faithful p q = refl
bearer-admits utf8 token (some (x ∷ header)) c faithful p q = ground (
  arith,
  compared-equal utf8 (safe_compare utf8 (x ∷ header) (expected token)) c,
  safe_compare_iff utf8 (x ∷ header) (expected token) faithful q (expected-IsPlain token p),
  str_beq_iff (x ∷ header) (expected token),
)

verdict-admits : (v : Verdict) (c : Context) → is_next (auth_verdict v c) ≡ is_accepting v
unfolding auth_verdict
verdict-admits (accepts u) c = refl
verdict-admits refuses c = refl
verdict-admits throws c = refl

verdict-request :
    (v : Verdict) (c : Context)
    → is_next (auth_verdict v c) ≡ true
    → request_of (auth_verdict v c) ≡ c.req
unfolding auth_verdict
verdict-request (accepts u) c h = refl
verdict-request refuses c h = ground (arith, h)
verdict-request throws c h = ground (arith, h)

auth-admits :
    (utf8 : Str → List ℕ) (a : Request → Verdict) (o : Option Request) (c : Context) (r : Request)
    → o ≡ some r
    → is_next (auth_entry utf8 a o c) ≡ is_accepting (a r)
auth-admits utf8 a none c r h = ground (arith, h)
auth-admits utf8 a (some s) c r h =
    verdict-admits (a s) c ∙ ap (λ q. is_accepting (accepting a q)) h
  where
    accepting : (Request → Verdict) → Option Request → Verdict
    accepting b none = refuses
    accepting b (some q) = b q

auth-request :
    (utf8 : Str → List ℕ) (a : Request → Verdict) (o : Option Request) (c : Context)
    → is_next (auth_entry utf8 a o c) ≡ true
    → request_of (auth_entry utf8 a o c) ≡ c.req
auth-request utf8 a none c h = ground (arith, h)
auth-request utf8 a (some s) c h = verdict-request (a s) c h

pub enter-admits :
    (utf8 : Str → List ℕ) (m : Middleware) (c : Context) (r : Request)
    → IsFaithful utf8
    → HasPlainToken m
    → HasPlainHeader r.authorization
    → c.req ≡ some r
    → is_next (enter utf8 m c) ≡ admits r m
unfolding enter admits
enter-admits utf8 (auth a) c r faithful p q h = auth-admits utf8 a c.req c r h
enter-admits utf8 (bearer_auth token) c r faithful p q h =
    let same : r.authorization ≡ authorization_of c.req = ap authorization_of (sym h) in
    bearer-admits utf8 token (authorization_of c.req) c faithful p (subst HasPlainHeader same q)
    ∙ ap (is_header token) (sym same)
enter-admits utf8 (bearer_token token) c r faithful p q h = refl
enter-admits utf8 heartbeat c r faithful p q h = refl
enter-admits utf8 resumable c r faithful p q h = refl

bearer-request :
    (utf8 : Str → List ℕ) (token : Str) (o : Option Str) (c : Context)
    → is_next (bearer_entry utf8 token o c) ≡ true
    → request_of (bearer_entry utf8 token o c) ≡ c.req
bearer-request utf8 token none c h = ground (arith, h)
bearer-request utf8 token (some []) c h = ground (arith, h)
bearer-request utf8 token (some (x ∷ header)) c h =
    compared-request utf8 (safe_compare utf8 (x ∷ header) (expected token)) c h

pub enter-request :
    (utf8 : Str → List ℕ) (m : Middleware) (c : Context) (r : Request)
    → c.req ≡ some r
    → is_next (enter utf8 m c) ≡ true
    → request_of (enter utf8 m c) ≡ some r
unfolding enter
enter-request utf8 (auth a) c r h k = auth-request utf8 a c.req c k ∙ h
enter-request utf8 (bearer_auth token) c r h k =
    bearer-request utf8 token (authorization_of c.req) c k ∙ h
enter-request utf8 (bearer_token token) c r h k = h
enter-request utf8 heartbeat c r h k = h
enter-request utf8 resumable c r h k = h
