-- ===== src/Transport/Pipeline/Guards.antt =====
-- Which requests reach the core, and how the others are answered.
use code_quest.Common.{
  ℕ, ◌+◌, ◌≡◌, refl, subst, ◌⊎◌, inl, inr, Bool, true, false, ◌&&◌, List, [], ◌∷◌, ◌++◌, Option,
  none, some, Str, if◌then◌else◌, str_eq, nat_eq, arith, All, last?,
}
use code_quest.Transport.Pipeline.Defs.{
  Request, Context, Middleware, auth, bearer_auth, bearer_token, heartbeat, resumable, Entry, next,
  returns, fails, enter, Descent, dispatch, absent, unwind, Effect, unauthorized, destroyed,
  accept_called, Connection, run_middleware, ttl,
}
use code_quest.Transport.Pipeline.Admission.{
  HasPlainToken, admits, admits_all, IsFaithful, HasPlainHeader, is_next, request_of, enter-admits,
  enter-request,
}

dispatch-admits :
    (utf8 : Str → List ℕ) (ms fs : List Middleware) (c : Context) (r : Request)
    → IsFaithful utf8
    → All HasPlainToken ms
    → HasPlainHeader r.authorization
    → c.req ≡ some r
    → (dispatch utf8 ms c fs).reaches_core ≡ admits_all r ms
unfolding dispatch admits_all
dispatch-admits utf8 [] fs c r faithful p q h = refl
dispatch-admits utf8 (m ∷ ms) fs c r faithful (p, ps) q h =
    go (enter utf8 m c) (enter-admits utf8 m c r faithful p q h) (enter-request utf8 m c r h)
      (λ d. dispatch-admits utf8 ms (m ∷ fs) d r faithful ps q)
  where
    go :
        (e : Entry)
        → is_next e ≡ admits r m
        → (is_next e ≡ true → request_of e ≡ some r)
        → ((d : Context)
            → d.req ≡ some r
            → (dispatch utf8 ms d (m ∷ fs)).reaches_core ≡ admits_all r ms)
        → (elim e as (λ _. Descent utf8) [
          | next d ↦ dispatch utf8 ms d (m ∷ fs)
          | returns ↦ record { reaches_core = false; threw = false; context = c; frames = m ∷ fs }
          | fails ↦ record { reaches_core = false; threw = true; context = c; frames = m ∷ fs }
        ]).reaches_core
          ≡ (admits r m && admits_all r ms)
    go (next d) k l rest = rw (← k) (rest d (l refl))
    go returns k l rest = rw (← k) refl
    go fails k l rest = rw (← k) refl

-- how a request that does not reach the core is answered
abbrev pub IsRefusal : Option Effect → Type 0
IsRefusal o = (o ≡ some unauthorized) ⊎ (o ≡ some destroyed)

last-ttl :
    (o : Option Str) (es : List Effect) → IsRefusal (last? es) → IsRefusal (last? (ttl o ++ es))
last-ttl none es h = h
last-ttl (some k) [] (inl h) = ground (arith, h)
last-ttl (some k) [] (inr h) = ground (arith, h)
last-ttl (some k) (e ∷ es) h = h

unwind-refuses :
    (o : Option Str) (threw : Bool) (fs : List Middleware)
    → IsRefusal (last? (unwind false absent o threw fs).1)
unfolding unwind
unwind-refuses o false [] = inl refl
unwind-refuses o true [] = inr refl
unwind-refuses o threw (auth a ∷ fs) = unwind-refuses o false fs
unwind-refuses o threw (bearer_auth t ∷ fs) = unwind-refuses o threw fs
unwind-refuses o threw (bearer_token t ∷ fs) = unwind-refuses o threw fs
unwind-refuses o true (heartbeat ∷ fs) = unwind-refuses o true fs
unwind-refuses o true (resumable ∷ fs) = unwind-refuses o true fs
unwind-refuses o false (heartbeat ∷ fs) = unwind-refuses o false fs
unwind-refuses o false (resumable ∷ fs) =
    last-ttl o (unwind false absent o false fs).1 (unwind-refuses o false fs)

abbrev is_acceptance : Effect → ℕ
is_acceptance accept_called = 1
is_acceptance _ = 0

abbrev is_refusal : Effect → ℕ
is_refusal unauthorized = 1
is_refusal destroyed = 1
is_refusal _ = 0

-- how often a request is accepted, and refused
abbrev pub acceptances : List Effect → ℕ
acceptances [] = 0
acceptances (e ∷ es) = is_acceptance e + acceptances es

abbrev pub refusals : List Effect → ℕ
refusals [] = 0
refusals (e ∷ es) = is_refusal e + refusals es

-- not accepted, and refused once
abbrev IsOneRefusal : List Effect → Type 0
IsOneRefusal es = (acceptances es ≡ 0) × (refusals es ≡ 1)

ttl-IsOneRefusal :
    (o : Option Str) (es : List Effect) → IsOneRefusal es → IsOneRefusal (ttl o ++ es)
ttl-IsOneRefusal none es h = h
ttl-IsOneRefusal (some k) es h = (omega (arith, h), omega (arith, h))

unwind-IsOneRefusal :
    (o : Option Str) (threw : Bool) (fs : List Middleware)
    → IsOneRefusal (unwind false absent o threw fs).1
unfolding unwind
unwind-IsOneRefusal o false [] = (refl, refl)
unwind-IsOneRefusal o true [] = (refl, refl)
unwind-IsOneRefusal o threw (auth a ∷ fs) = unwind-IsOneRefusal o false fs
unwind-IsOneRefusal o threw (bearer_auth t ∷ fs) = unwind-IsOneRefusal o threw fs
unwind-IsOneRefusal o threw (bearer_token t ∷ fs) = unwind-IsOneRefusal o threw fs
unwind-IsOneRefusal o true (heartbeat ∷ fs) = unwind-IsOneRefusal o true fs
unwind-IsOneRefusal o true (resumable ∷ fs) = unwind-IsOneRefusal o true fs
unwind-IsOneRefusal o false (heartbeat ∷ fs) = unwind-IsOneRefusal o false fs
unwind-IsOneRefusal o false (resumable ∷ fs) =
    ttl-IsOneRefusal o (unwind false absent o false fs).1 (unwind-IsOneRefusal o false fs)

-- how a request is answered: it is accepted, and nothing else is done, or it is never accepted and
-- refused once, at last
abbrev pub IsAnswered : Bool → List Effect → Type 0
IsAnswered true es = es ≡ (accept_called ∷ [])
IsAnswered false es = (acceptances es ≡ 0) × (refusals es ≡ 1) × IsRefusal (last? es)

either-IsAnswered :
    (b : Bool) (x y : Connection × List Effect)
    → x.1 ≡ (accept_called ∷ [])
    → IsAnswered false y.1
    → IsAnswered b (if b then x else y).1
either-IsAnswered true x y h k = h
either-IsAnswered false x y h k = k

-- A request that every middleware admits, that is whose authenticators accept it and whose header
-- is the expected one for each token, is accepted, and nothing else is done; any other request is
-- never accepted, and is refused once, at last, with 401 or by destroying its connection. UTF-8 is
-- to represent strings without surrogates faithfully, and the tokens and the header to have none.
pub run_middleware-admits :
    (utf8 : Str → List ℕ) (ms : List Middleware) (r : Request)
    → IsFaithful utf8
    → All HasPlainToken ms
    → HasPlainHeader r.authorization
    → IsAnswered (admits_all r ms) (run_middleware utf8 ms r).1
unfolding run_middleware
run_middleware-admits utf8 ms r faithful p q =
    let c : Context = record { req = some r; auth = none; peer_type = none; headers = [] } in
    let d = dispatch utf8 ms c [] in
    subst (λ b. IsAnswered b (run_middleware utf8 ms r).1)
      (dispatch-admits utf8 ms [] c r faithful p q refl)
      (either-IsAnswered d.reaches_core _ _ refl (
        (unwind-IsOneRefusal r.session_key d.threw d.frames).0,
        (unwind-IsOneRefusal r.session_key d.threw d.frames).1,
        unwind-refuses r.session_key d.threw d.frames,
      ))
