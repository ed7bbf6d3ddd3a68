-- ===== src/Transport/Pipeline/Tests.antt =====
-- The middleware at concrete inputs: the routes of apps/server/src/bin/server.ts.
use code_quest.Common.{ℕ, ◌≡◌, List, [], ◌∷◌, ◌++◌, some, Str, arith}
use code_quest.Common.Text.{lit}
use code_quest.Transport.Pipeline.Defs.{
  Middleware, bearer_auth, heartbeat, resumable, Request, run_middleware, accepted, close,
  heartbeat_started, ttl,
}
use code_quest.Transport.Pipeline.Admission.{IsFaithful, admits_all}
use code_quest.Transport.Pipeline.Guards.{IsAnswered, run_middleware-admits}
use code_quest.Transport.Pipeline.Heartbeat.{waiting_for, heartbeat-late}

-- Strings below 128 are their own UTF-8.
abbrev ascii : Str → List ℕ
ascii s = s

ascii-IsFaithful : IsFaithful ascii
ascii-IsFaithful a b p q h = h

abbrev request : Request
request = record { authorization = some (lit "Bearer tok"); session_key = some (lit "k") }

abbrev agents : List Middleware
agents = bearer_auth (lit "tok") ∷ heartbeat ∷ resumable ∷ []

run_middleware-admits_example :
    IsAnswered (admits_all request agents) (run_middleware ascii agents request).1
run_middleware-admits_example =
    run_middleware-admits ascii agents request ascii-IsFaithful (ground arith) (ground arith)

heartbeat-late_example :
    let c =
      accepted
        (waiting_for (some (lit "k")) (resumable ∷ heartbeat ∷ bearer_auth (lit "tok") ∷ [])) in
    let d = close c.0 in
    (c.1 ≡ [])
    × (d.1 ≡ (ttl (some (lit "k")) ++ heartbeat_started ∷ []))
    × ((close d.0).1 ≡ [])
    × ((close d.0).0 ≡ d.0)
heartbeat-late_example = heartbeat-late (some (lit "k")) [] [] (bearer_auth (lit "tok") ∷ []) tt tt
