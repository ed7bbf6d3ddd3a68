-- ===== src/Transport/Pipeline/Heartbeat.antt =====
-- packages/transport/src/middleware/heartbeat.ts: when the heartbeat of a connection runs, and when
-- it closes the connection.
use code_quest.Common.{
  ℕ, zero, suc, ◌+◌, ◌-◌, ◌*◌, ◌/◌, ◌≤◌, min, max, ◌≡◌, refl, Bool, true, false, ◌&&◌, List, [],
  ◌∷◌, ◌++◌, Option, Str, if◌then◌else◌, arith, All, ltb,
}
use code_quest.Transport.Pipeline.Defs.{
  Middleware, auth, bearer_auth, bearer_token, heartbeat, resumable, Status, absent, opened, closed,
  awaiting_socket, finished, heartbeat_started, heartbeat_cleared, ttl, unwind, Connection,
  accepted, close,
}

abbrev pub default_ping_interval_ms : ℕ
default_ping_interval_ms = 25_000

abbrev pub default_idle_timeout_ms : ℕ
default_idle_timeout_ms = 60_000

unfoldable pub idle_check_ms : (idle_ms : ℕ) → ℕ
idle_check_ms idle_ms = max 50 (min (idle_ms / 2) 5000)

-- `is_open` is the test `readyState === OPEN`.
pub record Beat : Type 0 where
  pub last_seen : ℕ
  pub is_open : Bool

pub data Tick : Type 0 where
  pong_arrives : (now : ℕ) → Tick
  ping_is_due : Tick
  idle_check_is_due : (now : ℕ) → Tick

pub data BeatEffect : Type 0 where
  ping : BeatEffect
  close_idle : (code : ℕ) → BeatEffect

-- The close takes effect at once: `readyState` is no longer OPEN.
unfoldable pub tick : (idle_ms : ℕ) → Beat → Tick → Beat × List BeatEffect
tick idle_ms b (pong_arrives now) = (record b { last_seen = now }, [])
tick idle_ms b ping_is_due = (b, if b.is_open then ping ∷ [] else [])
tick idle_ms b (idle_check_is_due now) =
    if ltb idle_ms (now - b.last_seen) && b.is_open
    then (record b { is_open = false }, close_idle 4000 ∷ [])
    else (b, [])

unfoldable pub ticks : (idle_ms : ℕ) → Beat → List Tick → Beat × List BeatEffect
unfolding tick
ticks idle_ms b [] = (b, [])
ticks idle_ms b (t ∷ ts) =
    let (c, effects) = tick idle_ms b t in
    let (d, later) = ticks idle_ms c ts in (d, effects ++ later)

-- the checks of an interval of `p` milliseconds, `n` of them from time `t` on
abbrev pub checks : (p t n : ℕ) → List Tick
checks p t zero = []
checks p t (suc n) = idle_check_is_due (t + p) ∷ checks p (t + p) n

-- A socket that is no longer open is not closed again.
ticks-closed :
    (idle p t n : ℕ) (b : Beat) → b.is_open ≡ false → ticks idle b (checks p t n) ≡ (b, [])
unfolding ticks
ticks-closed idle p t zero b h = refl
ticks-closed idle p t (suc n) b h = ground (arith, h, ticks-closed idle p (t + p) n b h)

ticks-checks_from :
    (idle p last t n : ℕ)
    → last ≤ t
    → t - last ≤ idle
    → (ticks idle (record { last_seen = last; is_open = true }) (checks p t n)).1
      ≡ (if ltb idle (t - last + n * p) then close_idle 4000 ∷ [] else [])
unfolding ticks
ticks-checks_from idle p last t zero h k = ground arith
ticks-checks_from idle p last t (suc n) h k =
    let more : suc n * p ≡ p + n * p = omega arith in
    let shut : Beat = record { last_seen = last; is_open = false } in
    ground (
      arith,
      more,
      ticks-checks_from idle p last (t + p) n,
      ticks-closed idle p (t + p) n shut refl,
    )

-- If no pong arrives any more, the interval's first `n` checks close the socket, once and with code
-- 4000, exactly if the time up to the last of them exceeds the idle timeout.
pub ticks-checks :
    (idle last n : ℕ)
    → (ticks idle
        (record { last_seen = last; is_open = true })
        (checks (idle_check_ms idle) last n)).1
      ≡ (if ltb idle (n * idle_check_ms idle) then close_idle 4000 ∷ [] else [])
ticks-checks idle last n =
    ground
      (arith, ticks-checks_from idle (idle_check_ms idle) last last n (omega arith) (omega arith))

-- Middleware that ends when its call of `next` returns.
abbrev pub IsGuard : Middleware → Type 0
IsGuard heartbeat = ⊥
IsGuard resumable = ⊥
IsGuard _ = Unit

unwind-guards :
    (b : Bool) (s : Status) (key : Option Str) (guards fs : List Middleware)
    → All IsGuard guards
    → unwind b s key false (guards ++ fs) ≡ unwind b s key false fs
unfolding unwind
unwind-guards b s key [] fs h = refl
unwind-guards b s key (auth a ∷ guards) fs (_, h) = unwind-guards b s key guards fs h
unwind-guards b s key (bearer_auth t ∷ guards) fs (_, h) = unwind-guards b s key guards fs h
unwind-guards b s key (bearer_token t ∷ guards) fs (_, h) = unwind-guards b s key guards fs h
unwind-guards b s key (heartbeat ∷ guards) fs (h, _) = absurd h
unwind-guards b s key (resumable ∷ guards) fs (h, _) = absurd h

outer_ends :
    (key : Option Str) (guards : List Middleware)
    → All IsGuard guards
    → unwind true closed key false guards ≡ (finished, [])
unfolding unwind
outer_ends key [] h = refl
outer_ends key (auth a ∷ guards) (_, h) = outer_ends key guards h
outer_ends key (bearer_auth t ∷ guards) (_, h) = outer_ends key guards h
outer_ends key (bearer_token t ∷ guards) (_, h) = outer_ends key guards h
outer_ends key (heartbeat ∷ guards) (h, _) = absurd h
outer_ends key (resumable ∷ guards) (h, _) = absurd h

-- a connection of a request that was accepted, with the frames of its middleware, the last first
abbrev pub waiting_for : Option Str → List Middleware → Connection
waiting_for key fs = record { key = key; status = absent; progress = awaiting_socket fs }

-- A heartbeat that stands last among the middleware, or before guards only, starts when the
-- connection has its socket and is cleared when the socket closes.
pub heartbeat-beats :
    (key : Option Str) (inner outer : List Middleware)
    → All IsGuard inner
    → All IsGuard outer
    → let c = accepted (waiting_for key (inner ++ heartbeat ∷ outer)) in
      let d = close c.0 in
      (c.1 ≡ (heartbeat_started ∷ []))
      × (d.1 ≡ (heartbeat_cleared ∷ []))
      × (d.0.progress ≡ finished)
unfolding accepted close unwind
heartbeat-beats key inner outer h k =
    rw (unwind-guards true opened key inner (heartbeat ∷ outer) h)
      (rw (outer_ends key outer k) (refl, refl, refl))

-- A heartbeat before a resumable middleware is idle as long as the connection lasts: it starts when
-- the socket has closed, and nothing that closes ever clears its intervals.
pub heartbeat-late :
    (key : Option Str) (inner middle outer : List Middleware)
    → All IsGuard inner
    → All IsGuard middle
    → let c = accepted (waiting_for key (inner ++ resumable ∷ (middle ++ heartbeat ∷ outer))) in
      let d = close c.0 in
      (c.1 ≡ [])
      × (d.1 ≡ (ttl key ++ heartbeat_started ∷ []))
      × ((close d.0).1 ≡ [])
      × ((close d.0).0 ≡ d.0)
unfolding accepted close unwind
heartbeat-late key inner middle outer h k =
    rw (unwind-guards true opened key inner (resumable ∷ (middle ++ heartbeat ∷ outer)) h)
      (rw (unwind-guards true closed key middle (heartbeat ∷ outer) k) (refl, refl, refl, refl))
