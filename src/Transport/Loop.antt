-- ===== src/Transport/Loop.antt =====
-- packages/transport/src/connection-loop.ts: connecting again and again, with a growing delay. The
-- loop runs over what happens to its attempts, one after the other.
use Prim.Native.Nat.{◌^◌}
use native.Mathlib.Nat.{pow-suc}
use code_quest.Common.{
  ℕ, zero, suc, ◌*◌, ◌≤◌, ◌≡◌, refl, ap, min, max, Bool, true, false, List, [], ◌∷◌, ◌++◌,
  if◌then◌else◌, leb, All, length, arith,
}

pub record Options : Type 0 where
  pub initial_delay : ℕ
  pub max_delay : ℕ
  pub reset_after : ℕ

-- `refused`: `connect` throws; `late`: it succeeds, but `close` was called before; `lasted`: the
-- connection was made, and was lost after so many milliseconds.
pub data Connection : Type 0 where
  refused late : Connection
  lasted : ℕ → Connection

-- `closed` and `closed_asleep` tell whether `close` has been called when the attempt is over, and
-- when the delay after it is over.
pub record Attempt : Type 0 where
  pub connection : Connection
  pub closed : Bool
  pub closed_asleep : Bool

pub data Effect : Type 0 where
  connected disconnected reconnecting failed : Effect
  sleep : ℕ → Effect

unfoldable pub delay_after : Options → ℕ → Connection → ℕ
delay_after opts delay (lasted ms) = if leb opts.reset_after ms then opts.initial_delay else delay
delay_after opts delay _ = delay

-- what an attempt does up to the test of `closed`, and after it
unfoldable pub effects_of : Connection → List Effect
effects_of refused = failed ∷ []
effects_of late = []
effects_of (lasted ms) = connected ∷ []

unfoldable pub lost : Connection → List Effect
lost (lasted ms) = disconnected ∷ []
lost _ = []

-- The body of the `while` loop; `later` is what its next rounds do.
unfoldable pub round : ℕ → Connection → (closed closed_asleep : Bool) → List Effect → List Effect
unfolding effects_of lost
round delay connection closed closed_asleep later =
    effects_of connection
    ++ (if closed
        then []
        else lost connection ++ reconnecting ∷ sleep delay ∷ (if closed_asleep then [] else later))

unfoldable pub loop : Options → ℕ → List Attempt → List Effect
unfolding round delay_after
loop opts delay [] = []
loop opts delay (a ∷ attempts) =
    let now = delay_after opts delay a.connection in
    round now a.connection a.closed a.closed_asleep
      (loop opts (min (now * 2) opts.max_delay) attempts)

abbrev pub sleeps : List Effect → List ℕ
sleeps [] = []
sleeps (sleep n ∷ es) = n ∷ sleeps es
sleeps (_ ∷ es) = sleeps es

sleeps-round :
    (delay : ℕ) (k : Connection) (closed asleep : Bool) (later : List Effect)
    → sleeps (round delay k closed asleep later)
      ≡ (if closed then [] else delay ∷ (if asleep then [] else sleeps later))
unfolding round
sleeps-round delay refused true asleep later = refl
sleeps-round delay late true asleep later = refl
sleeps-round delay (lasted ms) true asleep later = refl
sleeps-round delay refused false true later = refl
sleeps-round delay late false true later = refl
sleeps-round delay (lasted ms) false true later = refl
sleeps-round delay refused false false later = refl
sleeps-round delay late false false later = refl
sleeps-round delay (lasted ms) false false later = refl

delay_after-le :
    (opts : Options) (delay : ℕ) (k : Connection)
    → delay ≤ max opts.initial_delay opts.max_delay
    → delay_after opts delay k ≤ max opts.initial_delay opts.max_delay
unfolding delay_after
delay_after-le opts delay refused h = h
delay_after-le opts delay late h = h
delay_after-le opts delay (lasted ms) h = ground arith

-- If the loop starts from a delay that is not longer than the greater of the initial and the
-- maximal one, then, whatever happens to the attempts, no delay is longer than the greater of the
-- initial and the maximal one.
pub sleeps-loop-le :
    (opts : Options) (attempts : List Attempt) (delay : ℕ)
    → delay ≤ max opts.initial_delay opts.max_delay
    → All (λ n. n ≤ max opts.initial_delay opts.max_delay) (sleeps (loop opts delay attempts))
unfolding loop
sleeps-loop-le opts [] delay h = tt
sleeps-loop-le opts (a ∷ attempts) delay h =
    let now = delay_after opts delay a.connection in
    let later = loop opts (min (now * 2) opts.max_delay) attempts in
    rw (sleeps-round now a.connection a.closed a.closed_asleep later) (
      ground (
        arith,
        delay_after-le opts delay a.connection h,
        sleeps-loop-le opts attempts (min (now * 2) opts.max_delay) (omega arith),
      ))

-- attempts that fail at once, or are lost after less than `reset_after`, while nobody calls `close`
abbrev pub IsFailing : Options → Attempt → Type 0
IsFailing opts a =
    (a.closed ≡ false) × (a.closed_asleep ≡ false) × ((d : ℕ) → delay_after opts d a.connection ≡ d)

-- the delay after `k` failures
abbrev pub delay_at : Options → ℕ → ℕ
delay_at opts zero = opts.initial_delay
delay_at opts (suc k) = min (opts.initial_delay * 2 ^ suc k) opts.max_delay

abbrev pub delays_from : Options → ℕ → ℕ → List ℕ
delays_from opts k zero = []
delays_from opts k (suc n) = delay_at opts k ∷ delays_from opts (suc k) n

delay_at-suc :
    (opts : Options) (k : ℕ) → min (delay_at opts k * 2) opts.max_delay ≡ delay_at opts (suc k)
delay_at-suc opts zero = omega arith
delay_at-suc opts (suc k) = rw (pow-suc 2 (suc k)) (omega arith)

growing :
    (opts : Options) (attempts : List Attempt) (k : ℕ)
    → All (IsFailing opts) attempts
    → sleeps (loop opts (delay_at opts k) attempts) ≡ delays_from opts k (length attempts)
unfolding loop
growing opts [] k h = refl
growing opts (a ∷ attempts) k ((up, awake, same), h) =
    let later = loop opts (min (delay_at opts k * 2) opts.max_delay) attempts in
    rw
      (
        same (delay_at opts k),
        sleeps-round (delay_at opts k) a.connection a.closed a.closed_asleep later,
      )
      (rw (up, awake)
        (ap (◌∷◌ (delay_at opts k)) (rw (delay_at-suc opts k) (growing opts attempts (suc k) h))))

-- While the attempts keep failing, the loop waits after each of them: first for the initial delay,
-- and after `k > 0` failures for the initial delay doubled `k` times, or the maximum if that is less.
pub sleeps-loop_failing :
    (opts : Options) (attempts : List Attempt)
    → All (IsFailing opts) attempts
    → sleeps (loop opts opts.initial_delay attempts) ≡ delays_from opts 0 (length attempts)
sleeps-loop_failing opts attempts h = growing opts attempts 0 h
