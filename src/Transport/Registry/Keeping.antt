-- ===== src/Transport/Registry/Keeping.antt =====
-- Whose resumable socket is kept while its connection is up.
use code_quest.Common.{
  ℕ, ◌≡◌, refl, Bool, true, false, not, ◌&&◌, List, [], ◌∷◌, some, Str, str_eq, str_beq,
  str_beq_iff, ◌||◌, nat_eq, is_some, arith, Option-cases, inl, inr,
}
use code_quest.Common.Map.{get, set, delete, get-set, get-delete}
use code_quest.Common.Keys.{member, add, remove, member-add, member-remove}
use code_quest.Transport.Registry.Defs.{
  Registry, made, rebound, expired, new, transform_existing, transform_new, transform_socket,
  terminated, fire, Step, connects, closes, fires, step, run,
}

-- the session keys that have a connection after the steps
unfoldable pub connected : List Str → List Step → List Str
connected up [] = up
connected up (connects key id ∷ steps) = connected (add key up) steps
connected up (closes key ∷ steps) = connected (remove key up) steps
connected up (fires timer ∷ steps) = connected up steps

-- No connection comes for a session key that has one, and only such a connection closes.
unfoldable pub is_orderly : List Str → List Step → Bool
is_orderly up [] = true
is_orderly up (connects key id ∷ steps) = not (member key up) && is_orderly (add key up) steps
is_orderly up (closes key ∷ steps) = member key up && is_orderly (remove key up) steps
is_orderly up (fires timer ∷ steps) = is_orderly up steps

pub record IsKept (up : List Str) (r : Registry) : Type 0 where
  -- a session with a connection is registered
  pub registered : (key : Str) → member key up ≡ true → is_some (get key r.registry) ≡ true
  -- a pending timer is the one on record for its key, whose connection is lost
  pub lost : (timer : ℕ) (key : Str) → get timer r.pending ≡ some key → member key up ≡ false
  pub recorded :
      (timer : ℕ) (key : Str) → get timer r.pending ≡ some key → get key r.ttl_timers ≡ some timer
  pub held :
      (timer : ℕ) (key : Str) → get timer r.pending ≡ some key → is_some (get key r.registry) ≡ true

fire-IsKept : (up : List Str) (r : Registry) (timer : ℕ) → IsKept up r → IsKept up (fire r timer).0
unfolding fire
fire-IsKept up r timer h = elim (Option-cases (get timer r.pending)) [
  | inl k ↦ record {
    registered = λ key p. ground (arith, k, h.registered key);
    lost = λ t key p. ground (arith, k, h.lost t key);
    recorded = λ t key p. ground (arith, k, h.recorded t key);
    held = λ t key p. ground (arith, k, h.held t key);
  }
  | inr (gone, k) ↦ record {
    registered = λ key p. ground (
      arith,
      k,
      h.registered key,
      h.lost timer gone,
      str_beq_iff gone key,
      get-delete gone key r.registry,
    );
    lost = λ t key p. ground (arith, k, h.lost t key, get-delete timer t r.pending);
    recorded = λ t key p. ground (
      arith,
      k,
      h.recorded t key,
      h.recorded timer gone,
      get-delete timer t r.pending,
      get-delete gone key r.ttl_timers,
      str_beq_iff gone key,
    );
    held = λ t key p. ground (
      arith,
      k,
      h.held t key,
      h.recorded t key,
      h.recorded timer gone,
      get-delete timer t r.pending,
      get-delete gone key r.registry,
      str_beq_iff gone key,
    );
  }
]

terminated-IsKept :
    (up : List Str) (r : Registry) (key : Str)
    → member key up ≡ true
    → IsKept up r
    → IsKept (remove key up) (terminated r (some key))
unfolding terminated
terminated-IsKept up r key m h = record {
  registered = λ j p. ground (arith, h.registered j, member-remove key j up);
  lost = λ t j p. ground (
    arith,
    h.lost t j,
    member-remove key j up,
    get-set r.next_timer t key r.pending,
    str_beq_iff key j,
  );
  recorded = λ t j p. ground (
    arith,
    h.recorded t j,
    h.lost t j,
    get-set r.next_timer t key r.pending,
    get-set key j r.next_timer r.ttl_timers,
    str_beq_iff key j,
  );
  held = λ t j p. ground (
    arith,
    h.held t j,
    h.registered key,
    get-set r.next_timer t key r.pending,
    str_beq_iff key j,
  );
}

-- What a connection's arrival leaves of the timers: those of other keys.
pub record IsRenewed (key : Str) (r q : Registry) : Type 0 where
  pub registered :
      (j : Str) → is_some (get j q.registry) ≡ (str_beq key j || is_some (get j r.registry))
  pub pending :
      (t : ℕ) (j : Str)
      → get t q.pending ≡ some j
      → (get t r.pending ≡ some j)
        × (str_beq key j ≡ false)
        × (get j q.ttl_timers ≡ get j r.ttl_timers)

transform_socket-IsRenewed :
    (up : List Str) (r : Registry) (key id : Str)
    → IsKept up r
    → IsRenewed key r (transform_socket r (some key) id).0
unfolding transform_socket transform_existing transform_new
transform_socket-IsRenewed up r key id h = elim (Option-cases (get key r.registry)) [
  | inl k ↦ record {
    registered = λ j.
        ground (arith, k, get-set key j (record { serial = r.next_serial; id = id }) r.registry);
    pending = λ t j p. ground (arith, k, h.held t j, str_beq_iff key j);
  }
  | inr (rs, k) ↦ elim (Option-cases (get key r.ttl_timers)) [
    | inl l ↦ record {
      registered = λ j. ground (arith, k, l, get-set key j (record rs { id = id }) r.registry);
      pending = λ t j p. ground (arith, k, l, h.recorded t j, str_beq_iff key j);
    }
    | inr (timer, l) ↦ record {
      registered = λ j. ground (arith, k, l, get-set key j (record rs { id = id }) r.registry);
      pending = λ t j p. ground (
        arith,
        k,
        l,
        h.recorded t j,
        get-delete timer t r.pending,
        get-delete key j r.ttl_timers,
        str_beq_iff key j,
      );
    }
  ]
]

connect-IsKept :
    (up : List Str) (r : Registry) (key id : Str)
    → IsKept up r
    → IsKept (add key up) (transform_socket r (some key) id).0
connect-IsKept up r key id h =
    let q = transform_socket-IsRenewed up r key id h in
    record {
      registered = λ j p. ground (arith, q.registered j, h.registered j, member-add key j up);
      lost = λ t j p. ground (arith, q.pending t j, h.lost t j, member-add key j up);
      recorded = λ t j p. ground (arith, q.pending t j, h.recorded t j);
      held = λ t j p. ground (arith, q.pending t j, q.registered j, h.held t j);
    }

run-IsKept :
    (steps : List Step) (up : List Str) (r : Registry)
    → is_orderly up steps ≡ true
    → IsKept up r
    → IsKept (connected up steps) (run r steps).0
unfolding is_orderly connected run step
run-IsKept [] up r o h = h
run-IsKept (connects key id ∷ steps) up r o h =
    run-IsKept steps (add key up) (transform_socket r (some key) id).0 (ground (arith, o))
      (connect-IsKept up r key id h)
run-IsKept (closes key ∷ steps) up r o h =
    run-IsKept steps (remove key up) (terminated r (some key)) (ground (arith, o))
      (terminated-IsKept up r key (ground (arith, o)) h)
run-IsKept (fires timer ∷ steps) up r o h =
    run-IsKept steps up (fire r timer).0 o (fire-IsKept up r timer h)

new-IsKept : IsKept [] new
unfolding new get member
new-IsKept = record {
  registered = λ key p. ground (arith, p);
  lost = λ t key p. refl;
  recorded = λ t key p. ground (arith, p);
  held = λ t key p. ground (arith, p);
}

fire-kept :
    (up : List Str) (r : Registry) (timer : ℕ) (key : Str)
    → IsKept up r
    → member key up ≡ true
    → get key (fire r timer).0.registry ≡ get key r.registry
unfolding fire
fire-kept up r timer key h m = elim (Option-cases (get timer r.pending)) [
  | inl k ↦ ground (arith, k)
  | inr (gone, k) ↦
      ground (arith, k, h.lost timer gone, get-delete gone key r.registry, str_beq_iff gone key)
]

-- In a history in which a session key has one connection at a time, a session that is connected has
-- its resumable socket, and no timer that fires takes it away.
pub fire-run :
    (steps : List Step) (timer : ℕ) (key : Str)
    → is_orderly [] steps ≡ true
    → member key (connected [] steps) ≡ true
    → (is_some (get key (run new steps).0.registry) ≡ true)
      × (get key (fire (run new steps).0 timer).0.registry ≡ get key (run new steps).0.registry)
fire-run steps timer key o m =
    let h = run-IsKept steps [] new o new-IsKept in
    (h.registered key m, fire-kept (connected [] steps) (run new steps).0 timer key h m)

-- A second connection of a session key that comes while the first one is up, as after a network
-- change that the server has not noticed, takes the socket over; but when the first one is found
-- closed its timer starts, and when that fires the session in use is given up: its socket is removed
-- and reported as expired, so that the next connection starts a new one.
pub overlap-expires :
    (key a b c : Str)
    → let r =
        run new (connects key a ∷ connects key b ∷ closes key ∷ fires 0 ∷ connects key c ∷ []) in
      r.1 ≡ (made 0 a ∷ rebound 0 b a ∷ expired b ∷ made 1 c ∷ [])
unfolding run step new transform_socket transform_existing transform_new terminated fire get set
    delete
overlap-expires key a b c = ground (arith, str_beq_iff key key)
