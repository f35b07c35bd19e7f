-- ===== src/Exec/Runner/Laws.antt =====
-- The backoff of the poll loop, and the order of the poller's checks.
use scenario_pipeliner.Base.{
  ℕ, zero, suc, ◌+◌, ◌-◌, ◌*◌, ◌^◌, ◌≤◌, max, ◌≡◌, ◌&&◌, Bool, true, false, none, some, List, [],
  ◌∷◌, ◌++◌, arith, All,
}
use native.Mathlib.Nat.{pow-suc}
use scenario_pipeliner.Exec.Runner.{
  RunnerSettings, error_backoff_seconds, CycleOutcome, returned, pipeline_was_cancelled,
  task_was_cancelled, failed_with, Cycle, Loop, execute, Round, poll,
}

pow_pos : (k : ℕ) → 1 ≤ 2 ^ k
pow_pos zero = omega arith
pow_pos (suc k) = rw pow-suc (omega (arith, pow_pos k))

pow_mono : (k : ℕ) → 2 ^ k ≤ 2 ^ suc k
pow_mono k = rw pow-suc (omega arith)

le_mul : (i a : ℕ) → 1 ≤ a → i ≤ i * a
le_mul i a h = grind arith

mul_mono : (i a b : ℕ) → a ≤ b → i * a ≤ i * b
mul_mono i a b h = grind arith

-- settings that RunnerDBSettings accepts
pub record IsValid (s : RunnerSettings) : Type 0 where
  pub polls : 1 ≤ s.poll_interval_seconds
  pub initial : 1 ≤ s.error_backoff_initial_seconds
  pub ordered : s.error_backoff_initial_seconds ≤ s.error_backoff_max_seconds

-- For valid settings, the backoff after one error or more lies between the initial and the greatest wait, and never shrinks with one more error.
pub error_backoff_bounds :
    (s : RunnerSettings) (n : ℕ)
    → IsValid s
    → (s.error_backoff_initial_seconds ≤ error_backoff_seconds s (n + 1))
      × (error_backoff_seconds s (n + 1) ≤ s.error_backoff_max_seconds)
      × (error_backoff_seconds s (n + 1) ≤ error_backoff_seconds s (n + 2))
unfolding error_backoff_seconds
error_backoff_bounds s n v =
    let e : n + 1 - 1 ≡ n = omega arith in
    let f : n + 2 - 1 ≡ suc n = omega arith in
    let low = le_mul s.error_backoff_initial_seconds (2 ^ n) (pow_pos n) in
    let grow = mul_mono s.error_backoff_initial_seconds (2 ^ n) (2 ^ suc n) (pow_mono n) in
    rw (e, f) (omega arith)

-- at least a second and at most the longer of the two limits
abbrev pub BoundedWait : RunnerSettings → ℕ → Type 0
BoundedWait s w = (1 ≤ w) × (w ≤ max s.poll_interval_seconds s.error_backoff_max_seconds)

wait_after :
    (s : RunnerSettings) (o : CycleOutcome) (l : Loop) (cycles : List Cycle)
    (stop_now stop_later : Bool)
    → IsValid s
    → All (BoundedWait s) l.waits
    → ((n w : ℕ)
        → BoundedWait s w
        → All
            (BoundedWait s)
            (execute s stop_later
              (record { consecutive_errors = n; waits = w ∷ l.waits })
              cycles).1.waits)
    → All
        (BoundedWait s)
        (execute s false l (
          record { outcome = o; stop_after_cycle = stop_now; stop_after_wait = stop_later }
          ∷ cycles)).1.waits
unfolding execute
wait_after s task_was_cancelled l cycles stop_now stop_later v h go = h
wait_after s o l cycles true stop_later v h go = h
wait_after s returned l cycles false stop_later v h go = go 0 s.poll_interval_seconds (omega arith)
wait_after s pipeline_was_cancelled l cycles false stop_later v h go =
    go l.consecutive_errors s.poll_interval_seconds (omega arith)
wait_after s (failed_with e) l cycles false stop_later v h go =
    let b = error_backoff_bounds s l.consecutive_errors v in
    go (l.consecutive_errors + 1) (error_backoff_seconds s (l.consecutive_errors + 1)) (omega arith)

-- For valid settings, whatever the cycles do, every wait of the loop is at least a second and at most
-- the longer of the poll interval and the greatest backoff, if those before it are.
pub waits_bounded :
    (s : RunnerSettings) (stop : Bool) (l : Loop) (cycles : List Cycle)
    → IsValid s
    → All (BoundedWait s) l.waits
    → All (BoundedWait s) (execute s stop l cycles).1.waits
unfolding execute
waits_bounded s true l cycles v h = h
waits_bounded s false l [] v h = h
waits_bounded s false l (c ∷ cycles) v h =
    wait_after s c.outcome l cycles c.stop_after_cycle c.stop_after_wait v h (λ n w b.
      waits_bounded s c.stop_after_wait (record { consecutive_errors = n; waits = w ∷ l.waits })
        cycles v (b, h))

-- the loop goes on after a round only if every check passed
abbrev pub passes : Round → Bool
passes r =
    r.should_continue
    && (elim r.check_main [ none ↦ false | some b ↦ b ])
    && r.check_scenarios
    && r.check_tasks

-- The first round in which a check raises or says stop is the last one that the poller looks at.
poll_stops :
    (before rounds : List Round) (r : Round)
    → passes r ≡ false
    → poll (before ++ r ∷ rounds) ≡ poll (before ++ r ∷ [])
unfolding poll
poll_stops [] rounds r h = ground arith
poll_stops (b ∷ before) rounds r h = ground (arith, poll_stops before rounds r)
