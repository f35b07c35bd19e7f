-- ===== src/Db/Fresh.antt =====
-- After `sync_core_identity_sequences` the next id of a table is in no row of it.
use scenario_pipeliner.Base.{
  ℕ, ◌≤◌, ◌≡◌, refl, Bool, true, false, if◌then◌else◌, List, [], ◌∷◌, arith, contains,
}
use scenario_pipeliner.Db.Tables.{Database}
use scenario_pipeliner.Db.Tx.{Exc, integrity_error, Result, ok, err, Tx}
use scenario_pipeliner.Db.Identity.{
  next_id, sync_core_identity_sequences, unique_violation, run_with_identity_sequence_retry,
  retried,
}

not_contains : (k : ℕ) (ids : List ℕ) → next_id ids ≤ k → contains k ids ≡ false
unfolding next_id
not_contains k [] h = refl
not_contains k (i ∷ ids) h = ground (arith, not_contains k ids)

pub contains-next_id : (ids : List ℕ) → contains (next_id ids) ids ≡ false
contains-next_id ids = not_contains (next_id ids) ids (omega arith)

module _ {ℓ} {A : Type ℓ} (operation : Tx A) (db db' : Database) where
  -- An operation that returns is not retried.
  pub retry-ok :
      (a : A)
      → operation db ≡ (ok a, db')
      → run_with_identity_sequence_retry operation db ≡ (ok a, db')
  unfolding run_with_identity_sequence_retry
  retry-ok a h = rw h

  -- One that meets a taken result id is retried on repaired sequences.
  pub retry-stale :
      operation db ≡ (err (unique_violation "results_pkey"), db')
      → run_with_identity_sequence_retry operation db ≡ operation (sync_core_identity_sequences db')
  unfolding run_with_identity_sequence_retry unique_violation
  retry-stale h = rw h

module _ {ℓ} {A : Type ℓ} (P : Result A × Database → Type 0) (operation : Tx A) where
  if-holds :
      (b : Bool) (db db' : Database) (e : Exc)
      → ((db : Database) → P (operation db))
      → P (err e, db)
      → P (if b then operation db' else (err e, db))
  if-holds true db db' e h k = h db'
  if-holds false db db' e h k = k

  retried-holds :
      (r : Result A × Database)
      → ((db : Database) → P (operation db))
      → P r
      → P (retried operation r)
  unfolding retried
  retried-holds (ok a, db) h k = k
  retried-holds (err (integrity_error chain), db) h k = if-holds _ db _ (integrity_error chain) h k
  retried-holds (err _, db) h k = k

  -- What holds of every answer of an operation holds of the answer of its retry.
  pub retry-holds :
      ((db : Database) → P (operation db))
      → (db : Database) → P (run_with_identity_sequence_retry operation db)
  unfolding run_with_identity_sequence_retry
  retry-holds h db = retried-holds (operation db) h (h db)
