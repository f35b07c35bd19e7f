-- ===== src/Db/Tx.antt =====
-- Exceptions as values, and code that runs against the database. `begin` is `engine.begin()`: an
-- exception rolls every table back, and a sequence that was advanced stays advanced.
use scenario_pipeliner.Base.{ℕ, Option, List, ◌≡◌, refl, ◌⊎◌, inl, inr}
use scenario_pipeliner.Text.{String}
use scenario_pipeliner.Api.{DryRunErrorCode}
use scenario_pipeliner.Db.Tables.{Database}

-- one exception of a `__cause__` / `orig` chain, as schema_utils.is_identity_pkey_violation reads it
pub record ErrorLink : Type 0 where
  pub constraint_name : Option String
  pub diag_constraint_name : Option String
  pub text : String

pub data Exc : Type 0 where
  -- sqlalchemy.exc.IntegrityError, with its chain
  integrity_error : List ErrorLink → Exc
  duplicate_broker_message : ℕ → Exc
  pipeline_cancelled database_error lookup_error value_error type_error runtime_error : Exc
  ingress_reject ingress_retry : Exc
  invalid_schema_name schema_mapping_mismatch migration_conflict sql_template sql_split : Exc
  file_not_found_error os_error : Exc
  -- DryRunPluginError and the classes below it, with the code and the message
  dry_run_error : DryRunErrorCode → String → Exc
  -- an exception of plugin code: its type's name and its `str`
  plugin_error : String → String → Exc

pub data Result {ℓ} (A : Type ℓ) : Type ℓ where
  ok : A → Result A
  err : Exc → Result A

pub Result-cases {ℓ} :
    {A : Type ℓ} (r : Result A) → ((e : Exc) × (r ≡ err e)) ⊎ ((a : A) × (r ≡ ok a))
Result-cases (err e) = inl (e, refl)
Result-cases (ok a) = inr (a, refl)

abbrev pub Tx {ℓ} : Type ℓ → Type ℓ
Tx A = Database → Result A × Database

module _ {ℓ} {A : Type ℓ} where
  abbrev pub pure : A → Tx A
  pure a db = (ok a, db)

  abbrev pub raise : Exc → Tx A
  raise e db = (err e, db)

  abbrev pub gets : (Database → A) → Tx A
  gets f db = (ok (f db), db)

module _ {ℓ} {A B : Type ℓ} where
  abbrev pub after : Result A × Database → (A → Tx B) → Result B × Database
  after (ok a, db) f = f a db
  after (err e, db) f = (err e, db)

  infixl 10 ◌>>=◌
  abbrev pub ◌>>=◌ : Tx A → (A → Tx B) → Tx B
  ◌>>=◌ m f db = after (m db) f

infixl 10 ◌>>◌
abbrev pub ◌>>◌ {ℓ} : {A B : Type ℓ} → Tx A → Tx B → Tx B
m >> n = m >>= λ _. n

-- the tables of `before` with the sequences of `later`
abbrev pub rolled_back : Database → Database → Database
rolled_back before later = record before {
  tasks_seq = later.tasks_seq;
  results_seq = later.results_seq;
  ingress_seq = later.ingress_seq;
  outbox_seq = later.outbox_seq;
}

module _ {ℓ} {A : Type ℓ} where
  abbrev pub finish : Database → Result A × Database → Result A × Database
  finish before (ok a, db) = (ok a, db)
  finish before (err e, db) = (err e, rolled_back before db)

  abbrev pub begin : Tx A → Tx A
  begin m db = finish db (m db)
