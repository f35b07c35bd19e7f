-- ===== src/Task/Create/Laws.antt =====
-- A task that is created is one that the poll loop locks.
use scenario_pipeliner.Base.{
  ℕ, ◌≡◌, refl, ap, ◌∙◌, subst, ◌⊎◌, inl, inr, true, false, List, [], ◌∷◌, ◌++◌, map, any, contains,
  arith, Bool-cases,
}
use scenario_pipeliner.Text.{String, concat, str_eq, btrim}
use scenario_pipeliner.Json.{Json}
use scenario_pipeliner.Db.Tables.{TaskRow, SettingRow, Database}
use scenario_pipeliner.Db.Tx.{Exc, integrity_error, Result, ok, err, Result-cases}
use scenario_pipeliner.Db.Settings.{
  upsert_setting, allows, is_one, any-upsert, any_stays, allows-upsert,
}
use scenario_pipeliner.Db.Identity.{
  task_ids, is_identity_pkey_violation, sync_core_identity_sequences, retried,
  run_with_identity_sequence_retry,
}
use scenario_pipeliner.Task.Rows.{Models}
use scenario_pipeliner.Task.Storage.{is_runnable, new_runnable, active_exists, worker_enabled}
use scenario_pipeliner.Task.Create.{
  TaskSeed, ensure_worker_settings, seed_row, insert_seed, seed_payload, create_task,
}

abbrev ids : List TaskRow → List ℕ
ids = map (λ (t : TaskRow). t.id)

module _ (seed : TaskSeed) (payload : Json) (now : ℕ) (tasks : List TaskRow)
    (settings : List SettingRow) where
  -- the row is appended with an id that no other has, or the tables are as before
  abbrev Inserted : Result ℕ × Database → Type 0
  Inserted r =
      ((id : ℕ) × (r.0 ≡ ok id)
        × (r.1.tasks ≡ tasks ++ seed_row seed payload now id ∷ [])
        × (contains id (ids tasks) ≡ false)
        × (r.1.settings ≡ settings))
      ⊎ ((e : Exc) × (r.0 ≡ err e) × (r.1.tasks ≡ tasks) × (r.1.settings ≡ settings))

  insert-Inserted :
      (db : Database)
      → db.tasks ≡ tasks
      → db.settings ≡ settings
      → Inserted (insert_seed seed payload now db)
  unfolding insert_seed
  insert-Inserted db t s = elim (Bool-cases (contains db.tasks_seq (task_ids db))) [
    | inl e ↦ rw (e, insert_seed) (inr (_, refl, t, s))
    | inr e ↦
        rw (e, insert_seed)
          (inl (
            db.tasks_seq,
            refl,
            ap (λ x. x ++ seed_row seed payload now db.tasks_seq ∷ []) t,
            subst (λ x. contains db.tasks_seq (ids x) ≡ false) t e,
            s,
          ))
  ]

  retried-Inserted :
      (r : Result ℕ × Database) → Inserted r → Inserted (retried (insert_seed seed payload now) r)
  unfolding retried sync_core_identity_sequences
  retried-Inserted (ok id, db) h = h
  retried-Inserted (err (integrity_error chain), db) (inl (id, bad, _, _, _)) = cc
  retried-Inserted (err (integrity_error chain), db) (inr (e, r, t, s)) =
      elim (Bool-cases (is_identity_pkey_violation chain)) [
        | inl v ↦ rw v (insert-Inserted (sync_core_identity_sequences db) t s)
        | inr v ↦ rw v (inr (e, r, t, s))
      ]
  retried-Inserted (err _, db) h = h

-- A NEW row without a start time is runnable where both flags are on.
seed-is_runnable :
    (seed : TaskSeed) (payload : Json) (now id later minutes : ℕ) (db : Database)
    → str_eq (btrim seed.scenario) "" ≡ false
    → any (is_one (concat "pipeline_active_" seed.scenario)) db.settings ≡ true
    → any (is_one "worker_enabled") db.settings ≡ true
    → is_runnable db later minutes (seed_row seed payload now id) ≡ true
unfolding is_runnable new_runnable active_exists worker_enabled btrim
seed-is_runnable seed payload now id later minutes db b a w = rw (b, a, w) refl

-- the flags after they were inserted where they were missing
abbrev flags : String → List SettingRow → List SettingRow
flags scenario settings =
    upsert_setting "worker_enabled" "1"
      (upsert_setting (concat "pipeline_active_" scenario) "1" settings)

created :
    (models : Models) (now : ℕ) (seed : TaskSeed) (db : Database) (id : ℕ)
    → (create_task models now seed db).0 ≡ ok id
    → (payload : Json) × Inserted seed payload now db.tasks
        (flags seed.scenario db.settings)
        (create_task models now seed db)
unfolding create_task ensure_worker_settings run_with_identity_sequence_retry
created models now seed db id h =
    elim (Result-cases (models.validate_payload (seed_payload seed))) [
      | inl (e, v) ↦
          absurd (let k : ◌≡◌ {A = Result ℕ} (err e) (ok id) = (rw (v, create_task) at h) in cc)
      | inr (payload, v) ↦
          let db' = record db { settings = flags seed.scenario db.settings } in
          let p = models.dump_payload payload in
          (
            p,
            rw (v, create_task)
                (retried-Inserted seed p now db.tasks (flags seed.scenario db.settings)
                  (insert_seed seed p now db')
                  (insert-Inserted seed p now db.tasks (flags seed.scenario db.settings) db' refl
                    refl)),
          )
    ]

-- Where a task is created for a scenario with a name, and neither flag is off, its row is appended with an
-- id that no other task has, and the poll loop finds it runnable from then on.
pub created_is_runnable :
    (models : Models) (now : ℕ) (seed : TaskSeed) (db : Database) (id later minutes : ℕ)
    → str_eq (btrim seed.scenario) "" ≡ false
    → allows (concat "pipeline_active_" seed.scenario) db.settings ≡ true
    → allows "worker_enabled" db.settings ≡ true
    → (create_task models now seed db).0 ≡ ok id
    → let after = (create_task models now seed db).1 in
      (t : TaskRow) × (after.tasks ≡ db.tasks ++ t ∷ [])
      × (t.id ≡ id)
      × (contains id (task_ids db) ≡ false)
      × (is_runnable after later minutes t ≡ true)
created_is_runnable models now seed db id later minutes b a w h =
    let active = concat "pipeline_active_" seed.scenario in
    let once = upsert_setting active "1" db.settings in
    let (payload, inserted) = created models now seed db id h in
    elim inserted [
      | inr (e, bad, _, _) ↦ absurd (ground arith)
      | inl (k, r, t, fresh, s) ↦
          let same : k ≡ id = ground arith in
          (
            seed_row seed payload now k,
            t,
            same,
            subst (λ x. contains x (task_ids db) ≡ false) same fresh,
            seed-is_runnable seed payload now k later minutes (create_task models now seed db).1 b
                (ap (any (is_one active)) s
                  ∙ any_stays active "worker_enabled" "1" once (any-upsert active db.settings a))
                (ap (any (is_one "worker_enabled")) s
                  ∙ any-upsert "worker_enabled" once
                      (allows-upsert "worker_enabled" active db.settings w)),
          )
    ]
