-- ===== src/Task/Storage.antt =====
-- worker/task_repositories/postgres.py, class PostgresTaskStorage: each method is one transaction.
-- `now` is the transaction's `now()`, in microseconds. `locked` holds for the ids of rows that other
-- open transactions have locked, which `SKIP LOCKED` passes over. Rows come back in table order.
pub mod Persist
pub mod Lock
use scenario_pipeliner.Base.{
  ℕ, suc, ◌+◌, ◌*◌, Bool, true, false, not, ◌&&◌, ◌||◌, Option, none, some, List, [], ◌∷◌, ◌++◌,
  map, ltb, leb, ◌==◌, if◌then◌else◌, is_some, length, take, any, contains,
}
use scenario_pipeliner.Text.{String, concat, str_eq, btrim, strip}
use scenario_pipeliner.Json.{Json}
use scenario_pipeliner.Table.{update_where, select_where, order_by}
use scenario_pipeliner.Db.Enums.{
  TaskStatus, new, queued, running, waiting, finished, finished_with_error, cancelled, is_new,
  is_queued, is_waiting, is_finished, has_heartbeat, is_terminal, is_failed_subtask, is_open,
}
use scenario_pipeliner.Db.Tables.{minute, TaskRow, SettingRow, ResultRow, Database}
use scenario_pipeliner.Db.Identity.{result_ids, unique_violation, run_with_identity_sequence_retry}
use scenario_pipeliner.Db.Tx.{
  Exc, value_error, database_error, Result, ok, err, Tx, pure, raise, gets, ◌>>=◌, ◌>>◌, begin,
}

-- UPDATE tasks …; the answer is `.first() is not None`
abbrev update_tasks : (TaskRow → Bool) → (TaskRow → TaskRow) → Tx Bool
update_tasks p f db = (ok (any p db.tasks), record db { tasks = update_where p f db.tasks })

abbrev setting_on : String → SettingRow → Bool
setting_on key s = str_eq s.key key && str_eq (btrim s.value) "1"

unfoldable pub active_exists : Database → TaskRow → Bool
unfolding btrim
active_exists db t = any (setting_on (concat "pipeline_active_" t.scenario)) db.settings

unfoldable pub worker_enabled : Database → Bool
unfolding btrim
worker_enabled db = any (setting_on "worker_enabled") db.settings

abbrev is_due : ℕ → Option ℕ → Bool
is_due now none = true
is_due now (some at) = leb at now

unfoldable pub new_runnable : Database → ℕ → TaskRow → Bool
unfolding btrim
new_runnable db now t =
    is_new t.status
    && is_due now t.next_run_at
    && not (str_eq (btrim t.scenario) "")
    && active_exists db t

-- coalesce(last_heartbeat_at, updated_at)
abbrev pub last_seen : TaskRow → ℕ
last_seen t = elim t.last_heartbeat_at [ none ↦ t.updated_at | some at ↦ at ]

-- `seen < now - timeout`, with the timeout moved to the left
unfoldable pub zombie : Database → ℕ → ℕ → TaskRow → Bool
zombie db now zombie_timeout_minutes t =
    has_heartbeat t.status
    && ltb (last_seen t + minute * zombie_timeout_minutes) now
    && active_exists db t

unfoldable pub is_runnable : Database → ℕ → ℕ → TaskRow → Bool
is_runnable db now zombie_timeout_minutes t =
    (new_runnable db now t || zombie db now zombie_timeout_minutes t)
    && not (is_some t.deleted_at)
    && worker_enabled db

abbrev pub by_id : TaskRow → TaskRow → Bool
by_id a b = ltb a.id b.id

-- the subquery: FOR UPDATE SKIP LOCKED, ORDER BY id, LIMIT
unfoldable pub lock_candidates : (ℕ → Bool) → ℕ → ℕ → ℕ → Database → List ℕ
unfolding order_by select_where
lock_candidates locked now limit zombie_timeout_minutes db =
    map (λ (t : TaskRow). t.id)
      (take limit (
        order_by by_id (
          select_where (λ t. is_runnable db now zombie_timeout_minutes t && not (locked t.id))
            db.tasks)))

abbrev pub set_queued : ℕ → TaskRow → TaskRow
set_queued now t = record t { status = queued; updated_at = now; last_heartbeat_at = some now }

abbrev pub is_won : (ℕ → Bool) → ℕ → ℕ → ℕ → Database → TaskRow → Bool
is_won locked now limit zombie_timeout_minutes db t =
    contains t.id (lock_candidates locked now limit zombie_timeout_minutes db)
    && is_runnable db now zombie_timeout_minutes t

unfoldable pub lock_runnable_tasks : (ℕ → Bool) → ℕ → ℕ → ℕ → Tx (List TaskRow)
unfolding update_where select_where
lock_runnable_tasks locked now limit zombie_timeout_minutes db =
    let won = is_won locked now limit zombie_timeout_minutes db in
    (
      ok (map (set_queued now) (select_where won db.tasks)),
      record db { tasks = update_where won (set_queued now) db.tasks },
    )

-- `if alias:` keeps the old alias for None and for ""
abbrev new_alias : Option String → Option String → Option String
new_alias none old = old
new_alias (some a) old = if str_eq a "" then old else some a

abbrev new_steps : Option (List String) → List String → List String
new_steps none old = old
new_steps (some names) old = names

unfoldable pub set_task_running : ℕ → ℕ → Option String → Option (List String) → Tx Bool
unfolding update_where
set_task_running now task_id alias steps_names = begin (
    update_tasks (λ t. t.id == task_id && is_queued t.status)
      (λ t. record t {
        status = running;
        updated_at = now;
        last_heartbeat_at = some now;
        alias = new_alias alias t.alias;
        steps_names = new_steps steps_names t.steps_names;
      }))

-- `reachable` is false where SQLAlchemy raises, which becomes a DatabaseError
unfoldable pub setting_is_on : Bool → String → Tx Bool
unfolding strip
setting_is_on reachable key db =
    if reachable
    then (
      ok (any (λ (s : SettingRow). str_eq s.key key && str_eq (strip s.value) "1") db.settings),
      db,
    )
    else (err database_error, db)

unfoldable pub touch_heartbeats : Bool → ℕ → List ℕ → Tx (Unit {0})
unfolding update_where
touch_heartbeats reachable now [] db = (ok tt, db)
touch_heartbeats reachable now (i ∷ ids) db =
    if reachable
    then (
      ok tt,
      record db {
        tasks =
            update_where (λ t. contains t.id (i ∷ ids) && has_heartbeat t.status)
              (λ t. record t { last_heartbeat_at = some now; updated_at = now }) db.tasks;
      },
    )
    else (err database_error, db)

unfoldable pub fail_waiting_parent : ℕ → ℕ → Tx Bool
unfolding update_where
fail_waiting_parent now parent_id = begin (
    update_tasks (λ t. t.id == parent_id && is_waiting t.status)
      (λ t. record t { status = TaskStatus.failed; updated_at = now }))

unfoldable pub requeue_incomplete_tasks : ℕ → List ℕ → Tx ℕ
unfolding update_where select_where
requeue_incomplete_tasks now [] db = (ok 0, db)
requeue_incomplete_tasks now (i ∷ ids) db =
    let hit = λ (t : TaskRow). contains t.id (i ∷ ids) && not (is_terminal t.status) in
    (
      ok (length (select_where hit db.tasks)),
      record db {
        tasks =
            update_where hit
              (λ t. record t { status = new; updated_at = now; last_heartbeat_at = none }) db.tasks;
      },
    )
