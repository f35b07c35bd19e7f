-- ===== src/Task/Machine/Runs.antt =====
-- Any interleaving of the workers' transactions, as a relation between databases.
use scenario_pipeliner.Base.{
  ℕ, ◌≡◌, refl, sym, ◌∙◌, ap, inl, inr, Bool, true, Option, some, List, [], ◌∷◌, ◌++◌, arith,
}
use scenario_pipeliner.Text.{String}
use scenario_pipeliner.Table.{find_key-append}
use scenario_pipeliner.Db.Enums.{TaskStatus, draft, is_terminal}
use scenario_pipeliner.Db.Tables.{TaskRow, Database}
use scenario_pipeliner.Task.Storage.{
  lock_runnable_tasks, set_task_running, touch_heartbeats, fail_waiting_parent,
  requeue_incomplete_tasks,
}
use scenario_pipeliner.Task.Storage.Persist.{
  Persist, cancel_open_subtasks, close_waiting_parent, insert_result_and_update_task,
}
use scenario_pipeliner.Task.Machine.{Moves, Moves-refl, task_key, find_task, Evolves, Evolves-refl}
use scenario_pipeliner.Task.Machine.Storage.{
  is_written, lock-Evolves, start-Evolves, heartbeat-Evolves, fail-Evolves, requeue-Evolves,
  cancel-Evolves, close-Evolves, persist-Evolves,
}

-- one committed transaction
pub data Step (db : Database) : Database → Type 0 where
  lock :
      (locked : ℕ → Bool) (now limit zombie_timeout : ℕ)
      → Step db (lock_runnable_tasks locked now limit zombie_timeout db).1
  start :
      (now id : ℕ) (alias : Option String) (steps : Option (List String))
      → Step db (set_task_running now id alias steps db).1
  heartbeat :
      (reachable : Bool) (now : ℕ) (ids : List ℕ)
      → Step db (touch_heartbeats reachable now ids db).1
  fail_parent : (now id : ℕ) → Step db (fail_waiting_parent now id db).1
  close_parent :
      (now id : ℕ) (status : TaskStatus) → Step db (close_waiting_parent now id status db).1
  cancel_children : (now id : ℕ) → Step db (cancel_open_subtasks now id db).1
  drain : (now : ℕ) (ids : List ℕ) → Step db (requeue_incomplete_tasks now ids db).1
  persist :
      (now : ℕ) (p : Persist)
      → is_written p.status ≡ true
      → Step db (insert_result_and_update_task now p db).1
  insert : (row : TaskRow) {after : Database} → after.tasks ≡ db.tasks ++ row ∷ [] → Step db after
  aside : {after : Database} → after.tasks ≡ db.tasks → Step db after

pub data Runs (db : Database) : Database → Type 0 where
  here : Runs db db
  next : {mid after : Database} → Runs db mid → Step mid after → Runs db after

pub one : {db after : Database} → Step db after → Runs db after
one s = next here s

pub Runs-trans : {a b c : Database} → Runs a b → Runs b c → Runs a c
Runs-trans r here = r
Runs-trans r (next s t) = next (Runs-trans r s) t

-- one transaction moves every row along the status machine
pub Step-Evolves : {db after : Database} → Step db after → Evolves db.tasks after.tasks
Step-Evolves {db} (lock locked now limit zt) = lock-Evolves locked now limit zt db
Step-Evolves {db} (start now id alias steps) = start-Evolves now id alias steps db
Step-Evolves {db} (heartbeat reachable now ids) = heartbeat-Evolves reachable now ids db
Step-Evolves {db} (fail_parent now id) = fail-Evolves now id db
Step-Evolves {db} (close_parent now id status) = close-Evolves now id status db
Step-Evolves {db} (cancel_children now id) = cancel-Evolves now id db
Step-Evolves {db} (drain now ids) = requeue-Evolves now ids db
Step-Evolves {db} (persist now p w) = persist-Evolves now p db w
Step-Evolves {db} (insert row e) = record {
  at = λ k r f. (r, rw e (find_key-append task_key k db.tasks (row ∷ []) r f), Moves-refl r);
}
Step-Evolves {db} (aside e) = rw e (Evolves-refl db.tasks)

-- what any number of transactions keeps of a row
pub record Keeps (r r' : TaskRow) : Type 0 where
  pub same_id : r'.id ≡ r.id
  pub same_parent : r'.parent_id ≡ r.parent_id
  pub same_origin : r'.created_at ≡ r.created_at
  pub frozen : is_terminal r.status ≡ true → r' ≡ r
  pub no_draft : r'.status ≡ draft → r.status ≡ draft

draft-Moves : {s t : TaskRow} → Moves s t → t.status ≡ draft → s.status ≡ draft
draft-Moves m d = elim m.along [ inl e ↦ sym e ∙ d | inr e ↦ ground arith ]

Keeps-Moves : {r s t : TaskRow} → Keeps r s → Moves s t → Keeps r t
Keeps-Moves {r} {s} {t} k m = record {
  same_id = m.same_id ∙ k.same_id;
  same_parent = m.same_parent ∙ k.same_parent;
  same_origin = m.same_origin ∙ k.same_origin;
  frozen = λ h. m.frozen (ap (λ (x : TaskRow). is_terminal x.status) (k.frozen h) ∙ h) ∙ k.frozen h;
  no_draft = λ d. k.no_draft (draft-Moves m d);
}

-- Whatever transactions run, in whatever order: a task row never disappears, its id, parent and
-- creation time stay, a terminal row stays as it is in every column, and no row becomes DRAFT.
pub Runs-Keeps :
    {db after : Database}
    → Runs db after
    → (k : ℕ) (r : TaskRow) → find_task k db.tasks ≡ some r
    → (r' : TaskRow) × (find_task k after.tasks ≡ some r') × Keeps r r'
Runs-Keeps here k r e = (
  r,
  e,
  record {
    same_id = refl;
    same_parent = refl;
    same_origin = refl;
    frozen = λ _. refl;
    no_draft = λ d. d;
  },
)
Runs-Keeps (next runs s) k r e =
    let (m, f, kept) = Runs-Keeps runs k r e in
    let (t, g, moved) = (Step-Evolves s).at k m f in (t, g, Keeps-Moves kept moved)
