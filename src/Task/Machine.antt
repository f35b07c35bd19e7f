-- ===== src/Task/Machine.antt =====
-- The status machine of docs/TASK_STATUS.md as a specification: which changes of a stored status are
-- allowed, and what every transaction keeps of a task row.
pub mod Storage
pub mod Runs
use mathlib.Core.Option
use scenario_pipeliner.Base.{
  ℕ, ◌≡◌, refl, ◌⊎◌, inl, inr, ◌∙◌, ap, Bool, true, false, not, ◌&&◌, ◌||◌, Option, none, some,
  List, [], ◌∷◌, arith, if◌then◌else◌, ◌==◌,
}
use scenario_pipeliner.Table.{update_where, applied, find_key, find_key-update_where}
use scenario_pipeliner.Db.Enums.{
  TaskStatus, draft, new, queued, running, waiting, is_new, is_queued, has_heartbeat, is_terminal,
}
use scenario_pipeliner.Db.Tables.{TaskRow, Database}

-- No edge leaves a terminal status. DRAFT is never written, QUEUED only over NEW, QUEUED and RUNNING,
-- RUNNING only over QUEUED.
abbrev pub edge : TaskStatus → TaskStatus → Bool
edge s draft = false
edge s queued = is_new s || has_heartbeat s
edge s running = is_queued s
edge s _ = not (is_terminal s)

-- how one row may change
pub record Moves (r r' : TaskRow) : Type 0 where
  pub same_id : r'.id ≡ r.id
  pub same_parent : r'.parent_id ≡ r.parent_id
  pub same_origin : r'.created_at ≡ r.created_at
  pub frozen : is_terminal r.status ≡ true → r' ≡ r
  pub along : (r'.status ≡ r.status) ⊎ (edge r.status r'.status ≡ true)

abbrev pub task_key : TaskRow → ℕ
task_key t = t.id

abbrev pub find_task : ℕ → List TaskRow → Option TaskRow
find_task = find_key task_key

-- every row is still there, and moved as allowed
pub record Evolves (rows rows' : List TaskRow) : Type 0 where
  pub at :
      (k : ℕ) (r : TaskRow)
      → find_task k rows ≡ some r
      → (r' : TaskRow) × (find_task k rows' ≡ some r') × Moves r r'

pub Moves-refl : (r : TaskRow) → Moves r r
Moves-refl r = record {
  same_id = refl;
  same_parent = refl;
  same_origin = refl;
  frozen = λ _. refl;
  along = inl refl;
}

pub Evolves-refl : (rows : List TaskRow) → Evolves rows rows
Evolves-refl rows = record { at = λ k r e. (r, e, Moves-refl r) }

Moves-applied :
    (p : TaskRow → Bool) (f : TaskRow → TaskRow)
    → ((r : TaskRow) → p r ≡ true → Moves r (f r))
    → (r : TaskRow) (b : Bool) → p r ≡ b
    → Moves r (if b then f r else r)
Moves-applied p f h r true e = h r e
Moves-applied p f h r false e = Moves-refl r

-- An update evolves the table if it moves each row that it hits as allowed.
pub Evolves-update :
    (p : TaskRow → Bool) (f : TaskRow → TaskRow)
    → ((r : TaskRow) → (f r).id ≡ r.id)
    → ((r : TaskRow) → p r ≡ true → Moves r (f r))
    → (rows : List TaskRow) → Evolves rows (update_where p f rows)
Evolves-update p f keeps h rows = record {
  at = λ k r e. (
    applied p f r,
    find_key-update_where task_key p f keeps k rows ∙ ap (Option.map (applied p f)) e,
    Moves-applied p f h r (p r) refl,
  );
}

-- Two updates in one transaction, judged together.
pub Evolves-update_twice :
    (p q : TaskRow → Bool) (f g : TaskRow → TaskRow)
    → ((r : TaskRow) → (f r).id ≡ r.id)
    → ((r : TaskRow) → (g r).id ≡ r.id)
    → ((r : TaskRow) → Moves r (applied q g (applied p f r)))
    → (rows : List TaskRow) → Evolves rows (update_where q g (update_where p f rows))
Evolves-update_twice p q f g keeps_f keeps_g h rows = record {
  at = λ k r e. (
    applied q g (applied p f r),
    find_key-update_where task_key q g keeps_g k (update_where p f rows)
        ∙ ap (Option.map (applied q g))
            (find_key-update_where task_key p f keeps_f k rows ∙ ap (Option.map (applied p f)) e),
    h r,
  );
}
