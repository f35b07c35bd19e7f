-- ===== src/Plugins/DryRun/Laws.antt =====
-- The dry run's report: its counts agree, and a plugin that is in error leaves the others as they are.
use scenario_pipeliner.Base.{
  ℕ, suc, ◌+◌, ◌≡◌, refl, ap, ◌∙◌, subst, ◌⊎◌, inl, inr, Bool, true, false, not, ◌==◌, ◌≢◌, Option,
  none, some, List, [], ◌∷◌, ◌++◌, length, length-append, if◌then◌else◌, arith, Option-cases,
}
use scenario_pipeliner.Text.{String}
use scenario_pipeliner.Api.{
  Mode, DryRunStatus, plugin_load_error, LoadStatus, is_loaded, is_skipped,
}
use scenario_pipeliner.Db.Tx.{Exc, ok, err, Result-cases}
use scenario_pipeliner.Plugins.Manifest.{PluginManifestV1, Host, load_manifest}
use scenario_pipeliner.Plugins.Registry.{PluginRegistryV1, empty_registry, RegistryRegisterResult}
use scenario_pipeliner.Plugins.Registry.Cases.{register-outcome}
use scenario_pipeliner.Plugins.DryRun.{
  MigrationPlanItem, PluginDryRunResult, DryRunError, has_warnings, DryRunReport, Candidate,
  migration_plan_of, no_path, plugin_result, insert_by_key, sort_results, count_status, Outcomes,
  try_manifest, handled, run_candidate, run_candidates, report_of, build_dry_run_report,
  add_outcome, join, outcome, planned, one_error, as_dry_run_error, pick_backend_migration_path,
  is_none_left,
}

count-append :
    (p : LoadStatus → Bool) (xs ys : List PluginDryRunResult)
    → count_status p (xs ++ ys) ≡ count_status p xs + count_status p ys
count-append p [] ys = omega arith
count-append p (x ∷ xs) ys = ground (arith, count-append p xs ys)

count-insert :
    (p : LoadStatus → Bool) (x : PluginDryRunResult) (xs : List PluginDryRunResult)
    → count_status p (insert_by_key x xs)
      ≡ (if p x.load_status then suc (count_status p xs) else count_status p xs)
count-insert p x [] = refl
count-insert p x (y ∷ xs) = ground (arith, count-insert p x xs)

count-sort :
    (p : LoadStatus → Bool) (xs : List PluginDryRunResult)
    → count_status p (sort_results xs) ≡ count_status p xs
unfolding sort_results
count-sort p [] = refl
count-sort p (x ∷ xs) = ground (arith, count-insert p x (sort_results xs), count-sort p xs)

length-insert :
    (x : PluginDryRunResult) (xs : List PluginDryRunResult)
    → length (insert_by_key x xs) ≡ suc (length xs)
length-insert x [] = refl
length-insert x (y ∷ xs) = ground (arith, length-insert x xs)

length-sort : (xs : List PluginDryRunResult) → length (sort_results xs) ≡ length xs
unfolding sort_results
length-sort [] = refl
length-sort (x ∷ xs) = length-insert x (sort_results xs) ∙ ap suc (length-sort xs)

-- n plugins, each counted once; each that is loaded has one planned migration
abbrev Counts : ℕ → Outcomes → Type 0
Counts n o =
    (length o.results ≡ n)
    × (count_status is_loaded o.results + count_status is_skipped o.results + length o.errors ≡ n)
    × (o.migrations ≡ count_status is_loaded o.results)

Counts-join : (n : ℕ) (o p : Outcomes) → Counts 1 o → Counts n p → Counts (suc n) (join o p)
Counts-join n o p (a, b, c) (x, y, z) =
    let l = length-append o.results p.results in
    let m = length-append o.errors p.errors in
    let i = count-append is_loaded o.results p.results in
    let j = count-append is_skipped o.results p.results in (omega arith, omega arith, omega arith)

one_item :
    (b d : Bool) (e x : Exc) (item : MigrationPlanItem) (plan : List MigrationPlanItem)
    → (if not b then err e else if not d then err x else ok (item ∷ [])) ≡ ok plan
    → length plan ≡ (if no_path plan then 0 else 1)
one_item false d e x item plan h = cc
one_item true false e x item plan h = cc
one_item true true e x item plan h =
    let e : item ∷ [] ≡ plan = ground arith in
    subst (λ y. length y ≡ (if no_path y then 0 else 1)) e refl

planned-length :
    (c : Candidate) (m : PluginManifestV1) (path : Option String) (plan : List MigrationPlanItem)
    → planned c m path ≡ ok plan
    → length plan ≡ (if no_path plan then 0 else 1)
planned-length c m none plan h =
    let e : [] ≡ plan = ground arith in subst (λ x. length x ≡ (if no_path x then 0 else 1)) e refl
planned-length c m (some path) plan h = one_item (c.exists path) (c.is_file path) _ _ _ plan h

plan_length :
    (c : Candidate) (m : PluginManifestV1) (plan : List MigrationPlanItem)
    → migration_plan_of c m ≡ ok plan
    → length plan ≡ (if no_path plan then 0 else 1)
unfolding migration_plan_of
plan_length c m plan h = elim (Result-cases (pick_backend_migration_path c m.migrations)) [
  | inl (e, p) ↦ absurd (ground arith)
  | inr (path, p) ↦ planned-length c m path plan (rw (p, migration_plan_of) at h)
]

planned-Counts :
    (m : PluginManifestV1) (plan : List MigrationPlanItem) (result : RegistryRegisterResult)
    → length plan ≡ (if no_path plan then 0 else 1)
    → Counts 1 (record {
      results = plugin_result m plan result ∷ [];
      errors = [];
      migrations = length plan;
    })
unfolding plugin_result
planned-Counts m [] result n = (refl, refl, refl)
planned-Counts m (x ∷ plan) result n = (refl, refl, n)

abbrev pub is_error : DryRunStatus → Bool
is_error DryRunStatus.error = true
is_error DryRunStatus.warning = false
is_error DryRunStatus.ok = false

status_is_error :
    (errors : List DryRunError) (warned : Bool)
    → is_error (
        if not (is_none_left errors)
        then DryRunStatus.error
        else if warned
        then DryRunStatus.warning
        else DryRunStatus.ok)
      ≡ not (length errors == 0)
status_is_error [] true = refl
status_is_error [] false = refl
status_is_error (e ∷ errors) w = ground arith

module _ (host : Host) where
  handled-Counts :
      (m : Option PluginManifestV1) (c : Candidate) (e : Exc) (o : Outcomes)
      → handled host m c e ≡ ok o
      → Counts 1 o
  unfolding handled
  handled-Counts m c e o h = elim (Option-cases (as_dry_run_error e)) [
    | inl n ↦
        let k : one_error host m c plugin_load_error (host.text_of e) ≡ o = ground arith in
        subst (Counts 1) k (refl, refl, refl)
    | inr ((code, message), s) ↦
        let k : one_error host m c code message ≡ o = ground arith in
        subst (Counts 1) k (refl, refl, refl)
  ]

  -- What a try that succeeds gives, and that one that fails leaves the registry.
  try_manifest-cases :
      (mode : Mode) (v : String) (c : Candidate) (m : PluginManifestV1)
      (registry : PluginRegistryV1)
      → let (tried, after) = try_manifest host mode v c m registry in
        ((e : Exc) × (tried ≡ err e) × (after ≡ registry))
        ⊎ ((plan : List MigrationPlanItem) × (result : RegistryRegisterResult) × (tried
              ≡ ok (plugin_result m plan result, length plan))
            × (length plan ≡ (if no_path plan then 0 else 1)))
  unfolding try_manifest
  try_manifest-cases mode v c m registry = elim (Result-cases (migration_plan_of c m)) [
    | inl (e, p) ↦ inl (e, rw (p, try_manifest) refl, rw (p, try_manifest) refl)
    | inr (plan, p) ↦ elim (register-outcome host m mode v (some c.plugin_dir) registry) [
      | inl (e, r) ↦ inl (e, rw (p, r, try_manifest) refl, rw (p, r, try_manifest) refl)
      | inr (result, after, r) ↦
          inr (plan, result, rw (p, r, try_manifest) refl, plan_length c m plan p)
    ]
  ]

  run_candidate-Counts :
      (mode : Mode) (v : String) (c : Candidate) (registry : PluginRegistryV1) (o : Outcomes)
      → (run_candidate host mode v c registry).0 ≡ ok o
      → Counts 1 o × ((o.errors ≡ []) ⊎ ((run_candidate host mode v c registry).1 ≡ registry))
  unfolding run_candidate
  run_candidate-Counts mode v c registry o h =
      elim (Result-cases (load_manifest host c.manifest_path c.text)) [
        | inl (e, l) ↦
            let k : handled host none c e ≡ ok o = (rw (l, run_candidate) at h) in
            (handled-Counts none c e o k, inr (rw (l, run_candidate) refl))
        | inr (m, l) ↦
            let k : outcome host m c (try_manifest host mode v c m registry).0 ≡ ok o =
              (rw (l, run_candidate) at h) in
            elim (try_manifest-cases mode v c m registry) [
              | inl (e, t, same) ↦
                  (handled-Counts (some m) c e o (rw t at k), inr (rw (l, run_candidate) same))
              | inr (plan, result, t, n) ↦
                  let one : Outcomes = record {
                    results = plugin_result m plan result ∷ [];
                    errors = [];
                    migrations = length plan;
                  } in
                  let e : one ≡ o = ground arith in
                  subst
                    (λ x.
                      Counts 1 x
                      × ((x.errors ≡ []) ⊎ ((run_candidate host mode v c registry).1 ≡ registry)))
                    e (planned-Counts m plan result n, inl refl)
            ]
      ]

  run_candidates-Counts :
      (mode : Mode) (v : String) (cs : List Candidate) (registry : PluginRegistryV1) (o : Outcomes)
      → run_candidates host mode v cs registry ≡ ok o
      → Counts (length cs) o
  unfolding run_candidates
  run_candidates-Counts mode v [] registry o h =
      let e : record { results = []; errors = []; migrations = 0 } ≡ o = ground arith in
      subst (Counts 0) e (refl, refl, refl)
  run_candidates-Counts mode v (c ∷ cs) registry o h =
      let after = (run_candidate host mode v c registry).1 in
      elim (Result-cases (run_candidate host mode v c registry).0) [
        | inl (e, one) ↦ absurd (ground arith)
        | inr (p, one) ↦ elim (Result-cases (run_candidates host mode v cs after)) [
          | inl (e, rest) ↦ absurd (ground arith)
          | inr (q, rest) ↦
              let r : add_outcome p (ok q) ≡ ok o = (rw (one, rest, run_candidates) at h) in
              let k : join p q ≡ o = ground arith in
              subst (Counts (suc (length cs))) k (
                Counts-join (length cs) p q (run_candidate-Counts mode v c registry p one).0
                  (run_candidates-Counts mode v cs after q rest))
        ]
      ]

  -- Where a report is built, it has one entry for each manifest that was found, each is loaded, skipped or
  -- has an error, the counts of the summary are those of the entries, one migration is planned for each
  -- plugin that is loaded, and the status is the error status just where there are errors.
  pub report_counts :
      (mode : Mode) (v : String) (cs : List Candidate) (report : DryRunReport)
      → build_dry_run_report host mode v cs ≡ ok report
      → (length report.plugins ≡ report.summary.plugins_discovered)
        × (report.summary.plugins_discovered ≡ length cs)
        × (report.summary.plugins_loaded + report.summary.plugins_skipped + length report.errors
            ≡ report.summary.plugins_discovered)
        × (report.summary.migrations_planned ≡ report.summary.plugins_loaded)
        × (is_error report.status ≡ not (length report.errors == 0))
  unfolding build_dry_run_report report_of
  report_counts mode v cs report h =
      elim (Result-cases (run_candidates host mode v cs empty_registry)) [
        | inl (e, run) ↦ absurd (ground arith)
        | inr (o, run) ↦
            let k : report_of host mode v (length cs) o ≡ report = ground arith in
            let (a, b, c) = run_candidates-Counts mode v cs empty_registry o run in
            let l = length-sort o.results in
            let i = count-sort is_loaded o.results in
            let j = count-sort is_skipped o.results in
            subst
              (λ r.
                (length r.plugins ≡ r.summary.plugins_discovered)
                × (r.summary.plugins_discovered ≡ length cs)
                × (r.summary.plugins_loaded + r.summary.plugins_skipped + length r.errors
                    ≡ r.summary.plugins_discovered)
                × (r.summary.migrations_planned ≡ r.summary.plugins_loaded)
                × (is_error r.status ≡ not (length r.errors == 0)))
              k
              (
                omega arith,
                refl,
                omega arith,
                omega arith,
                status_is_error o.errors (has_warnings (sort_results o.results)),
              )
      ]

  -- Where a plugin of the report is in error, the plugins after it are reported as if it was not there.
  pub error_isolated :
      (mode : Mode) (v : String) (c : Candidate) (cs : List Candidate) (registry : PluginRegistryV1)
      (o : Outcomes)
      → (run_candidate host mode v c registry).0 ≡ ok o
      → o.errors ≢ []
      → run_candidates host mode v (c ∷ cs) registry
        ≡ add_outcome o (run_candidates host mode v cs registry)
  unfolding run_candidates
  error_isolated mode v c cs registry o h bad =
      elim ((run_candidate-Counts mode v c registry o h).1) [
        | inl none_there ↦ absurd (bad none_there)
        | inr same ↦ rw (h, same, run_candidates) refl
      ]
