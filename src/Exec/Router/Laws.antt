-- ===== src/Exec/Router/Laws.antt =====
-- What routing keeps, and what the constructor's check rules out.
use scenario_pipeliner.Base.{
  ◌≡◌, ◌≢◌, refl, sym, ap, ◌∙◌, ◌⊎◌, inl, inr, true, false, none, some, List, [], ◌∷◌, arith,
  is_some, if◌then◌else◌, All, Option-cases, Bool-cases,
}
use scenario_pipeliner.Text.{String}
use scenario_pipeliner.Db.Tx.{ok, err, lookup_error}
use scenario_pipeliner.Dict.{lookup, in_names}
use scenario_pipeliner.Task.State.{TaskState}
use scenario_pipeliner.Exec.Router.{
  StateClass, Typed, required_extra_fields, validate_state_classes, Router, promote_to, constructed,
  with_cancel_event, promote_task_state,
}

-- the class that a state has is the mapped one, or one that descends from it
abbrev pub Fits : StateClass → Typed → Type 0
Fits c t = (t.cls ≡ c) ⊎ (in_names c.name t.cls.ancestors ≡ true)

-- Every field of a state is copied.
all_copied : (s : TaskState) → with_cancel_event s (constructed s) ≡ s
unfolding constructed with_cancel_event
all_copied s = refl

promote_to_lem :
    (c : StateClass) (t u : Typed) → promote_to c t ≡ ok u → (u.state ≡ t.state) × Fits c u
unfolding promote_to
promote_to_lem c t u h = ground (arith, all_copied t.state)

-- A promotion that returns changes no field of the state, the cancel event included; where a class is mapped to the
-- scenario the result has that class or one that descends from it, and where none is the state is
-- returned as it was, and no pipeline is registered for the scenario.
pub promote_keeps :
    {F : Type 0} (router : Router F) (t u : Typed)
    → promote_task_state router t ≡ ok u
    → (u.state ≡ t.state)
      × (((c : StateClass) × (lookup t.state.scenario router.state_classes ≡ some c) × Fits c u)
          ⊎ ((u ≡ t)
              × (lookup t.state.scenario router.state_classes ≡ none)
              × (is_some (lookup t.state.scenario router.pipeline_factories) ≡ false)))
unfolding promote_task_state
promote_keeps router t u h = elim (Option-cases (lookup t.state.scenario router.state_classes)) [
  | inl e ↦
      let k : (if is_some (lookup t.state.scenario router.pipeline_factories)
            then err lookup_error
            else ok t)
          ≡ ok u =
        (rw (e, promote_task_state) at h) in
      elim (Bool-cases (is_some (lookup t.state.scenario router.pipeline_factories))) [
        | inl f ↦ absurd (ground arith)
        | inr f ↦ (ground arith, inr (ground arith, e, f))
      ]
  | inr (c, e) ↦
      let k : promote_to c t ≡ ok u = (rw (e, promote_task_state) at h) in
      let (same, fits) = promote_to_lem c t u k in (same, inl (c, e, fits))
]

-- A router that was constructed has no state class whose constructor needs more than TaskState gives.
pub validated_classes :
    (classes : List (String × StateClass))
    → validate_state_classes classes ≡ ok tt
    → All (λ c. required_extra_fields c.1.fields ≡ []) classes
unfolding validate_state_classes
validated_classes [] h = tt
validated_classes ((scenario, c) ∷ classes) h = ground (arith, validated_classes classes)

promote_to_class : (c : StateClass) (t : Typed) → promote_to c t ≢ err lookup_error
unfolding promote_to
promote_to_class c t h = ground arith

-- Where a scenario has a class just when it has a pipeline, no class is missed.
pub promote_finds_class :
    {F : Type 0} (router : Router F) (t : Typed)
    → is_some (lookup t.state.scenario router.pipeline_factories)
      ≡ is_some (lookup t.state.scenario router.state_classes)
    → promote_task_state router t ≢ err lookup_error
unfolding promote_task_state
promote_finds_class router t same failed =
    elim (Option-cases (lookup t.state.scenario router.state_classes)) [
      | inl e ↦
          let f : is_some (lookup t.state.scenario router.pipeline_factories) ≡ false =
            same ∙ ap is_some e in
          let g : (if is_some (lookup t.state.scenario router.pipeline_factories)
                then err lookup_error
                else ok t)
              ≡ err lookup_error =
            (rw (e, promote_task_state) at failed) in
          ground arith
      | inr (c, e) ↦
          let g : promote_task_state router t ≡ promote_to c t = rw (e, promote_task_state) refl in
          promote_to_class c t (sym g ∙ failed)
    ]
