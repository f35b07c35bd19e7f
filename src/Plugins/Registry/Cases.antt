-- ===== src/Plugins/Registry/Cases.antt =====
-- How a registration ends: refused with nothing changed, or accepted with all its checks passed.
use scenario_pipeliner.Base.{
  ◌≡◌, refl, ◌∙◌, ◌⊎◌, ◌≢◌, inl, inr, Bool, true, false, not, ◌&&◌, ◌||◌, Option, none, some, List,
  [], ◌∷◌, if◌then◌else◌, arith, Bool-cases, Option-cases,
}
use scenario_pipeliner.Text.{String, eq_iff}
use scenario_pipeliner.Dict.{lookup, put, in_names, keys, lookup-put}
use scenario_pipeliner.Api.{Mode, plugin_name_conflict, plugin_schema_conflict}
use scenario_pipeliner.Db.Tx.{Exc, dry_run_error, Result, err, Result-cases}
use scenario_pipeliner.Plugins.Names.{plugin_schema_name}
use scenario_pipeliner.Plugins.Manifest.{PluginManifestV1, Host}
use scenario_pipeliner.Plugins.Registry.{
  PluginPath, PluginRegistryV1, concat_all, named, RegistryRegisterResult,
  validate_scenario_collisions, own_scenarios, taken_by_other, claim_plugin_identity,
  validate_checksum, check_manifest, register,
}

pub no_collisions :
    (n s : String) (scenarios : List String) (owners : List (String × String))
    → validate_scenario_collisions n scenarios owners ≡ Result.ok tt
    → in_names s scenarios ≡ true
    → lookup s owners ≡ none
unfolding validate_scenario_collisions
no_collisions n s [] owners h i = cc
no_collisions n s (x ∷ scenarios) owners h i = elim (Option-cases (lookup x owners)) [
  | inl e ↦ ground (arith, no_collisions n s scenarios owners, eq_iff x s)
  | inr (o, e) ↦ absurd (ground arith)
]

pub lookup-own_scenarios :
    (n s : String) (scenarios : List String) (owners : List (String × String))
    → lookup s (own_scenarios n scenarios owners)
      ≡ (if in_names s scenarios then some n else lookup s owners)
unfolding own_scenarios
lookup-own_scenarios n s [] owners = refl
lookup-own_scenarios n s (x ∷ scenarios) owners =
    lookup-own_scenarios n s scenarios (put x n owners)
    ∙ rw (lookup-put s x n owners) (ground arith)

-- Past the two guards on the kind of path, the path has the kind that the scope asks for, and is read.
pub kind_guards {ℓ} :
    {A : Type ℓ} (wheel file dir : Bool) (z : Result A) (e x : Exc) (r : A)
    → (if wheel && not file then err e else if not wheel && not dir then err x else z) ≡ Result.ok r
    → (z ≡ Result.ok r) × ((wheel && file || not wheel && dir) ≡ true)
kind_guards true true dir z e x r h = (h, refl)
kind_guards true false dir z e x r h = cc
kind_guards false file true z e x r h = (h, refl)
kind_guards false file false z e x r h = cc

pub kind_read {ℓ} :
    {A : Type ℓ} (wheel file dir : Bool) (a b : A)
    → (wheel && file || not wheel && dir) ≡ true
    → (if wheel && file then some a else if dir then some b else if file then some a else none)
      ≢ none
kind_read true true dir a b k h = cc
kind_read true false dir a b k h = cc
kind_read false file true a b k h = cc
kind_read false file false a b k h = cc

module _ (host : Host) where
  -- An identity is refused, and nothing is recorded, or it is recorded.
  claim-cases :
      (n : String) (seen : List String) (owners : List (String × String))
      → ((e : Exc) × (claim_plugin_identity host n (seen, owners) ≡ (err e, (seen, owners))))
        ⊎ ((schema : String) × (claim_plugin_identity host n (seen, owners)
              ≡ (Result.ok schema, (n ∷ seen, put schema n owners)))
            × (plugin_schema_name host.lower n ≡ Result.ok schema)
            × (taken_by_other (lookup schema owners) n ≡ false))
  unfolding claim_plugin_identity
  claim-cases n seen owners = elim (Bool-cases (in_names n seen)) [
    | inl i ↦ inl (
      dry_run_error plugin_name_conflict (concat_all ("duplicate plugin_name: " ∷ n ∷ [])),
      rw (i, claim_plugin_identity) refl,
    )
    | inr i ↦ elim (Result-cases (plugin_schema_name host.lower n)) [
      | inl (e, p) ↦ inl (e, rw (i, p, claim_plugin_identity) refl)
      | inr (schema, p) ↦ elim (Bool-cases (taken_by_other (lookup schema owners) n)) [
        | inl t ↦ inl (
          dry_run_error plugin_schema_conflict (
              concat_all (
                "plugin schema collision: "
                ∷ host.repr schema
                ∷ " for "
                ∷ host.repr (named (lookup schema owners))
                ∷ " and "
                ∷ host.repr n
                ∷ [])),
          rw (i, p, t, claim_plugin_identity) refl,
        )
        | inr t ↦ inr (schema, rw (i, p, t, claim_plugin_identity) refl, p, t)
      ]
    ]
  ]

  -- what the registry keeps of a plugin that is in it: the scenarios and the schema are its own
  abbrev pub Owns : PluginRegistryV1 → String → PluginManifestV1 → Type 0
  Owns registry name m =
      (m.plugin_name ≡ name)
      × ((s : String)
          → in_names s m.scenarios ≡ true
          → lookup s registry.scenario_to_plugin ≡ some name)
      × ((schema : String) × (plugin_schema_name host.lower name ≡ Result.ok schema)
          × (lookup schema registry.schema_to_plugin ≡ some name))

  abbrev pub Consistent : PluginRegistryV1 → Type 0
  Consistent registry =
      (name : String) (m : PluginManifestV1)
      → lookup name registry.plugins ≡ some m
      → Owns registry name m

  -- the registry after a manifest is entered
  abbrev pub entered : PluginManifestV1 → String → PluginRegistryV1 → PluginRegistryV1
  entered m schema registry = record {
    plugins = put m.plugin_name m registry.plugins;
    scenario_to_plugin = own_scenarios m.plugin_name m.scenarios registry.scenario_to_plugin;
    schema_to_plugin = put schema m.plugin_name registry.schema_to_plugin;
    plugin_names = m.plugin_name ∷ registry.plugin_names;
  }

  abbrev pub Accepted :
      PluginManifestV1 → PluginRegistryV1 → RegistryRegisterResult → PluginRegistryV1 → Type 0
  Accepted m registry result after =
      (schema : String) × (plugin_schema_name host.lower m.plugin_name ≡ Result.ok schema)
      × (taken_by_other (lookup schema registry.schema_to_plugin) m.plugin_name ≡ false)
      × (after ≡ entered m schema registry)

  -- A registration fails and leaves the registry as it was, or all its checks pass.
  pub register-cases :
      (m : PluginManifestV1) (mode : Mode) (v : String) (path : Option PluginPath)
      (registry : PluginRegistryV1)
      → let (answer, after) = register host m mode v path registry in
        ((e : Exc) × (answer ≡ err e) × (after ≡ registry))
        ⊎ ((result : RegistryRegisterResult) × (answer ≡ Result.ok result)
            × (check_manifest host m mode v path registry ≡ Result.ok result)
            × Accepted m registry result after)
  unfolding register claim_plugin_identity
  register-cases m mode v path registry =
      elim (Result-cases (check_manifest host m mode v path registry)) [
        | inl (e, c) ↦ inl (e, rw (c, register) refl, rw (c, register) refl)
        | inr (result, c) ↦
            elim (claim-cases m.plugin_name registry.plugin_names registry.schema_to_plugin) [
              | inl (e, q) ↦ inl (e, rw (c, q, register) refl, rw (c, q, register) refl)
              | inr (schema, q, p, t) ↦
                  inr
                    (result, rw (c, q, register) refl, c, (schema, p, t, rw (c, q, register) refl))
            ]
      ]

  -- The two ways in which a registration ends.
  pub register-outcome :
      (m : PluginManifestV1) (mode : Mode) (v : String) (path : Option PluginPath)
      (registry : PluginRegistryV1)
      → ((e : Exc) × (register host m mode v path registry ≡ (err e, registry)))
        ⊎ ((result : RegistryRegisterResult) × (after : PluginRegistryV1) × (register host m mode v
                path registry
              ≡ (Result.ok result, after)))
  register-outcome m mode v path registry = elim (register-cases m mode v path registry) [
    | inl (e, a, same) ↦ inl (e, λ i. (a i, same i))
    | inr (result, a, _, _) ↦ inr (
      result,
      (register host m mode v path registry).1,
      λ i. (a i, (register host m mode v path registry).1),
    )
  ]

  pub checked_manifest :
      (m : PluginManifestV1) (mode : Mode) (v : String) (path : Option PluginPath)
      (registry : PluginRegistryV1) (result : RegistryRegisterResult)
      → check_manifest host m mode v path registry ≡ Result.ok result
      → (in_names m.plugin_name (keys registry.plugins) ≡ false)
        × (validate_checksum host m mode path ≡ Result.ok result)
        × (validate_scenario_collisions m.plugin_name m.scenarios registry.scenario_to_plugin
            ≡ Result.ok tt)
  unfolding check_manifest
  checked_manifest m mode v path registry result h = ground arith
