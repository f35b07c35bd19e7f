-- ===== src/Plugins/Registry/Laws.antt =====
-- The registry of manifests: one owner for each scenario and schema, and what production accepts.
use scenario_pipeliner.Base.{
  ◌≡◌, refl, ap, sym, subst, ◌∙◌, ◌⊎◌, inl, inr, true, false, Option, none, some, arith, Bool-cases,
}
use scenario_pipeliner.Text.{String, str_eq, eq_iff, eq_refl}
use scenario_pipeliner.Dict.{lookup, in_names, keys, lookup-put}
use scenario_pipeliner.Api.{Mode, prod, ok, is_wheel}
use scenario_pipeliner.Db.Tx.{Result, err}
use scenario_pipeliner.Plugins.Names.{plugin_schema_name}
use scenario_pipeliner.Plugins.Manifest.{PluginManifestV1, Host}
use scenario_pipeliner.Plugins.Checksum.{sha256_directory}
use scenario_pipeliner.Plugins.Registry.{
  PluginPath, PluginRegistryV1, empty_registry, named, RegistryRegisterResult,
  validate_scenario_collisions, taken_by_other, compare_checksum, actual_checksum,
  validate_checksum, register,
}
use scenario_pipeliner.Plugins.Registry.Cases.{
  no_collisions, lookup-own_scenarios, kind_guards, kind_read, Owns, Consistent, entered,
  register-cases, checked_manifest,
}

module _ (host : Host) where
  entered-own :
      (m : PluginManifestV1) (schema : String) (registry : PluginRegistryV1)
      → plugin_schema_name host.lower m.plugin_name ≡ Result.ok schema
      → Owns host (entered host m schema registry) m.plugin_name m
  entered-own m schema registry p = (
    refl,
    λ s i. lookup-own_scenarios m.plugin_name s m.scenarios registry.scenario_to_plugin ∙ rw i refl,
    (
      schema,
      p,
      lookup-put schema schema m.plugin_name registry.schema_to_plugin ∙ rw (eq_refl schema) refl,
    ),
  )

  entered-Consistent :
      (m : PluginManifestV1) (schema : String) (registry : PluginRegistryV1)
      → in_names m.plugin_name (keys registry.plugins) ≡ false
      → validate_scenario_collisions m.plugin_name m.scenarios registry.scenario_to_plugin
        ≡ Result.ok tt
      → plugin_schema_name host.lower m.plugin_name ≡ Result.ok schema
      → taken_by_other (lookup schema registry.schema_to_plugin) m.plugin_name ≡ false
      → Consistent host registry
      → Consistent host (entered host m schema registry)
  entered-Consistent m schema registry fresh free p t c name k h =
      let found = sym (lookup-put name m.plugin_name m registry.plugins) ∙ h in
      elim (Bool-cases (str_eq m.plugin_name name)) [
        | inl same ↦
            let k_is : m ≡ k = ground arith in
            subst (λ x. Owns host (entered host m schema registry) x k)
              ((eq_iff m.plugin_name name).0 same)
              (subst (λ x. Owns host (entered host m schema registry) m.plugin_name x) k_is
                (entered-own m schema registry p))
        | inr other ↦
            let before : lookup name registry.plugins ≡ some k = ground arith in
            let (named, own, (s, q, l)) = c name k before in
            (
              named,
              λ x i. ground (
                arith,
                lookup-own_scenarios m.plugin_name x m.scenarios registry.scenario_to_plugin,
                no_collisions m.plugin_name x m.scenarios registry.scenario_to_plugin,
                own x i,
              ),
              (
                s,
                q,
                lookup-put s schema m.plugin_name registry.schema_to_plugin
                    ∙ ground (
                      arith,
                      eq_iff schema s,
                      eq_iff name m.plugin_name,
                      eq_iff m.plugin_name name,
                    ),
              ),
            )
      ]

  -- A registration keeps the registry consistent: each plugin in it is filed under its own name and owns
  -- its scenarios and its schema. One that raises leaves the registry as it was.
  pub register-Consistent :
      (m : PluginManifestV1) (mode : Mode) (v : String) (path : Option PluginPath)
      (registry : PluginRegistryV1)
      → Consistent host registry
      → let (answer, after) = register host m mode v path registry in
        Consistent host after
        × ((after ≡ registry) ⊎ ((result : RegistryRegisterResult) × (answer ≡ Result.ok result)))
  register-Consistent m mode v path registry c = elim (register-cases host m mode v path registry) [
    | inl (e, a, same) ↦ (subst (Consistent host) (sym same) c, inl same)
    | inr (result, a, checked, (schema, p, t, is)) ↦
        let (fresh, _, free) = checked_manifest host m mode v path registry result checked in
        (
          subst (Consistent host) (sym is) (entered-Consistent m schema registry fresh free p t c),
          inr (result, a),
        )
  ]

  -- the registries that registrations lead to, those that raised included
  pub data Reaches : PluginRegistryV1 → Type 0 where
    start : Reaches empty_registry
    next :
        (m : PluginManifestV1) (mode : Mode) (v : String) (path : Option PluginPath)
        (registry : PluginRegistryV1)
        → Reaches registry
        → Reaches (register host m mode v path registry).1

  Reaches-Consistent : (registry : PluginRegistryV1) → Reaches registry → Consistent host registry
  unfolding lookup
  Reaches-Consistent _ start = λ name m h. cc
  Reaches-Consistent _ (next m mode v path registry r) =
      (register-Consistent m mode v path registry (Reaches-Consistent registry r)).0

  -- a scenario that both manifests list, or one schema for both names
  abbrev pub Clash : String → PluginManifestV1 → String → PluginManifestV1 → Type 0
  Clash n a k b =
      ((s : String) × (in_names s a.scenarios ≡ true) × (in_names s b.scenarios ≡ true))
      ⊎ ((s : String) × (plugin_schema_name host.lower n ≡ Result.ok s)
          × (plugin_schema_name host.lower k ≡ Result.ok s))

  -- In every registry that registrations lead to, two plugins that share a scenario or a schema are the
  -- same plugin.
  pub one_owner :
      (registry : PluginRegistryV1) (n k : String) (a b : PluginManifestV1)
      → Reaches registry
      → lookup n registry.plugins ≡ some a
      → lookup k registry.plugins ≡ some b
      → Clash n a k b
      → n ≡ k
  one_owner registry n k a b r f g clash =
      let (_, own_a, (s, p, l)) = Reaches-Consistent registry r n a f in
      let (_, own_b, (t, q, m)) = Reaches-Consistent registry r k b g in
      elim clash [
        | inl (x, i, j) ↦ ground (arith, own_a x i, own_b x j)
        | inr (x, i, j) ↦
            let u : s ≡ x = ground arith in
            let w : t ≡ x = ground arith in
            let l' : lookup x registry.schema_to_plugin ≡ some n = (rw u at l) in
            let m' : lookup x registry.schema_to_plugin ≡ some k = (rw w at m) in ground arith
      ]

  compared :
      (m : PluginManifestV1) (posix : String) (o : Option (Result String))
      (r : RegistryRegisterResult)
      → compare_checksum host m prod posix o ≡ Result.ok r
      → (o ≡ none) ⊎ ((o ≡ some (Result.ok m.checksum.value)) × (r.checksum_status ≡ ok))
  compared m posix none r h = inl refl
  compared m posix (some (err e)) r h = cc
  compared m posix (some (Result.ok actual)) r h =
      elim (Bool-cases (str_eq actual m.checksum.value)) [
        | inl e ↦
            inr (ap (λ x. some (Result.ok x)) ((eq_iff actual m.checksum.value).0 e), ground arith)
        | inr e ↦ absurd (ground arith)
      ]

  validated_checksum :
      (m : PluginManifestV1) (path : PluginPath) (r : RegistryRegisterResult)
      → validate_checksum host m prod (some path) ≡ Result.ok r
      → (actual_checksum host m path ≡ some (Result.ok m.checksum.value)) × (r.checksum_status ≡ ok)
  unfolding validate_checksum
  validated_checksum m path r h =
      let (compared_ok, kind) =
        kind_guards (is_wheel m.checksum.scope) path.is_file path.is_dir
          (compare_checksum host m prod path.posix (actual_checksum host m path)) _ _ r h in
      elim (compared m path.posix (actual_checksum host m path) r compared_ok) [
        | inl unread ↦ absurd (
            kind_read (is_wheel m.checksum.scope) path.is_file path.is_dir
              (Result.ok (host.sha256 path.content)) (sha256_directory host path.tree) kind unread)
        | inr same ↦ same
      ]

  -- What production registers from a path has the digest that its manifest names: that of the file, or of
  -- the directory.
  pub production_checksum :
      (m : PluginManifestV1) (v : String) (path : PluginPath) (registry : PluginRegistryV1)
      (result : RegistryRegisterResult)
      → (register host m prod v (some path) registry).0 ≡ Result.ok result
      → (actual_checksum host m path ≡ some (Result.ok m.checksum.value))
        × (result.checksum_status ≡ ok)
  production_checksum m v path registry result h =
      elim (register-cases host m prod v (some path) registry) [
        | inl (e, a, _) ↦ absurd (ground arith)
        | inr (r, a, checked, _) ↦
            let (_, sum, _) = checked_manifest host m prod v (some path) registry r checked in
            let same : r ≡ result = ground arith in
            subst
              (λ x.
                (actual_checksum host m path ≡ some (Result.ok m.checksum.value))
                × (x.checksum_status ≡ ok))
              same (validated_checksum m path r sum)
      ]
