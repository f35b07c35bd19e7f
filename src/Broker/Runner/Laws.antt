-- ===== src/Broker/Runner/Laws.antt =====
-- Who consumes a queue once the bindings are accepted.
use scenario_pipeliner.Base.{
  ◌≡◌, refl, ap, sym, ◌∙◌, inl, inr, true, false, some, List, [], ◌∷◌, ◌++◌, arith, Bool-cases,
  subst,
}
use scenario_pipeliner.Text.{String, str_eq, eq_iff}
use scenario_pipeliner.Dict.{lookup, put, in_names, lookup-put}
use scenario_pipeliner.Db.Tx.{ok, Result-cases}
use scenario_pipeliner.Broker.Runner.{
  BrokerPluginBinding, Owners, is_other, claim_queues, then_claim, claim_bindings, enabled_bindings,
  queue_owners,
}

-- the queue has an owner, and its plugin has this name
unfoldable pub OwnedBy : String → String → Owners → Type 0
OwnedBy queue plugin owners =
    (o : BrokerPluginBinding) × (lookup queue owners ≡ some o) × (o.plugin_name ≡ plugin)

same_owner :
    (o b : BrokerPluginBinding) → is_other (some o) b ≡ false → o.plugin_name ≡ b.plugin_name
same_owner o b h = ground (arith, eq_iff o.plugin_name b.plugin_name)

-- An entry of a binding that the guard lets through keeps the plugin of every queue.
claim_keeps :
    (q p queue : String) (b : BrokerPluginBinding) (owners : Owners)
    → is_other (lookup queue owners) b ≡ false
    → OwnedBy q p owners
    → OwnedBy q p (put queue b owners)
unfolding OwnedBy
claim_keeps q p queue b owners free (o, found, named) = elim (Bool-cases (str_eq queue q)) [
  | inl same ↦
      let at_queue : lookup queue owners ≡ some o =
        ap (λ x. lookup x owners) ((eq_iff queue q).0 same) ∙ found in
      (
        b,
        lookup-put q queue b owners ∙ rw same refl,
        sym (same_owner o b (sym (ap (λ x. is_other x b) at_queue) ∙ free)) ∙ named,
      )
  | inr other ↦ (o, lookup-put q queue b owners ∙ rw other found, named)
]

claim_queues_keeps :
    (q p : String) (b : BrokerPluginBinding) (queues : List String) (owners owned : Owners)
    → claim_queues b queues owners ≡ ok owned
    → OwnedBy q p owners
    → OwnedBy q p owned
unfolding claim_queues
claim_queues_keeps q p b [] owners owned h o =
    let same : owners ≡ owned = ground arith in subst (λ x. OwnedBy q p x) same o
claim_queues_keeps q p b (queue ∷ queues) owners owned h o =
    let entered = put queue b owners in
    let free : is_other (lookup queue owners) b ≡ false = ground arith in
    let rest : claim_queues b queues entered ≡ ok owned = ground arith in
    claim_queues_keeps q p b queues entered owned rest (claim_keeps q p queue b owners free o)

claim_queues_owns :
    (q : String) (b : BrokerPluginBinding) (queues : List String) (owners owned : Owners)
    → claim_queues b queues owners ≡ ok owned
    → in_names q queues ≡ true
    → OwnedBy q b.plugin_name owned
unfolding claim_queues OwnedBy
claim_queues_owns q b [] owners owned h i = ground arith
claim_queues_owns q b (queue ∷ queues) owners owned h i =
    let entered = put queue b owners in
    let free : claim_queues b queues entered ≡ ok owned = ground arith in
    elim (Bool-cases (str_eq queue q)) [
      | inl same ↦
          claim_queues_keeps q b.plugin_name b queues entered owned free
            (b, lookup-put q queue b owners ∙ rw same refl, refl)
      | inr other ↦ claim_queues_owns q b queues entered owned free (ground arith)
    ]

claim_bindings_keeps :
    (q p : String) (bindings : List BrokerPluginBinding) (owners owned : Owners)
    → claim_bindings bindings owners ≡ ok owned
    → OwnedBy q p owners
    → OwnedBy q p owned
unfolding claim_bindings
claim_bindings_keeps q p [] owners owned h o =
    let same : owners ≡ owned = ground arith in subst (λ x. OwnedBy q p x) same o
claim_bindings_keeps q p (b ∷ bindings) owners owned h o =
    elim (Result-cases (claim_queues b b.settings.input_queues owners)) [
      | inl (e, raised) ↦ ground arith
      | inr (claimed, c) ↦
          claim_bindings_keeps q p bindings claimed owned
            (ap (λ x. then_claim x (claim_bindings bindings)) (sym c) ∙ h)
            (claim_queues_keeps q p b b.settings.input_queues owners claimed c o)
    ]

-- A binding that claims its queues before the others owns them in the end.
claim_bindings_head :
    (q : String) (b : BrokerPluginBinding) (bindings : List BrokerPluginBinding)
    (owners owned : Owners)
    → claim_bindings (b ∷ bindings) owners ≡ ok owned
    → in_names q b.settings.input_queues ≡ true
    → OwnedBy q b.plugin_name owned
unfolding claim_bindings
claim_bindings_head q b bindings owners owned h i =
    elim (Result-cases (claim_queues b b.settings.input_queues owners)) [
      | inl (e, raised) ↦ ground arith
      | inr (claimed, c) ↦
          claim_bindings_keeps q b.plugin_name bindings claimed owned
            (ap (λ x. then_claim x (claim_bindings bindings)) (sym c) ∙ h)
            (claim_queues_owns q b b.settings.input_queues owners claimed c i)
    ]

-- What follows an accepted binding is accepted from the queues it claimed.
claim_bindings_tail :
    (b : BrokerPluginBinding) (bindings : List BrokerPluginBinding) (owners owned : Owners)
    → claim_bindings (b ∷ bindings) owners ≡ ok owned
    → (claimed : Owners) × (claim_bindings bindings claimed ≡ ok owned)
unfolding claim_bindings
claim_bindings_tail b bindings owners owned h =
    elim (Result-cases (claim_queues b b.settings.input_queues owners)) [
      | inl (e, raised) ↦ ground arith
      | inr (claimed, c) ↦ (claimed, ap (λ x. then_claim x (claim_bindings bindings)) (sym c) ∙ h)
    ]

enabled_bindings_head :
    (b : BrokerPluginBinding) (bindings : List BrokerPluginBinding)
    → b.settings.enabled ≡ true
    → enabled_bindings (b ∷ bindings) ≡ b ∷ enabled_bindings bindings
unfolding enabled_bindings
enabled_bindings_head b bindings h = rw h refl

enabled_bindings_skip :
    (b : BrokerPluginBinding) (bindings : List BrokerPluginBinding)
    → b.settings.enabled ≡ false
    → enabled_bindings (b ∷ bindings) ≡ enabled_bindings bindings
unfolding enabled_bindings
enabled_bindings_skip b bindings h = rw h refl

owned_after :
    (before after : List BrokerPluginBinding) (b : BrokerPluginBinding) (q : String)
    (owners owned : Owners)
    → claim_bindings (enabled_bindings (before ++ b ∷ after)) owners ≡ ok owned
    → b.settings.enabled ≡ true
    → in_names q b.settings.input_queues ≡ true
    → OwnedBy q b.plugin_name owned
owned_after [] after b q owners owned h on i =
    claim_bindings_head q b (enabled_bindings after) owners owned
      (ap (λ x. claim_bindings x owners) (sym (enabled_bindings_head b after on)) ∙ h) i
owned_after (c ∷ before) after b q owners owned h on i =
    let rest = before ++ b ∷ after in
    elim (Bool-cases c.settings.enabled) [
      | inl kept ↦
          let (claimed, t) =
            claim_bindings_tail c (enabled_bindings rest) owners owned
              (ap (λ x. claim_bindings x owners) (sym (enabled_bindings_head c rest kept)) ∙ h) in
          owned_after before after b q claimed owned t on i
      | inr off ↦
          owned_after before after b q owners owned
            (ap (λ x. claim_bindings x owners) (sym (enabled_bindings_skip c rest off)) ∙ h) on i
    ]

-- When the runner starts with its queues accepted, each input queue of each enabled binding, wherever the
-- binding stands in the list, has a consumer of that binding's own plugin.
pub queue_owners_lem :
    (before after : List BrokerPluginBinding) (b : BrokerPluginBinding) (q : String)
    (owned : Owners)
    → queue_owners (before ++ b ∷ after) ≡ ok owned
    → b.settings.enabled ≡ true
    → in_names q b.settings.input_queues ≡ true
    → OwnedBy q b.plugin_name owned
unfolding queue_owners
queue_owners_lem before after b q owned h on i = owned_after before after b q [] owned h on i
