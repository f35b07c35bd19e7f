-- ===== src/Broker/Runner.antt =====
-- worker/broker/runner.py: who consumes which queue, and the hooks that fill in a scenario.
pub mod Laws
use scenario_pipeliner.Base.{
  ℕ, zero, suc, ◌+◌, Bool, true, false, not, ◌&&◌, ◌||◌, ◌==◌, Option, none, some, List, [], ◌∷◌,
  if◌then◌else◌, leb,
}
use scenario_pipeliner.Text.{String, str_eq, strip, is_empty}
use scenario_pipeliner.Json.{Json, null, Fields, end, field}
use scenario_pipeliner.Dict.{lookup, put}
use scenario_pipeliner.Db.Tables.{Database}
use scenario_pipeliner.Db.Tx.{Exc, value_error, Result, ok, err, Tx, ◌>>=◌, pure}
use scenario_pipeliner.Broker.Settings.{PluginBrokerSettings, resolve_scenario, TaskDraft}
use scenario_pipeliner.Broker.Ingress.{Signal, nack}

-- a plugin's binding; its hooks stand in `draft_for_queue` as the draft they answer
pub record BrokerPluginBinding : Type 0 where
  pub plugin_name : String
  pub settings : PluginBrokerSettings
  pub scenarios : List String

abbrev pub Owners : Type 0
Owners = List (String × BrokerPluginBinding)

-- [item for item in bindings if item.settings.enabled]
unfoldable pub enabled_bindings : List BrokerPluginBinding → List BrokerPluginBinding
enabled_bindings [] = []
enabled_bindings (b ∷ bindings) =
    let rest = enabled_bindings bindings in if b.settings.enabled then b ∷ rest else rest

abbrev pub is_other : Option BrokerPluginBinding → BrokerPluginBinding → Bool
is_other none b = false
is_other (some owner) b = not (str_eq owner.plugin_name b.plugin_name)

-- the inner loop of _queue_owners
unfoldable pub claim_queues : BrokerPluginBinding → List String → Owners → Result Owners
unfolding lookup put
claim_queues b [] owners = ok owners
claim_queues b (queue ∷ queues) owners =
    let rest = claim_queues b queues (put queue b owners) in
    if is_other (lookup queue owners) b then err value_error else rest

abbrev pub then_claim : Result Owners → (Owners → Result Owners) → Result Owners
then_claim (ok owners) f = f owners
then_claim (err e) f = err e

-- the outer loop
unfoldable pub claim_bindings : List BrokerPluginBinding → Owners → Result Owners
unfolding claim_queues
claim_bindings [] owners = ok owners
claim_bindings (b ∷ bindings) owners =
    then_claim (claim_queues b b.settings.input_queues owners) (claim_bindings bindings)

-- _queue_owners of the bindings that the constructor keeps
unfoldable pub queue_owners : List BrokerPluginBinding → Result Owners
unfolding claim_bindings enabled_bindings
queue_owners bindings = claim_bindings (enabled_bindings bindings) []

abbrev is_single : List String → Bool
is_single (s ∷ []) = true
is_single _ = false

abbrev fallback : List String → Option String
fallback (s ∷ []) = some s
fallback _ = none

abbrev has_bindings : PluginBrokerSettings → Bool
has_bindings settings = elim settings.queue_bindings [ [] ↦ false | _ ∷ _ ↦ true ]

abbrev filled : TaskDraft → Result String → Result TaskDraft
filled draft (ok scenario) = ok (record draft { scenario = scenario })
filled draft (err e) = err e

-- _ScenarioEnsuringHooks.on_ingress, past the plugin's own hook
unfoldable pub ensure_scenario : BrokerPluginBinding → String → TaskDraft → Result TaskDraft
unfolding resolve_scenario strip
ensure_scenario b queue draft =
    if not (is_empty (strip draft.scenario))
    then ok draft
    else filled draft (resolve_scenario b.settings queue (fallback b.scenarios))

-- _hooks_for_queue: what becomes of the plugin's draft
unfoldable pub draft_for_queue : BrokerPluginBinding → String → TaskDraft → Result TaskDraft
unfolding ensure_scenario
draft_for_queue b queue draft =
    if has_bindings b.settings || is_single b.scenarios
    then ensure_scenario b queue draft
    else ok draft
