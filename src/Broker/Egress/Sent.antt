-- ===== src/Broker/Egress/Sent.antt =====
-- A reply that counts as sent has been published.
use scenario_pipeliner.Base.{ℕ, ◌≡◌, ◌⊎◌, Option, none, some, List, All}
use scenario_pipeliner.Text.{String}
use scenario_pipeliner.Json.{Json, Fields}
use scenario_pipeliner.Db.Tables.{OutboxRow, Database}
use scenario_pipeliner.Db.Tx.{ok, Tx}
use scenario_pipeliner.Task.Rows.{Models}
use scenario_pipeliner.Dict.{lookup}
use scenario_pipeliner.Broker.Settings.{
  PluginBrokerSettings, ReplyDraft, TaskRowView, ResultRowView, BrokerIngressView,
}
use scenario_pipeliner.Broker.Egress.{resolve_routing_queues}

abbrev Done : {A : Type 0} → Tx A → A → Type 0
Done m a = (db db' : Database) × (m db ≡ (ok a, db'))

module _ (publish : String → List ℕ → Fields → Tx (Unit {0})) where
  -- the callback has been called with the queue, the body and the headers, and returned
  abbrev pub Published : List ℕ → Fields → String → Type 0
  Published body headers queue =
      (db db' : Database) × (publish queue body headers db ≡ (ok tt, db'))

module _ (models : Models) (str_of : Json → String)
    (on_egress : List
      (String × (TaskRowView → Option ResultRowView → BrokerIngressView → Tx (Option ReplyDraft))))
    (settings_by_plugin : List (String × PluginBrokerSettings))
    (publish : String → List ℕ → Fields → Tx (Unit {0})) (max_attempts now : ℕ) where
  -- the reply is what the hook of the plugin has answered, and goes to the queues that are resolved for it
  pub record Drafted (body : List ℕ) (queues : List String) : Type 0 where
    pub task : TaskRowView
    pub result : Option ResultRowView
    pub ingress : BrokerIngressView
    pub settings : PluginBrokerSettings
    pub draft : ReplyDraft
    pub hook : TaskRowView → Option ResultRowView → BrokerIngressView → Tx (Option ReplyDraft)
    pub is_hook : lookup ingress.plugin_name on_egress ≡ some hook
    pub is_settings : lookup ingress.plugin_name settings_by_plugin ≡ some settings
    pub answered : Done (hook task result ingress) (some draft)
    pub is_body : body ≡ draft.body
    pub is_queues :
        queues ≡ resolve_routing_queues draft.routing_queues ingress.reply_to settings.output_queues

  -- the reply that is stored in the row, or else one that the hook answers
  abbrev pub Reply : OutboxRow → List ℕ → List String → Type 0
  Reply row body queues =
      ((row.body ≡ some body) × (queues ≡ row.routing_queues))
      ⊎ ((row.body ≡ none) × Drafted body queues)

  abbrev pub Sent : OutboxRow → Type 0
  Sent row =
      (body : List ℕ) × (queues : List String) × (headers : Fields) × Reply row body queues
      × All (Published publish body headers) queues
