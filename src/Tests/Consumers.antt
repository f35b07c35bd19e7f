-- ===== src/Tests/Consumers.antt =====
-- Bindings of three plugins, one of them disabled.
use scenario_pipeliner.Base.{◌≡◌, refl, true, false, [], ◌∷◌}
use scenario_pipeliner.Db.Tx.{ok, err, value_error}
use scenario_pipeliner.Broker.Settings.{PluginBrokerSettings}
use scenario_pipeliner.Broker.Runner.{BrokerPluginBinding, Owners, queue_owners}
use scenario_pipeliner.Broker.Runner.Laws.{OwnedBy, queue_owners_lem}

abbrev settings : PluginBrokerSettings
settings = record {
  enabled = true;
  input_queues = "letters" ∷ "parcels" ∷ [];
  output_queues = [];
  queue_bindings = [];
  stale_processing_minutes = 15;
  max_ingress_retries = 3;
}

abbrev mail : BrokerPluginBinding
mail = record { plugin_name = "mail"; settings = settings; scenarios = "send" ∷ [] }

abbrev silent : BrokerPluginBinding
silent = record mail { plugin_name = "silent"; settings = record settings { enabled = false } }

abbrev bills : BrokerPluginBinding
bills = record mail {
  plugin_name = "bills";
  settings = record settings { input_queues = "invoices" ∷ [] };
}

abbrev owned : Owners
owned = ("letters", mail) ∷ ("parcels", mail) ∷ ("invoices", bills) ∷ []

owners_of_three : queue_owners (mail ∷ silent ∷ bills ∷ []) ≡ ok owned
unfolding queue_owners
owners_of_three = refl

claimed_by_two : queue_owners (mail ∷ record silent { settings = settings } ∷ []) ≡ err value_error
unfolding queue_owners
claimed_by_two = refl

queue_owners_lem_example : OwnedBy "invoices" "bills" owned
unfolding queue_owners
queue_owners_lem_example =
    queue_owners_lem (mail ∷ silent ∷ []) [] bills "invoices" owned refl refl refl
