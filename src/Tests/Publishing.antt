-- ===== src/Tests/Publishing.antt =====
-- A pass of the publisher on a small database.
use scenario_pipeliner.Broker.Outbox.{claim_candidates}
use scenario_pipeliner.Base.{◌≡◌, refl, true, false, none, some, List, [], ◌∷◌}
use scenario_pipeliner.Text.{String}
use scenario_pipeliner.Json.{Json}
use scenario_pipeliner.Db.Enums.{processing, finished}
use scenario_pipeliner.Db.Tables.{OutboxRow, Database, empty_database}
use scenario_pipeliner.Db.Tx.{ok, pure}
use scenario_pipeliner.Broker.Settings.{PluginBrokerSettings}
use scenario_pipeliner.Broker.Egress.{publish_pending_outbox}
use scenario_pipeliner.Broker.Egress.Pass.{Hook}
use scenario_pipeliner.Broker.Egress.Sent.{Sent}
use scenario_pipeliner.Tests.Tasks.{row}
use scenario_pipeliner.Tests.Messages.{pending_row, free}
use scenario_pipeliner.Tests.Runtime.{models}

-- a finished task whose reply is stored and waits to be sent
abbrev db : Database
db = record empty_database {
  tasks = row 5 finished none false ∷ [];
  ingress =
      record {
        id = 1;
        task_id = 5;
        plugin_name = "demo";
        scenario = "demo";
        ingress_queue = "in";
        message_id = "m";
        reply_to = none;
        content_type = none;
        headers = none;
        created_at = 1;
      }
      ∷ [];
  outbox = record pending_row { body = some (1 ∷ []); routing_queues = "out" ∷ [] } ∷ [];
  outbox_seq = 3;
}

-- a hook that has no reply
abbrev silent : Hook
silent t r i = pure none

abbrev hooks : List (String × Hook)
hooks = ("demo", silent) ∷ []

abbrev settings : List (String × PluginBrokerSettings)
settings =
    (
      "demo",
      record {
        enabled = true;
        input_queues = [];
        output_queues = "out" ∷ [];
        queue_bindings = [];
        stale_processing_minutes = 15;
        max_ingress_retries = 3;
      },
    )
    ∷ []

abbrev number : Json → String
number j = "5"

sends :
    (publish_pending_outbox models number hooks settings (λ q b h. pure tt) 10 7 free 20 db).0
    ≡ ok 1
unfolding publish_pending_outbox claim_candidates
sends = refl

abbrev sending : OutboxRow
sending = record pending_row {
  status = processing;
  claim_token = 1;
  body = some (1 ∷ []);
  routing_queues = "out" ∷ [];
}

abbrev claimed : Database
claimed = record db { outbox = sending ∷ [] }
