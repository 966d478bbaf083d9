-- ===== src/Examples.antt =====
-- The data that the runs and the examples share: a small registry, step by step.
mod Runs
mod Store
mod Queries
mod Services
mod Closing
mod Handlers
mod Web
mod Sessions
mod Settings
mod Client
mod Pages
use go_prod_change_registry.Prelude.{Bool, [], ◌∷◌, none, some}
use go_prod_change_registry.Model.{UserIdentity, ChangeEvent, CreateChangeRequest, ListParams}
use go_prod_change_registry.Store.Tables.{Tables, EventRow}
use go_prod_change_registry.Service.Activity.{no_filter}

abbrev pub alice : UserIdentity
alice = record { name = "alice"; provider = "github"; subject = "github:1" }

abbrev pub empty : Tables
empty = record { events = []; tags = []; links = [] }

abbrev pub upgrade : ChangeEvent
upgrade = record {
  id = "e1";
  external_id = "x-1";
  parent_id = "";
  user_name = "alice";
  user_provider = "";
  user_subject = "";
  timestamp = 5_000_000_123;
  event_type = "maintenance";
  description = "db upgrade";
  long_description = "";
  links = record { label = "plan"; url = "https://wiki.example/plan" } ∷ [];
  tags = ("phase", "start") ∷ ("change_id", "c1") ∷ [];
  created_at = 5_000_000_456;
}

abbrev pub upgrade_again : ChangeEvent
upgrade_again = record upgrade { id = "e2"; user_name = "bob" }

abbrev pub deploy_row : EventRow
deploy_row = record {
  id = "d1";
  external_id = none;
  parent_id = none;
  user_name = "bob";
  user_provider = none;
  user_subject = none;
  timestamp = 2_000_000_000;
  event_type = "deployment";
  description = "api 1.2";
  long_description = "";
  created_at = 2_000_000_000;
}

abbrev pub alert_row : EventRow
alert_row = record deploy_row {
  id = "d2";
  parent_id = some "d1";
  event_type = "alert";
  description = "alert opened";
}

-- One deployment with a tag, on which an alert was opened.
abbrev pub registry : Tables
registry = record {
  events = alert_row ∷ deploy_row ∷ [];
  tags = record { event_id = "d1"; key = "team"; value = "api" } ∷ [];
  links = [];
}

abbrev pub start_request : CreateChangeRequest
start_request = record {
  parent_id = "";
  external_id = "x-1";
  user_name = "alice";
  user_provider = "";
  user_subject = "";
  timestamp = none;
  event_type = " Maintenance ";
  description = "db upgrade";
  long_description = "";
  links = record { label = "plan"; url = "https://wiki.example/plan?x=%20" } ∷ [];
  tags = ("phase", " start") ∷ ("change_id", "c1") ∷ ("severity", "SEV1") ∷ [];
}

abbrev pub alerted_api : ListParams
alerted_api = record no_filter {
  top_level = Bool.true;
  alerted_only = Bool.true;
  tags = ("team", "api") ∷ [];
}
