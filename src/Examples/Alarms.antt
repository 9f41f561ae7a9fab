-- ===== src/Examples/Alarms.antt =====
-- Alarms of two nodes, a heartbeat and a removal: internal/store/store.go and internal/manager/api.go.
use distribute_storage_log_a.Prelude.{
  ℕ, ◌≡◌, ◌≤◌, refl, sym, ap, ◌∙◌, true, false, none, some, List, [], ◌∷◌, String, if◌then◌else◌,
  ◌==◌, arith,
}
use distribute_storage_log_a.Prelude.Int.{ℤ, pos}
use distribute_storage_log_a.Store.Bucket.{get, sum, Distinct}
use distribute_storage_log_a.Store.Keys.{KeyedBy}
use distribute_storage_log_a.Store.Db.{Db, StoredNode, Alarm}
use distribute_storage_log_a.Store.Alarms.{
  create_or_aggregate_alarm, resolve_alarm, first_alarm, find_active_alarm, is_active_of, is_open,
}
use distribute_storage_log_a.Store.Aggregation.{Kept, open_count}
use distribute_storage_log_a.Store.AlarmSteps.{still, next, raise, resolve, run_single}
use distribute_storage_log_a.Store.AlarmView.{
  view, raise_view, lower_view, create-refines, resolve-refines,
}
use distribute_storage_log_a.Nodes.{node_offline, handle_cluster_heartbeat}
use distribute_storage_log_a.Nodes.Removal.{handle_remove_node}
use distribute_storage_log_a.Nodes.Unique.{NodesKept, workers_at, heartbeat_unique}
use distribute_storage_log_a.Nodes.Away.{Heartbeat, HasId, after_heartbeats}
use distribute_storage_log_a.Nodes.Removed.{removed_stays_away}
use distribute_storage_log_a.Prelude.Text.{str_eq}
use distribute_storage_log_a.Store.Nodes.{is_node_decommissioned}
use distribute_storage_log_a.Sessions.{Server, Credentials}
use distribute_storage_log_a.AlarmCenter.{
  post, AlarmReport, report_request, item_request, serve_all, AlarmRequest,
}
use distribute_storage_log_a.AlarmCenter.Runs.{serve_all_single}

abbrev alarm_of : String → String → String → ℤ → Alarm
alarm_of id node_id status count = record {
  id = id;
  node_id = node_id;
  alarm_type = "NODE_OFFLINE";
  severity = "CRITICAL";
  title = "";
  message = "";
  status = status;
  count = count;
  first_occur_at = 1;
  last_occur_at = 1;
  resolved_at = 0;
}

abbrev node_of : String → ℕ → StoredNode
node_of id port = record {
  id = id;
  name = id;
  ip = "10.0.0.1";
  port = port;
  role = "worker";
  status = "online";
  disk_total_mb = 100;
  disk_used_mb = 10;
  disk_used_percent = 1000;
  storage_used_bytes = 0;
  disk_device = "";
  last_heartbeat = 5;
  joined_at = 1;
}

-- One node is reported as offline.
abbrev plant : Db
plant = record {
  users = [];
  archives = [];
  nodes = ("w1", node_of "w1" 8081) ∷ ("w2", node_of "w2" 8082) ∷ [];
  decommissioned = [];
  alarms = ("m1", alarm_of "m1" "w1" "active" (pos 3)) ∷ [];
  report_files = [];
  reports = [];
  retention_config = none;
}

abbrev numbered : ℕ → String → String
numbered t kind = if t == 2 then "m2" else "m3"

abbrev again : Alarm
again = alarm_of "" "w1" "" (pos 0)

plant-Kept : Kept plant
unfolding Kept Distinct KeyedBy get
plant-Kept = ((refl, tt), (refl, tt))

plant_single : open_count "w1" node_offline plant ≤ 1
unfolding open_count sum is_active_of is_open
plant_single = omega arith

abbrev reported : Db
reported = (create_or_aggregate_alarm numbered 2000000 again plant).1

abbrev recovered : Db
recovered = (resolve_alarm 3 "w1" node_offline reported).1

run_single_example : open_count "w1" node_offline recovered ≤ 1
run_single_example =
    run_single "w1" node_offline plant recovered
      (next plant reported recovered (raise numbered 2000000 again plant) (
        next reported recovered recovered (resolve 3 "w1" node_offline reported) (still recovered)))
      plant-Kept plant_single

create-refines_example :
    view (create_or_aggregate_alarm numbered 2000000 again plant).1
    ≡ raise_view "w1" "NODE_OFFLINE" (pos 0) (view plant)
unfolding first_alarm get
create-refines_example =
    create-refines numbered 2000000 again plant plant-Kept plant_single refl refl

resolve-refines_example :
    view (resolve_alarm 3 "w1" node_offline plant).1 ≡ lower_view "w1" node_offline (view plant)
resolve-refines_example = resolve-refines 3 "w1" node_offline plant plant-Kept plant_single

plant-NodesKept : NodesKept plant
unfolding NodesKept Distinct KeyedBy get
plant-NodesKept = ((refl, (refl, tt)), (refl, (refl, tt)))

plant_workers : workers_at "10.0.0.1" 8081 plant ≤ 1
unfolding workers_at sum
plant_workers = omega arith

abbrev keyed_by_address : String → ℕ → String
keyed_by_address ip port = ip

-- The node comes back under another id.
heartbeat_unique_example :
    workers_at "10.0.0.1" 8081
      (handle_cluster_heartbeat keyed_by_address 9 true true (some (node_of "w3" 8081)) plant).1
    ≤ 1
heartbeat_unique_example =
    heartbeat_unique keyed_by_address 9 true true (some (node_of "w3" 8081)) "10.0.0.1" 8081 plant
      plant-NodesKept plant_workers

plant_nodes : Distinct plant.nodes
unfolding Distinct get
plant_nodes = (refl, (refl, tt))

abbrev beat_of : ℕ → StoredNode → Heartbeat
beat_of now node = record { now = now; is_post = true; token_matches = true; body = some node }

-- The removed node reports twice, and another node in between.
abbrev beats : List Heartbeat
beats =
    beat_of 10 (node_of "w1" 8081)
    ∷ beat_of 11 (node_of "w2" 8082)
    ∷ beat_of 12 (node_of "w1" 8081)
    ∷ []

named_by : (now : ℕ) (node : StoredNode) → str_eq node.id "" ≡ false → HasId (beat_of now node)
named_by now node named n e =
    let same : node ≡ n = cc e in ap (λ (x : StoredNode). str_eq x.id "") (sym same) ∙ named

removed_stays_away_example :
    let after = (handle_remove_node (λ a. none) 9 "retain" "" "w1" plant).1 in
    let later = after_heartbeats keyed_by_address beats after in
    (find_active_alarm "w1" node_offline after ≡ none)
    × ((get "w1" later.nodes ≡ none) × (is_node_decommissioned "w1" later ≡ true))
unfolding get
removed_stays_away_example =
    removed_stays_away (λ a. none) 9 "retain" "" "w1" (node_of "w1" 8081) plant keyed_by_address
      beats refl refl plant_nodes plant-Kept plant_single
      (
        named_by 10 (node_of "w1" 8081) refl,
        (named_by 11 (node_of "w2" 8082) refl, (named_by 12 (node_of "w1" 8081) refl, tt)),
      )

-- An administrator, and the plant.
abbrev control : Server
control = record {
  db = record plant {
    users =
        (
          "admin",
          record {
            username = "admin";
            password_hash = "secret";
            role = "admin";
            space_quota_bytes = pos 0;
            used_storage_bytes = 0;
            status = "active";
            updated_at = 0;
          },
        )
        ∷ [];
  };
  sessions = ("t1", "admin") ∷ [];
}

abbrev report_with : String → AlarmReport
report_with action = record {
  node_id = "w1";
  alarm_type = "NODE_OFFLINE";
  severity = "CRITICAL";
  title = "";
  message = "";
  action = action;
}

abbrev admin_session : Credentials
admin_session = record { bearer = "t1"; cookie = none; query = "" }

-- A report, an acknowledgement, a recovery and another report.
abbrev day : List (ℕ × AlarmRequest)
day =
    (2000000, report_request post true (some (report_with "report")))
    ∷ (3000000, item_request post admin_session ("m1" ∷ "ack" ∷ []))
    ∷ (4000000, report_request post true (some (report_with "resolve")))
    ∷ (5000000, report_request post true (some (report_with "report")))
    ∷ []

control-Kept : Kept control.db
unfolding Kept Distinct KeyedBy get
control-Kept = ((refl, tt), (refl, tt))

control_single : open_count "w1" node_offline control.db ≤ 1
unfolding open_count sum is_active_of is_open
control_single = omega arith

serve_all_single_example : open_count "w1" node_offline (serve_all numbered day control).db ≤ 1
serve_all_single_example =
    serve_all_single numbered day "w1" node_offline control control-Kept control_single
