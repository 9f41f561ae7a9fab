-- ===== src/Ha/Quorum.antt =====
-- The checks against a split brain: internal/manager/ha_quorum.go.

use distribute_storage_log_a.Prelude.{
  ℕ, ◌/◌, Bool, true, false, not, ◌&&◌, Option, none, some, List, [], String, if◌then◌else◌, ltb,
  ◌==◌, length, filter,
}
use distribute_storage_log_a.Prelude.Text.{str_eq}
use distribute_storage_log_a.Ha.{
  Node, World, BlockedReason, no_reason, gateway_unreachable, no_worker_majority, is_empty,
}

-- The registered nodes; `none` where there is no store or it fails.
abbrev pub Nodes : Type 0
Nodes = Option (List Node)

abbrev pub is_worker : Node → Bool
is_worker n = str_eq n.role "worker"

pub record Quorum : Type 0 where
  pub total : ℕ
  pub online : ℕ
  pub passed : Bool

unfoldable pub workers : Nodes → List Node
workers none = []
workers (some nodes) = filter is_worker nodes

-- `CheckWorkerQuorum`: each worker is probed once, in any order, and the answers are counted.
unfoldable pub check_worker_quorum : World → Nodes → Quorum
check_worker_quorum w nodes =
    let total = length (workers nodes) in
    let online = length (filter w.healthy (workers nodes)) in
    if total == 0
    then record { total = 0; online = 0; passed = true }
    else record { total = total; online = online; passed = ltb (total / 2) online }

-- What `CheckSplitBrainSafety` returns.
pub record Safety : Type 0 where
  pub safe : Bool
  pub reason : BlockedReason
  pub gateway_online : Bool
  pub total : ℕ
  pub online : ℕ

unfoldable pub check_workers : World → Bool → Nodes → Safety
check_workers w false nodes = record {
  safe = true;
  reason = no_reason;
  gateway_online = true;
  total = 0;
  online = 0;
}
check_workers w true nodes =
    let q = check_worker_quorum w nodes in
    let refused = ltb 0 q.total && not q.passed in
    record {
      safe = not refused;
      reason = if refused then no_worker_majority q.online q.total else no_reason;
      gateway_online = true;
      total = q.total;
      online = q.online;
    }

abbrev pub target_gateway : World → String → String
target_gateway w gateway = if is_empty gateway then w.default_gateway else gateway

-- The gateway first, where it is checked and known, then the workers.
unfoldable pub check_split_brain_safety : World → String → Bool → Bool → Nodes → Safety
check_split_brain_safety w gateway enable_gateway enable_quorum nodes =
    let target = target_gateway w gateway in
    if enable_gateway && not (is_empty target) && not (w.ping target)
    then record {
      safe = false;
      reason = gateway_unreachable target;
      gateway_online = false;
      total = 0;
      online = 0;
    }
    else check_workers w enable_quorum nodes
