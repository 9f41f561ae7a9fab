-- ===== src/Ha/Switchover.antt =====
-- The planned change of roles: `PromoteToActive`, `DemoteToStandby` and `Switchover` of
-- internal/manager/ha.go, and the handlers of internal/manager/api.go that the peer calls.
use distribute_storage_log_a.Prelude.{◌+◌, ◌&&◌, Bool, not, String, if◌then◌else◌}
use distribute_storage_log_a.Prelude.Text.{str_eq}
use distribute_storage_log_a.Ha.{
  HaManager, Role, active, standby, is_active, World, bind_vip, release_vip,
}

unfoldable pub promote_to_active : World → HaManager → HaManager
promote_to_active w h =
    if is_active h.role
    then h
    else bind_vip w (record h { role = active; failover_count = h.failover_count + 1 })

unfoldable pub demote_to_standby : World → HaManager → HaManager
demote_to_standby w h = if is_active h.role then release_vip w (record h { role = standby }) else h

-- `handleHAHeartbeat` answers with the role's name; a request with no token is answered too.
abbrev pub role_name : Role → String
role_name active = "active"
role_name standby = "standby"

pub data Status : Type 0 where
  ok : Status
  method_not_allowed : Status
  unauthorized : Status

unfoldable pub handle_heartbeat :
    (method token cluster_token : String) → HaManager → Status × String
handle_heartbeat method token cluster_token h =
    if not (str_eq method "GET") && not (str_eq method "POST")
    then (method_not_allowed, "")
    else if not (str_eq token "") && not (str_eq token cluster_token)
    then (unauthorized, "")
    else (ok, role_name h.role)

-- `handleHAPromote` and `handleHADemote`.
unfoldable pub handle_promote :
    World → (method token cluster_token : String) → HaManager → Status × HaManager
handle_promote w method token cluster_token h =
    if not (str_eq method "POST")
    then (method_not_allowed, h)
    else if not (str_eq token cluster_token)
    then (unauthorized, h)
    else (ok, promote_to_active w h)

unfoldable pub handle_demote :
    World → (method token cluster_token : String) → HaManager → Status × HaManager
handle_demote w method token cluster_token h =
    if not (str_eq method "POST")
    then (method_not_allowed, h)
    else if not (str_eq token cluster_token)
    then (unauthorized, h)
    else (ok, demote_to_standby w h)

pub data SwitchoverResult : Type 0 where
  switched : SwitchoverResult
  standalone : SwitchoverResult
  peer_offline : SwitchoverResult
  peer_refused : SwitchoverResult

-- What is asked of the peer.
pub data Request : Type 0 where
  ask_promote : Request
  ask_demote : Request

-- `Switchover`: `ask` is the request to the peer, `true` where the answer 200 has arrived.
unfoldable pub switchover : World → (Request → Bool) → HaManager → SwitchoverResult × HaManager
switchover w ask h =
    if str_eq h.mode "standalone"
    then (standalone, h)
    else if not h.peer_online
    then (peer_offline, h)
    else if is_active h.role
    then (if ask ask_promote then (switched, demote_to_standby w h) else (peer_refused, h))
    else (if ask ask_demote then (switched, promote_to_active w h) else (peer_refused, h))
