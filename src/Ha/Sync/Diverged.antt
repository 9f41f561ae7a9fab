-- ===== src/Ha/Sync/Diverged.antt =====
-- What a standby that was active for a while keeps of its own writes: PromoteToActive and
-- DemoteToStandby of internal/manager/ha.go between synchronisations of Sync.antt.
use distribute_storage_log_a.Prelude.{
  ℕ, ◌≡◌, ◌<◌, refl, ap, ◌∙◌, true, false, Option, some, String, ltb, ◌==◌, arith,
}
use distribute_storage_log_a.Prelude.Text.{eq_refl}
use distribute_storage_log_a.Ha.{HaManager, World, standby, active, is_empty, bind_vip, release_vip}
use distribute_storage_log_a.Ha.Switchover.{promote_to_active, demote_to_standby}
use distribute_storage_log_a.Ha.Sync.{
  synced, Reply, SyncEngine, Bolt, handle_snapshot, take_reply, sync_once, sync_once-standby,
}

promote-role :
    (w : World) (h : HaManager) → h.role ≡ standby → (promote_to_active w h).role ≡ active
unfolding promote_to_active bind_vip
promote-role w h r = ground (arith, r)

promote-peer_url : (w : World) (h : HaManager) → (promote_to_active w h).peer_url ≡ h.peer_url
unfolding promote_to_active bind_vip
promote-peer_url w h = ground arith

demote-role : (w : World) (h : HaManager) → h.role ≡ active → (demote_to_standby w h).role ≡ standby
unfolding demote_to_standby release_vip
demote-role w h r = ground (arith, r)

demote-peer_url : (w : World) (h : HaManager) → (demote_to_standby w h).peer_url ≡ h.peer_url
unfolding demote_to_standby release_vip
demote-peer_url w h = ground arith

module _ {Db : Type 0} (bolt : Bolt Db) (token : String) (peer : Db) where
  -- The peer's answer, with its token.
  abbrev pub ask_peer : Option ℕ → Reply Db
  ask_peer known = handle_snapshot bolt "GET" token token known peer peer

  first_copy :
      (tx now : ℕ) (h : HaManager) (e : SyncEngine Db)
      → h.role ≡ standby
      → is_empty h.peer_url ≡ false
      → bolt.current_tx_id peer ≡ some tx
      → bolt.reloads peer ≡ true
      → e.last_tx_id ≡ 0
      → let e' = sync_once bolt ask_peer now h e in (e'.db ≡ peer) × (e'.last_tx_id ≡ tx)
  unfolding handle_snapshot take_reply
  first_copy tx now h e r p at ok new =
      let unknown : ltb 0 e.last_tx_id ≡ false = ground (arith, new) in
      rw (sync_once-standby bolt ask_peer now h e r p)
        (rw (unknown, eq_refl token, at, ok) (refl, refl))

  unchanged_number :
      (tx now : ℕ) (h : HaManager) (e : SyncEngine Db)
      → h.role ≡ standby
      → is_empty h.peer_url ≡ false
      → bolt.current_tx_id peer ≡ some tx
      → e.last_tx_id ≡ tx
      → 0 < tx
      → let e' = sync_once bolt ask_peer now h e in (e'.db ≡ e.db) × (e'.sync_status ≡ synced)
  unfolding handle_snapshot take_reply
  unchanged_number tx now h e r p at last some_tx =
      let known : ltb 0 e.last_tx_id ≡ true = ground (arith, last, some_tx) in
      let same : (e.last_tx_id == tx) ≡ true = ground (arith, last) in
      rw (sync_once-standby bolt ask_peer now h e r p)
        (rw (known, eq_refl token, at, same) (refl, refl))

  active_waits :
      (now : ℕ) (h : HaManager) (e : SyncEngine Db)
      → h.role ≡ active
      → sync_once bolt ask_peer now h e ≡ e
  unfolding sync_once
  active_waits now h e r = rw r refl

  -- A standby copies its peer's database, is promoted, writes its own database, and is demoted again,
  -- while the peer's database is as it was, under a positive number: the next synchronisation leaves
  -- the standby its own database, and reports that it is synchronised.
  pub own_writes_kept :
      (w : World) (tx first between later : ℕ) (own : Db) (h : HaManager) (e : SyncEngine Db)
      → h.role ≡ standby
      → is_empty h.peer_url ≡ false
      → bolt.current_tx_id peer ≡ some tx
      → bolt.reloads peer ≡ true
      → 0 < tx
      → e.last_tx_id ≡ 0
      → let copied = sync_once bolt ask_peer first h e in
        let promoted = promote_to_active w h in
        let written = record (sync_once bolt ask_peer between promoted copied) { db = own } in
        let last = sync_once bolt ask_peer later (demote_to_standby w promoted) written in
        (copied.db ≡ peer) × ((last.db ≡ own) × (last.sync_status ≡ synced))
  own_writes_kept w tx first between later own h e r p at ok some_tx new =
      let copied : SyncEngine Db = sync_once bolt ask_peer first h e in
      let promoted : HaManager = promote_to_active w h in
      let (copy, number) = first_copy tx first h e r p at ok new in
      let is_on : promoted.role ≡ active = promote-role w h r in
      let waits = active_waits between promoted copied is_on in
      let url : is_empty (demote_to_standby w promoted).peer_url ≡ false =
        ap is_empty (demote-peer_url w promoted ∙ promote-peer_url w h) ∙ p in
      (
        copy,
        unchanged_number tx later (demote_to_standby w promoted)
            (record (sync_once bolt ask_peer between promoted copied) { db = own })
            (demote-role w promoted is_on) url at
            (ap (λ (x : SyncEngine Db). x.last_tx_id) waits ∙ number) some_tx,
      )
