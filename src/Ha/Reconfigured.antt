-- ===== src/Ha/Reconfigured.antt =====
-- What a change of the configuration leaves of a bound virtual address: `UpdateConfig` of
-- internal/manager/ha.go.
use distribute_storage_log_a.Prelude.{
  ◌≡◌, refl, ◌∙◌, true, not, ◌&&◌, String, arith, Bool-cases, inl, inr,
}
use distribute_storage_log_a.Prelude.Text.{str_eq}
use distribute_storage_log_a.Ha.{
  HaConfig, HaManager, standby, World, is_empty, mode_or_standalone, bind_vip, release_vip,
}
use distribute_storage_log_a.Ha.Config.{
  set_checks, set_peer, set_vip, set_mode, bind_if_active, update_config,
}

set_peer-same :
    (w : World) (new : HaConfig) (h : HaManager)
    → ((set_peer w new h).vip_active ≡ h.vip_active)
      × ((set_peer w new h).commands ≡ h.commands)
      × ((set_peer w new h).mode ≡ h.mode)
      × ((set_peer w new h).role ≡ h.role)
      × ((set_peer w new h).cfg.vip ≡ h.cfg.vip)
unfolding set_peer
set_peer-same w new h = ground arith

set_checks-same :
    (w : World) (new : HaConfig) (h : HaManager)
    → ((set_checks w new h).vip_active ≡ h.vip_active)
      × ((set_checks w new h).commands ≡ h.commands)
      × ((set_checks w new h).mode ≡ h.mode)
      × ((set_checks w new h).role ≡ h.role)
      × ((set_checks w new h).cfg.vip ≡ h.cfg.vip)
unfolding set_checks
set_checks-same w new h = (refl, refl, refl, refl, refl)

release_vip-none : (w : World) (h : HaManager) → is_empty h.cfg.vip ≡ true → release_vip w h ≡ h
unfolding release_vip
release_vip-none w h e = rw e refl

bind_vip-none : (w : World) (h : HaManager) → is_empty h.cfg.vip ≡ true → bind_vip w h ≡ h
unfolding bind_vip
bind_vip-none w h e = rw e refl

-- Once the new VIP is written and empty, neither a release nor a binding does anything.
set_vip-none :
    (w : World) (new : HaConfig) (h : HaManager)
    → is_empty (w.trim_space new.vip) ≡ true
    → ((set_vip w new h).vip_active ≡ h.vip_active)
      × ((set_vip w new h).commands ≡ h.commands)
      × (is_empty (set_vip w new h).cfg.vip ≡ true)
unfolding set_vip
set_vip-none w new h e =
    elim (Bool-cases
      (not (is_empty h.cfg.vip) && not (str_eq h.cfg.vip (w.trim_space new.vip)) && h.vip_active)) [
        | inl p ↦ rw (p, release_vip-none w _ e) (refl, refl, e)
        | inr p ↦ rw p (refl, refl, e)
      ]

set_mode-none :
    (w : World) (new : HaConfig) (h : HaManager)
    → is_empty h.cfg.vip ≡ true
    → ((set_mode w new h).vip_active ≡ h.vip_active)
      × ((set_mode w new h).commands ≡ h.commands)
      × (is_empty (set_mode w new h).cfg.vip ≡ true)
unfolding set_mode
set_mode-none w new h e =
    let mode : String = mode_or_standalone (w.to_lower (w.trim_space new.ha_mode)) in
    elim (Bool-cases (str_eq mode "standalone")) [
      | inl p ↦ elim (Bool-cases h.vip_active) [
        | inl q ↦ rw (p, q, release_vip-none w _ e) (refl, refl, e)
        | inr q ↦ rw (p, q) (refl, refl, e)
      ]
      | inr p ↦ elim (Bool-cases (str_eq h.mode "standalone")) [
        | inl q ↦ rw (p, q) (refl, refl, e)
        | inr q ↦ rw (p, q) (refl, refl, e)
      ]
    ]

bind_if_active-none :
    (w : World) (h : HaManager) → is_empty h.cfg.vip ≡ true → bind_if_active w h ≡ h
unfolding bind_if_active
bind_if_active-none w h e = ground arith

-- If a manager has its VIP bound, a change of the configuration that takes the VIP away runs no
-- command and leaves the address marked as bound, with no VIP to name in a later release: it stays at the machine.
pub removed_vip_stays :
    (w : World) (new : HaConfig) (h : HaManager)
    → h.vip_active ≡ true
    → is_empty (w.trim_space new.vip) ≡ true
    → let h' = update_config w new h in
      (h'.vip_active ≡ true) × (h'.commands ≡ h.commands) × (release_vip w h' ≡ h')
unfolding update_config
removed_vip_stays w new h e none_left =
    let checked : HaManager = set_checks w new h in
    let (a1, c1, m1, r1, v1) = set_checks-same w new h in
    let (a2, c2, m2, r2, v2) = set_peer-same w new checked in
    let (a3, c3, v3) = set_vip-none w new (set_peer w new checked) none_left in
    let (a4, c4, v4) = set_mode-none w new (set_vip w new (set_peer w new checked)) v3 in
    rw (bind_if_active-none w _ v4)
      (a4 ∙ (a3 ∙ (a2 ∙ (a1 ∙ e))), c4 ∙ (c3 ∙ (c2 ∙ c1)), release_vip-none w _ v4)

set_vip-same :
    (w : World) (new : HaConfig) (h : HaManager)
    → str_eq h.cfg.vip (w.trim_space new.vip) ≡ true
    → ((set_vip w new h).vip_active ≡ h.vip_active)
      × ((set_vip w new h).commands ≡ h.commands)
      × ((set_vip w new h).mode ≡ h.mode)
unfolding set_vip
set_vip-same w new h e = ground (arith, Bool-cases (is_empty h.cfg.vip))

set_mode-backup :
    (w : World) (new : HaConfig) (h : HaManager)
    → h.mode ≡ "standalone"
    → mode_or_standalone (w.to_lower (w.trim_space new.ha_mode)) ≡ "backup"
    → ((set_mode w new h).vip_active ≡ h.vip_active)
      × ((set_mode w new h).commands ≡ h.commands)
      × ((set_mode w new h).role ≡ standby)
unfolding set_mode
set_mode-backup w new h e m = rw (m, e) (refl, refl, refl)

bind_if_active-standby : (w : World) (h : HaManager) → h.role ≡ standby → bind_if_active w h ≡ h
unfolding bind_if_active
bind_if_active-standby w h e = rw e refl

-- A standalone manager that has bound its VIP and gets the mode "backup" with the same VIP becomes
-- a standby that runs no command and still has the address bound.
pub new_backup_keeps_vip :
    (w : World) (new : HaConfig) (h : HaManager)
    → h.vip_active ≡ true
    → h.mode ≡ "standalone"
    → mode_or_standalone (w.to_lower (w.trim_space new.ha_mode)) ≡ "backup"
    → str_eq h.cfg.vip (w.trim_space new.vip) ≡ true
    → let h' = update_config w new h in
      (h'.role ≡ standby) × (h'.vip_active ≡ true) × (h'.commands ≡ h.commands)
unfolding update_config
new_backup_keeps_vip w new h e alone backup same =
    let checked : HaManager = set_checks w new h in
    let (a1, c1, m1, r1, v1) = set_checks-same w new h in
    let (a2, c2, m2, r2, v2) = set_peer-same w new checked in
    let given : str_eq (set_peer w new checked).cfg.vip (w.trim_space new.vip) ≡ true =
      rw (v2 ∙ v1) same in
    let (a3, c3, m3) = set_vip-same w new (set_peer w new checked) given in
    let (a4, c4, r4) =
      set_mode-backup w new (set_vip w new (set_peer w new checked)) (m3 ∙ (m2 ∙ (m1 ∙ alone)))
        backup in
    rw (bind_if_active-standby w (set_mode w new (set_vip w new (set_peer w new checked))) r4)
      (r4, a4 ∙ (a3 ∙ (a2 ∙ (a1 ∙ e))), c4 ∙ (c3 ∙ (c2 ∙ c1)))
