-- ===== src/Ha/Safety.antt =====
-- What the checks before a takeover ask of the gateway and of the workers: `CheckSplitBrainSafety` of
-- internal/manager/ha_quorum.go.
use distribute_storage_log_a.Prelude.{
  ℕ, zero, suc, ◌*◌, ◌/◌, ◌==◌, ◌<◌, ◌≡◌, ◌⊎◌, ◌↔◌, refl, Bool, true, false, not, ◌&&◌, String,
  if◌then◌else◌, ltb, length, filter, arith, Bool-cases, inl, inr,
}
use distribute_storage_log_a.Ha.{HaManager, World, is_empty}
use distribute_storage_log_a.Ha.Quorum.{
  Nodes, Safety, workers, check_worker_quorum, check_workers, check_split_brain_safety,
}

-- The checks of a manager: the gateway where it is to be checked, and the workers.
abbrev pub checks : World → Nodes → HaManager → Safety
checks w nodes h =
    check_split_brain_safety w h.gateway_ip h.cfg.enable_gateway_check h.cfg.enable_worker_quorum
      nodes

-- The gateway that a manager checks: its own, or the machine's where it has none.
abbrev pub gateway_of : World → HaManager → String
gateway_of w h = if is_empty h.gateway_ip then w.default_gateway else h.gateway_ip

-- The gateway is not to be checked, not known, or answers.
abbrev pub GatewayPasses : World → HaManager → Type 0
GatewayPasses w h =
    (h.cfg.enable_gateway_check ≡ false)
    ⊎ ((is_empty (gateway_of w h) ≡ true) ⊎ (w.ping (gateway_of w h) ≡ true))

-- The workers are not to be asked, there are none, or more than half of them answer.
abbrev pub WorkersPass : World → Nodes → HaManager → Type 0
WorkersPass w nodes h =
    (h.cfg.enable_worker_quorum ≡ false)
    ⊎ ((length (workers nodes) ≡ 0)
        ⊎ (length (workers nodes) < 2 * length (filter w.healthy (workers nodes))))

majority_if_passed :
    (total online : ℕ)
    → not (ltb 0 total && not (ltb (total / 2) online)) ≡ true
    → (total ≡ 0) ⊎ (total < 2 * online)
majority_if_passed zero online h = inl refl
majority_if_passed (suc t) online h = inr (ground (arith, h))

passed_if_majority :
    (total online : ℕ)
    → (total ≡ 0) ⊎ (total < 2 * online)
    → not (ltb 0 total && not (ltb (total / 2) online)) ≡ true
passed_if_majority total online (inl e) = rw e refl
passed_if_majority total online (inr l) = ground (arith, l)

quorum-safe :
    (w : World) (nodes : Nodes)
    → ((check_workers w true nodes).safe ≡ true) ↔ (
        (length (workers nodes) ≡ 0)
        ⊎ (length (workers nodes) < 2 * length (filter w.healthy (workers nodes))))
unfolding check_workers check_worker_quorum
quorum-safe w nodes = elim (Bool-cases (length (workers nodes) == 0)) [
  | inl e ↦
      let nobody : length (workers nodes) ≡ 0 = ground (arith, e) in
      ((λ h. inl nobody), (λ h. rw e refl))
  | inr e ↦ rw e (
    majority_if_passed (length (workers nodes)) (length (filter w.healthy (workers nodes))),
    passed_if_majority (length (workers nodes)) (length (filter w.healthy (workers nodes))),
  )
]

workers-safe :
    (w : World) (enabled : Bool) (nodes : Nodes)
    → ((check_workers w enabled nodes).safe ≡ true) ↔ (
        (enabled ≡ false)
        ⊎ ((length (workers nodes) ≡ 0)
            ⊎ (length (workers nodes) < 2 * length (filter w.healthy (workers nodes)))))
unfolding check_workers
workers-safe w false nodes = ((λ h. inl refl), (λ h. refl))
workers-safe w true nodes = (
  (λ h. inr ((quorum-safe w nodes).0 h)),
  (λ h. elim h [ inl e ↦ cc e | inr m ↦ (quorum-safe w nodes).1 m ]),
)

gateway_blocks :
    (enabled empty pinged : Bool)
    → (enabled && not empty && not pinged) ≡ true
    → (enabled ≡ false) ⊎ ((empty ≡ true) ⊎ (pinged ≡ true))
    → ⊥
gateway_blocks false empty pinged h passes = cc h
gateway_blocks true true pinged h passes = cc h
gateway_blocks true false true h passes = cc h
gateway_blocks true false false h (inl e) = cc e
gateway_blocks true false false h (inr (inl e)) = cc e
gateway_blocks true false false h (inr (inr e)) = cc e

gateway_lets :
    (enabled empty pinged : Bool)
    → (enabled && not empty && not pinged) ≡ false
    → (enabled ≡ false) ⊎ ((empty ≡ true) ⊎ (pinged ≡ true))
gateway_lets false empty pinged h = inl refl
gateway_lets true true pinged h = inr (inl refl)
gateway_lets true false true h = inr (inr refl)
gateway_lets true false false h = cc h

-- What the checks ask of the gateway and of the workers.
pub checks-safe :
    (w : World) (nodes : Nodes) (h : HaManager)
    → ((checks w nodes h).safe ≡ true) ↔ (GatewayPasses w h × WorkersPass w nodes h)
unfolding check_split_brain_safety
checks-safe w nodes h =
    let target : String = gateway_of w h in
    let enabled : Bool = h.cfg.enable_gateway_check in
    let asked = workers-safe w h.cfg.enable_worker_quorum nodes in
    elim (Bool-cases (enabled && not (is_empty target) && not (w.ping target))) [
      | inl e ↦ rw e (
        (λ p. cc p),
        (λ p. elim (gateway_blocks enabled (is_empty target) (w.ping target) e p.0) [ ]),
      )
      | inr e ↦ rw e (
        (λ p. (gateway_lets enabled (is_empty target) (w.ping target) e, asked.0 p)),
        (λ p. asked.1 p.1),
      )
    ]
