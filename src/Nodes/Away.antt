-- ===== src/Nodes/Away.antt =====
-- A node that was signed off stays so behind heartbeats: Nodes.antt.
use distribute_storage_log_a.Prelude.{
  ℕ, ◌≡◌, refl, sym, ap, ◌∙◌, Bool, true, false, ◌||◌, Option, none, some, List, [], ◌∷◌, String,
  arith, Bool-cases, Option-cases, inl, inr, All,
}
use distribute_storage_log_a.Prelude.Text.{str_eq}
use distribute_storage_log_a.Store.Bucket.{same_key, get, values, get-put_other}
use distribute_storage_log_a.Store.Db.{Db, StoredNode}
use distribute_storage_log_a.Store.Nodes.{
  save_node, first_at, with_usage, get_node_by_addr, is_node_decommissioned,
}
use distribute_storage_log_a.Nodes.{
  adopted, joined, accept, heard, trimmed, handle_cluster_heartbeat, node_offline,
}
use distribute_storage_log_a.Nodes.Unique.{resolve-nodes}

-- Signed off, and without a record.
unfoldable pub Away : String → Db → Type 0
Away id db = (get id db.nodes ≡ none) × (is_node_decommissioned id db ≡ true)

other_id :
    (id j : String) (db : Db)
    → is_node_decommissioned id db ≡ true
    → is_node_decommissioned j db ≡ false
    → str_eq id j ≡ false
other_id id j db h e = elim (Bool-cases (str_eq id j)) [
  | inl p ↦
      let same : is_node_decommissioned id db ≡ is_node_decommissioned j db =
        ap (λ k. is_node_decommissioned k db) (same_key id j p) in
      let absurd : true ≡ false = sym h ∙ (same ∙ e) in cc absurd
  | inr p ↦ p
]

accept-Away :
    (now : ℕ) (status id : String) (n : StoredNode) (db : Db)
    → Away id db
    → str_eq id n.id ≡ false
    → Away id (accept now status n db)
unfolding Away accept save_node is_node_decommissioned
accept-Away now status id n db (missing, signed) h =
    let saved : StoredNode = record n { last_heartbeat = now; status = status } in
    let rest = resolve-nodes now n.id node_offline (save_node saved db) in
    rw (rest.0, rest.1) (get-put_other n.id id saved db.nodes h ∙ missing, signed)

or_false : (a b : Bool) → (a || b) ≡ false → a ≡ false
or_false a b h = ground arith

signed_off : (id : String) (db : Db) → Away id db → is_node_decommissioned id db ≡ true
unfolding Away
signed_off id db away = away.1

joined-id :
    (node_key : String → ℕ → String) (now : ℕ) (node : StoredNode)
    → str_eq node.id "" ≡ false
    → (joined node_key now node).id ≡ node.id
unfolding joined
joined-id node_key now node h = rw h refl

heard-Away :
    (node_key : String → ℕ → String) (now : ℕ) (node : StoredNode) (id : String) (db : Db)
    → str_eq node.id "" ≡ false
    → Away id db
    → Away id (heard (get_node_by_addr node.ip node.port db) node_key now node db).1
unfolding get_node_by_addr adopted
heard-Away node_key now node id db named away =
    elim (Option-cases (first_at node.ip node.port (values db.nodes))) [
      | inl e ↦ rw e (elim (Bool-cases (is_node_decommissioned node.id db)) [
        | inl d ↦ rw d away
        | inr d ↦
            let other : str_eq id (joined node_key now node).id ≡ false =
              ap (str_eq id) (joined-id node_key now node named)
              ∙ other_id id node.id db (signed_off id db away) d in
            rw d (accept-Away now "online" id (joined node_key now node) db away other)
      ])
      | inr (old, e) ↦
          rw e
            (elim (Bool-cases
              (is_node_decommissioned old.id db || is_node_decommissioned node.id db)) [
                | inl d ↦ rw d away
                | inr d ↦ rw d (
                    accept-Away now _ id (adopted (with_usage db old) node) db away
                      (other_id id old.id db (signed_off id db away) (or_false _ _ d)))
              ])
    ]

pub heartbeat_Away :
    (node_key : String → ℕ → String) (now : ℕ) (is_post token_matches : Bool) (node : StoredNode)
    (id : String) (db : Db)
    → str_eq node.id "" ≡ false
    → Away id db
    → Away id (handle_cluster_heartbeat node_key now is_post token_matches (some node) db).1
unfolding handle_cluster_heartbeat
heartbeat_Away node_key now false token_matches node id db named away = away
heartbeat_Away node_key now true false node id db named away = away
heartbeat_Away node_key now true true node id db named away =
    heard-Away node_key now (trimmed node) id db named away

-- A heartbeat as the handler gets it: its time, whether it is a POST and has the token, and the node in
-- its body, if that can be read.
pub record Heartbeat : Type 0 where
  pub now : ℕ
  pub is_post : Bool
  pub token_matches : Bool
  pub body : Option StoredNode

-- The node in the body, if there is one, has an id.
abbrev pub HasId : Heartbeat → Type 0
HasId beat = (n : StoredNode) → beat.body ≡ some n → str_eq n.id "" ≡ false

unfoldable pub after_heartbeats : (String → ℕ → String) → List Heartbeat → Db → Db
after_heartbeats node_key [] db = db
after_heartbeats node_key (beat ∷ rest) db =
    after_heartbeats node_key rest
      (handle_cluster_heartbeat node_key beat.now beat.is_post beat.token_matches beat.body db).1

body-Away :
    (node_key : String → ℕ → String) (now : ℕ) (is_post token_matches : Bool)
    (body : Option StoredNode) (id : String) (db : Db)
    → ((n : StoredNode) → body ≡ some n → str_eq n.id "" ≡ false)
    → Away id db
    → Away id (handle_cluster_heartbeat node_key now is_post token_matches body db).1
unfolding handle_cluster_heartbeat
body-Away node_key now false token_matches none id db named away = away
body-Away node_key now true false none id db named away = away
body-Away node_key now true true none id db named away = away
body-Away node_key now is_post token_matches (some n) id db named away =
    heartbeat_Away node_key now is_post token_matches n id db (named n refl) away

pub heartbeats_Away :
    (node_key : String → ℕ → String) (beats : List Heartbeat) (id : String) (db : Db)
    → All HasId beats
    → Away id db
    → Away id (after_heartbeats node_key beats db)
unfolding after_heartbeats
heartbeats_Away node_key [] id db named away = away
heartbeats_Away node_key (beat ∷ rest) id db (first, others) away =
    heartbeats_Away node_key rest id
      (handle_cluster_heartbeat node_key beat.now beat.is_post beat.token_matches beat.body db).1
      others
      (body-Away node_key beat.now beat.is_post beat.token_matches beat.body id db first away)
