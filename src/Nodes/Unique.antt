-- ===== src/Nodes/Unique.antt =====
-- A worker's address has one record: heartbeats of Nodes.antt.
use distribute_storage_log_a.Prelude.{
  ℕ, ◌≡◌, ◌≤◌, ◌⊎◌, refl, sym, ap, ◌∙◌, Bool, true, false, ◌||◌, Option, none, some, [], ◌∷◌,
  String, if◌then◌else◌, ◌==◌, arith, Bool-cases, Option-cases, inl, inr,
}
use distribute_storage_log_a.Prelude.Text.{str_eq, eq_refl}
use distribute_storage_log_a.Store.Bucket.{Bucket, same_key, get, sum, values, Distinct}
use distribute_storage_log_a.Store.Keys.{KeyedBy, sum-put_most, sum-put_old}
use distribute_storage_log_a.Store.Db.{Db, StoredNode}
use distribute_storage_log_a.Store.Nodes.{
  save_node, is_worker_at, first_at, with_usage, get_node_by_addr, is_node_decommissioned,
}
use distribute_storage_log_a.Store.Alarms.{find_active_alarm, save_alarm, resolve_alarm}
use distribute_storage_log_a.Nodes.{
  adopted, joined, accept, heard, trimmed, handle_cluster_heartbeat, node_offline,
}

abbrev pub one_worker : String → ℕ → StoredNode → ℕ
one_worker ip port n = if is_worker_at ip port n then 1 else 0

-- The records of workers at an address.
unfoldable pub workers_at : String → ℕ → Db → ℕ
workers_at ip port db = sum (one_worker ip port) db.nodes

-- The nodes stand under their ids, each id once.
unfoldable pub NodesKept : Db → Type 0
NodesKept db = Distinct db.nodes × KeyedBy (λ n. n.id) db.nodes

first_at-none :
    (ip : String) (port : ℕ) (b : Bucket StoredNode)
    → first_at ip port (values b) ≡ none
    → sum (one_worker ip port) b ≡ 0
unfolding first_at values sum
first_at-none ip port [] h = refl
first_at-none ip port ((k, n) ∷ rest) h = elim (Bool-cases (is_worker_at ip port n)) [
  | inl e ↦ cc (rw e at h)
  | inr e ↦ rw e (omega (arith, first_at-none ip port rest (rw e at h)))
]

first_at-some :
    (ip : String) (port : ℕ) (b : Bucket StoredNode) (n : StoredNode)
    → Distinct b
    → KeyedBy (λ x. x.id) b
    → first_at ip port (values b) ≡ some n
    → (get n.id b ≡ some n) × (is_worker_at ip port n ≡ true)
unfolding first_at values Distinct KeyedBy get
first_at-some ip port [] n d h e = cc
first_at-some ip port ((k, x) ∷ rest) n d h e = elim (Bool-cases (is_worker_at ip port x)) [
  | inl p ↦
      let same : x ≡ n = cc (rw p at e) in
      let key : n.id ≡ k = ap (λ y. y.id) (sym same) ∙ h.0 in
      let hit : str_eq n.id k ≡ true = rw key (eq_refl k) in
      (rw hit (ap some same), ap (is_worker_at ip port) (sym same) ∙ p)
  | inr p ↦
      let (there, at) = first_at-some ip port rest n d.1 h.1 (rw p at e) in
      elim (Bool-cases (str_eq n.id k)) [
        | inl q ↦
            let gone : get n.id rest ≡ none = ap (λ j. get j rest) (same_key n.id k q) ∙ d.0 in
            cc (there, gone)
        | inr q ↦ (rw q there, at)
      ]
]

same_address :
    (ip : String) (port : ℕ) (n : StoredNode)
    → is_worker_at ip port n ≡ true
    → (n.ip ≡ ip) × (n.port ≡ port)
same_address ip port n h = elim (Bool-cases (str_eq n.role "worker")) [
  | inr r ↦ cc (rw r at h)
  | inl r ↦ elim (Bool-cases (str_eq n.ip ip)) [
    | inr e ↦ cc (rw (r, e) at h)
    | inl e ↦
        let at : (n.port == port) ≡ true = rw (r, e) at h in
        (same_key n.ip ip e, (ground (arith, at)))
  ]
]

-- A record for an address that has none, or in the place of the one that it has.
unfoldable pub Fits : String → ℕ → StoredNode → Db → Type 0
Fits ip port n db =
    (first_at ip port (values db.nodes) ≡ none)
    ⊎ ((old : StoredNode) × ((get n.id db.nodes ≡ some old) × (is_worker_at ip port old ≡ true)))

save_unique :
    (ip : String) (port : ℕ) (n : StoredNode) (db : Db)
    → (fits : is_worker_at ip port n ≡ true → Fits ip port n db) → workers_at ip port db ≤ 1
    → workers_at ip port (save_node n db) ≤ 1
unfolding workers_at save_node Fits
save_unique ip port n db fits single =
    let most = sum-put_most (one_worker ip port) n.id n db.nodes in
    elim (Bool-cases (is_worker_at ip port n)) [
      | inr e ↦
          let nothing : one_worker ip port n ≡ 0 = rw e refl in omega (arith, most, nothing, single)
      | inl e ↦
          let mine : one_worker ip port n ≡ 1 = rw e refl in
          elim (fits e) [
            | inl free ↦ omega (arith, most, mine, first_at-none ip port db.nodes free)
            | inr (old, (there, at)) ↦
                let total = sum-put_old (one_worker ip port) n.id n old db.nodes there in
                let his : one_worker ip port old ≡ 1 = rw at refl in
                omega (arith, total, mine, his, single)
          ]
    ]

pub resolve-nodes :
    (now : ℕ) (n t : String) (db : Db)
    → ((resolve_alarm now n t db).1.nodes ≡ db.nodes)
      × ((resolve_alarm now n t db).1.decommissioned ≡ db.decommissioned)
unfolding resolve_alarm save_alarm
resolve-nodes now n t db = elim (Option-cases (find_active_alarm n t db)) [
  | inl e ↦ rw e (refl, refl)
  | inr (a, e) ↦ rw e (refl, refl)
]

accept_unique :
    (now : ℕ) (status : String) (ip : String) (port : ℕ) (n : StoredNode) (db : Db)
    → (fits : is_worker_at ip port n ≡ true → Fits ip port n db) → workers_at ip port db ≤ 1
    → workers_at ip port (accept now status n db) ≤ 1
unfolding accept workers_at Fits
accept_unique now status ip port n db fits single =
    let saved : StoredNode = record n { last_heartbeat = now; status = status } in
    let rest = resolve-nodes now n.id node_offline (save_node saved db) in
    let alone = save_unique ip port saved db fits single in rw rest.0 alone

looked_up :
    (i ip : String) (p port : ℕ) (db : Db)
    → i ≡ ip
    → p ≡ port
    → first_at ip port (values db.nodes) ≡ first_at i p (values db.nodes)
looked_up i ip p port db x y = rw (x, y) refl

worker_moved :
    (i ip : String) (p port : ℕ) (n : StoredNode)
    → i ≡ ip
    → p ≡ port
    → is_worker_at ip port n ≡ is_worker_at i p n
worker_moved i ip p port n x y = rw (x, y) refl

heard_unique :
    (node_key : String → ℕ → String) (now : ℕ) (node : StoredNode) (ip : String) (port : ℕ)
    (db : Db)
    → NodesKept db
    → workers_at ip port db ≤ 1
    → workers_at ip port (heard (get_node_by_addr node.ip node.port db) node_key now node db).1 ≤ 1
unfolding get_node_by_addr NodesKept Fits joined adopted
heard_unique node_key now node ip port db kept single =
    elim (Option-cases (first_at node.ip node.port (values db.nodes))) [
      | inl e ↦ rw e (elim (Bool-cases (is_node_decommissioned node.id db)) [
        | inl d ↦ rw d single
        | inr d ↦ rw d (
            accept_unique now "online" ip port (joined node_key now node) db
              (λ h.
                let (x, y) = same_address ip port (joined node_key now node) h in
                inl (looked_up node.ip ip node.port port db x y ∙ e))
              single)
      ])
      | inr (old, e) ↦
          rw e
            (elim (Bool-cases
              (is_node_decommissioned old.id db || is_node_decommissioned node.id db)) [
                | inl d ↦ rw d single
                | inr d ↦ rw d (
                    accept_unique now _ ip port (adopted (with_usage db old) node) db
                      (λ h.
                        let (x, y) = same_address ip port (adopted (with_usage db old) node) h in
                        let (there, at) =
                          first_at-some node.ip node.port db.nodes old kept.0 kept.1 e in
                        inr (old, (there, worker_moved node.ip ip node.port port old x y ∙ at)))
                      single)
              ])
    ]

-- If an address has at most one record of a worker, it has at most one behind any heartbeat, where nodes
-- stand under their ids and each id once.
pub heartbeat_unique :
    (node_key : String → ℕ → String) (now : ℕ) (is_post token_matches : Bool)
    (body : Option StoredNode) (ip : String) (port : ℕ) (db : Db)
    → NodesKept db
    → workers_at ip port db ≤ 1
    → workers_at ip port (handle_cluster_heartbeat node_key now is_post token_matches body db).1 ≤ 1
unfolding handle_cluster_heartbeat
heartbeat_unique node_key now false token_matches body ip port db kept single = single
heartbeat_unique node_key now true false body ip port db kept single = single
heartbeat_unique node_key now true true none ip port db kept single = single
heartbeat_unique node_key now true true (some node) ip port db kept single =
    heard_unique node_key now (trimmed node) ip port db kept single
