-- ===== src/Drain/Counts.antt =====
-- Where each line goes, and what holds of all lines in the end: Drain.antt.
use mathlib.Core.Path.{subst}
use distribute_storage_log_a.Prelude.{
  ℕ, zero, suc, ◌+◌, ◌≡◌, ◌≤◌, ◌<◌, refl, sym, ap, ◌∙◌, true, Option, none, some, List, [], ◌∷◌,
  ◌++◌, String, length, get_elem?, set, if◌then◌else◌, ltb, leb, ◌==◌, arith, Bool-cases,
  Option-cases, inl, inr, length-set, length-append,
}
use distribute_storage_log_a.Drain.{
  Cluster, DrainMiner, Line, joined_by, new_cluster, new_drain_miner, tree_search, updated_at,
  add_to, add_log_with_line, add_lines,
}
use distribute_storage_log_a.Drain.Match.{
  fits_at, fits_self, fits_joined, fits_newest, fits-append, tree_search_found,
}

abbrev pub Log : Type 0
Log = List (ℕ × List String)

abbrev pub place_or_new : Option ℕ → DrainMiner → Option ℕ
place_or_new (some place) d = some place
place_or_new none d =
    if leb d.max_clusters (length d.clusters) then none else some (length d.clusters)

-- The cluster that a line is counted in, if it is.
unfoldable pub assigned : (ℕ → String) → Line → DrainMiner → Option ℕ
assigned len_key line d =
    if length line.tokens == 0 then none else place_or_new (tree_search len_key d line.tokens) d

abbrev pub noted : Option ℕ → List String → Log → Log
noted none tokens log = log
noted (some place) tokens log = (place, tokens) ∷ log

-- The lines that are counted, each with its cluster, the last one first.
unfoldable pub log_of : (ℕ → String) → (List String → String) → List Line → DrainMiner → Log → Log
log_of len_key cluster_id [] d log = log
log_of len_key cluster_id (line ∷ rest) d log =
    log_of len_key cluster_id rest (add_log_with_line len_key cluster_id line d)
      (noted (assigned len_key line d) line.tokens log)

-- Each line fits the template of its cluster.
unfoldable pub AllFit : List Cluster → Log → Type 0
AllFit clusters [] = Unit
AllFit clusters ((place, tokens) ∷ rest) =
    (fits_at (get_elem? clusters place) tokens ≡ true) × AllFit clusters rest

unfoldable pub total_count : List Cluster → ℕ
total_count [] = 0
total_count (c ∷ rest) = c.count + total_count rest

AllFit-joined :
    (clusters : List Cluster) (i : ℕ) (c : Cluster) (line : Line) (log : Log)
    → get_elem? clusters i ≡ some c
    → AllFit clusters log
    → AllFit (set clusters i (joined_by line c)) log
unfolding AllFit
AllFit-joined clusters i c line [] there h = tt
AllFit-joined clusters i c line ((j, xs) ∷ rest) there h =
    (fits_joined clusters i j c line xs there h.0, AllFit-joined clusters i c line rest there h.1)

AllFit-append :
    (clusters more : List Cluster) (log : Log) → AllFit clusters log → AllFit (clusters ++ more) log
unfolding AllFit
AllFit-append clusters more [] h = tt
AllFit-append clusters more ((j, xs) ∷ rest) h =
    (fits-append clusters more j xs h.0, AllFit-append clusters more rest h.1)

abbrev count_or : Option Cluster → ℕ
count_or none = 0
count_or (some c) = c.count

joined-count : (line : Line) (c : Cluster) → (joined_by line c).count ≡ c.count + 1
unfolding joined_by
joined-count line c = refl

total-set :
    (clusters : List Cluster) (i : ℕ) (c new : Cluster)
    → get_elem? clusters i ≡ some c
    → total_count (set clusters i new) + c.count ≡ total_count clusters + new.count
unfolding total_count
total-set [] i c new h = cc
total-set (x ∷ rest) zero c new h =
    let same : x.count ≡ c.count = ap count_or h in omega (arith, same)
total-set (x ∷ rest) (suc i) c new h = omega (arith, total-set rest i c new h)

total-append :
    (clusters : List Cluster) (new : Cluster)
    → total_count (clusters ++ (new ∷ [])) ≡ total_count clusters + new.count
unfolding total_count
total-append [] new = omega arith
total-append (x ∷ rest) new = omega (arith, total-append rest new)

get-newest :
    (clusters : List Cluster) (new : Cluster)
    → get_elem? (clusters ++ (new ∷ [])) (length clusters) ≡ some new
get-newest [] new = refl
get-newest (x ∷ rest) new = get-newest rest new

-- What holds of a miner and the lines that it has counted.
unfoldable pub Accounted : DrainMiner → Log → Type 0
Accounted d log =
    AllFit d.clusters log
    × ((total_count d.clusters ≡ length log)
        × ((length d.clusters ≤ d.max_clusters)
            × ((d.max_clusters ≡ 1000) × (ltb 0 d.sim_threshold.0 ≡ true))))

add_found :
    (len_key : ℕ → String) (cluster_id : List String → String) (line : Line) (d : DrainMiner)
    (log : Log) (place : ℕ)
    → Accounted d log
    → tree_search len_key d line.tokens ≡ some place
    → Accounted (add_to (some place) len_key cluster_id line d) ((place, line.tokens) ∷ log)
unfolding Accounted AllFit
add_found len_key cluster_id line d log place (fit, (total, (few, (limit, positive)))) found =
    let (c, (there, same)) = tree_search_found len_key d line.tokens place positive found in
    let sum = total-set d.clusters place c (joined_by line c) there in
    let one : (joined_by line c).count ≡ c.count + 1 = joined-count line c in
    let joined : DrainMiner = record d { clusters = set d.clusters place (joined_by line c) } in
    let added : add_to (some place) len_key cluster_id line d ≡ joined =
      ap (λ o. record d { clusters = updated_at o place line d.clusters }) there in
    subst (λ m. Accounted m ((place, line.tokens) ∷ log)) (sym added)
      (
        (
          fits_newest d.clusters place c line there same,
          AllFit-joined d.clusters place c line log there fit,
        ),
        (
          (omega (arith, sum, one, total)),
          ((omega (arith, few, length-set d.clusters place (joined_by line c))), (limit, positive)),
        ),
      )

newest_fits :
    (clusters : List Cluster) (cluster_id : List String → String) (line : Line)
    → fits_at
        (get_elem? (clusters ++ (new_cluster cluster_id line ∷ [])) (length clusters))
        line.tokens
      ≡ true
unfolding new_cluster
newest_fits clusters cluster_id line =
    ap (λ o. fits_at o line.tokens) (get-newest clusters (new_cluster cluster_id line))
    ∙ fits_self line.tokens

new-count :
    (cluster_id : List String → String) (line : Line) → (new_cluster cluster_id line).count ≡ 1
unfolding new_cluster
new-count cluster_id line = refl

add_new :
    (len_key : ℕ → String) (cluster_id : List String → String) (line : Line) (d : DrainMiner)
    (log : Log)
    → Accounted d log
    → Accounted
        (add_to none len_key cluster_id line d)
        (noted (place_or_new none d) line.tokens log)
unfolding Accounted AllFit
add_new len_key cluster_id line d log (fit, (total, (few, (limit, positive)))) =
    elim (Bool-cases (leb d.max_clusters (length d.clusters))) [
      | inl e ↦ rw e (fit, (total, (few, (limit, positive))))
      | inr e ↦
          let new : Cluster = new_cluster cluster_id line in
          let room : length d.clusters < d.max_clusters = ground (arith, e) in
          let sum = total-append d.clusters new in
          let one = new-count cluster_id line in
          let more = length-append d.clusters (new ∷ []) in
          rw e (
            (newest_fits d.clusters cluster_id line, AllFit-append d.clusters (new ∷ []) log fit),
            ((omega (arith, sum, one, total)), ((omega (arith, more, room)), (limit, positive))),
          )
    ]

add_log-Accounted :
    (len_key : ℕ → String) (cluster_id : List String → String) (line : Line) (d : DrainMiner)
    (log : Log)
    → Accounted d log
    → Accounted
        (add_log_with_line len_key cluster_id line d)
        (noted (assigned len_key line d) line.tokens log)
unfolding add_log_with_line assigned
add_log-Accounted len_key cluster_id line d log h = elim (Bool-cases (length line.tokens == 0)) [
  | inl e ↦ rw e h
  | inr e ↦ rw e (elim (Option-cases (tree_search len_key d line.tokens)) [
    | inl n ↦ rw n (add_new len_key cluster_id line d log h)
    | inr (place, found) ↦ rw found (add_found len_key cluster_id line d log place h found)
  ])
]

add_lines-Accounted :
    (len_key : ℕ → String) (cluster_id : List String → String) (lines : List Line) (d : DrainMiner)
    (log : Log)
    → Accounted d log
    → Accounted (add_lines len_key cluster_id lines d) (log_of len_key cluster_id lines d log)
unfolding add_lines log_of
add_lines-Accounted len_key cluster_id [] d log h = h
add_lines-Accounted len_key cluster_id (line ∷ rest) d log h =
    add_lines-Accounted len_key cluster_id rest (add_log_with_line len_key cluster_id line d)
      (noted (assigned len_key line d) line.tokens log)
      (add_log-Accounted len_key cluster_id line d log h)

positive_threshold :
    (threshold : ℕ × ℕ) (max_depth : ℕ)
    → ltb 0 (new_drain_miner threshold max_depth).sim_threshold.0 ≡ true
unfolding new_drain_miner
positive_threshold (num, den) max_depth = elim (Bool-cases (num == 0)) [
  | inl e ↦ rw e refl
  | inr e ↦ rw e (ground (arith, e))
]

new_miner-Accounted :
    (threshold : ℕ × ℕ) (max_depth : ℕ) → Accounted (new_drain_miner threshold max_depth) []
unfolding Accounted AllFit total_count new_drain_miner
new_miner-Accounted threshold max_depth =
    (tt, (refl, ((omega arith), (refl, positive_threshold threshold max_depth))))

-- Whatever lines a new miner is given, every line that it counts fits, in the end, the template of the
-- cluster that it is counted in, as many lines are counted as the clusters' counts say together, and
-- there are at most 1000 clusters.
pub templates_fit :
    (len_key : ℕ → String) (cluster_id : List String → String) (threshold : ℕ × ℕ) (max_depth : ℕ)
    (lines : List Line)
    → let start = new_drain_miner threshold max_depth in
      let clusters = (add_lines len_key cluster_id lines start).clusters in
      let log = log_of len_key cluster_id lines start [] in
      AllFit clusters log × ((total_count clusters ≡ length log) × (length clusters ≤ 1000))
unfolding Accounted
templates_fit len_key cluster_id threshold max_depth lines =
    let start : DrainMiner = new_drain_miner threshold max_depth in
    let (fit, (total, (few, (limit, _)))) =
      add_lines-Accounted len_key cluster_id lines start []
        (new_miner-Accounted threshold max_depth) in
    (fit, (total, (omega (arith, few, limit))))
