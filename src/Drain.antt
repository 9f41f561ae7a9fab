-- ===== src/Drain.antt =====
-- Lines gathered under templates: DrainMiner of internal/indexer/drain.go. A line comes as the tokens,
-- the level and the time that PreprocessLogWithRules makes of it; a cluster is known by its place in
-- the list of clusters, and the tree holds places. Similarities are compared as exact fractions.
pub mod Match
pub mod Counts
use distribute_storage_log_a.Prelude.{
  ℕ, zero, suc, ◌+◌, ◌-◌, ◌*◌, ◌≡◌, Bool, true, false, not, ◌&&◌, ◌||◌, Option, none, some, List,
  [], ◌∷◌, ◌++◌, String, length, get_elem?, set, take, any, if◌then◌else◌, ltb, leb, ◌==◌,
}
use distribute_storage_log_a.Prelude.Text.{str_eq}
use distribute_storage_log_a.Prelude.Strings.{is_upper_of, has_digit}

-- The keys of a node's children stand once each.
mutual
  pub data DrainNode : Type 0 where
    node : Children → List ℕ → DrainNode

  pub data Children : Type 0 where
    no_child : Children
    child : String → DrainNode → Children → Children

pub record Cluster : Type 0 where
  pub id : String
  pub tokens : List String
  pub sample : String
  pub sample_file : String
  pub sample_line : ℕ
  pub count : ℕ
  pub level : String
  pub first_seen : String
  pub last_seen : String
  pub files : List String

pub record DrainMiner : Type 0 where
  pub root : DrainNode
  pub max_depth : ℕ
  pub sim_threshold : ℕ × ℕ
  pub max_clusters : ℕ
  pub clusters : List Cluster

abbrev wildcard : String
wildcard = "<*>"

abbrev pub empty_node : DrainNode
empty_node = node no_child []

-- A threshold or a depth that is not positive is the default one.
unfoldable pub new_drain_miner : ℕ × ℕ → ℕ → DrainMiner
new_drain_miner (num, den) max_depth = record {
  root = empty_node;
  max_depth = if max_depth == 0 then 4 else max_depth;
  sim_threshold = if num == 0 then (55, 100) else (num, den);
  max_clusters = 1000;
  clusters = [];
}

unfoldable pub find_child : String → Children → Option DrainNode
find_child key no_child = none
find_child key (child k n rest) =
    let behind = find_child key rest in if str_eq key k then some n else behind

unfoldable pub put_child : String → DrainNode → Children → Children
put_child key new no_child = child key new no_child
put_child key new (child k n rest) =
    let behind = put_child key new rest in
    if str_eq key k then child k new rest else child k n behind

abbrev pub children_of : DrainNode → Children
children_of (node children places) = children

abbrev pub places_of : DrainNode → List ℕ
places_of (node children places) = places

abbrev pub or_else : Option DrainNode → Option DrainNode → Option DrainNode
or_else (some n) other = some n
or_else none other = other

-- The child for the token, or the one for any.
abbrev pub next_node : String → DrainNode → Option DrainNode
next_node token n = or_else (find_child token (children_of n)) (find_child wildcard (children_of n))

-- The walk down the tokens, all but the last, as deep as is allowed; it stops where no child fits.
unfoldable pub descend : ℕ → List String → DrainNode → DrainNode
descend zero tokens n = n
descend (suc depth) [] n = n
descend (suc depth) (t ∷ []) n = n
descend (suc depth) (t ∷ u ∷ rest) n = elim (next_node t n) [
  | none ↦ n
  | some below ↦ descend depth (u ∷ rest) below
]

unfoldable pub same_tokens : List String → List String → ℕ
same_tokens [] ys = 0
same_tokens (x ∷ xs) [] = 0
same_tokens (x ∷ xs) (y ∷ ys) = (if str_eq x y then 1 else 0) + same_tokens xs ys

-- A fraction.
unfoldable pub seq_similarity : List String → List String → ℕ × ℕ
seq_similarity xs ys = if length xs == length ys then (same_tokens xs ys, length xs) else (0, 1)

abbrev pub at_least : ℕ × ℕ → ℕ × ℕ → Bool
at_least (p, q) (m, l) = leb (p * l) (m * q)

abbrev pub above : Option (ℕ × ℕ) → ℕ × ℕ → Bool
above none sim = true
above (some (p, q)) (m, l) = ltb (p * l) (m * q)

abbrev pub similarity_of : Option Cluster → List String → Option (ℕ × ℕ)
similarity_of none tokens = none
similarity_of (some c) tokens = some (seq_similarity c.tokens tokens)

abbrev pub better : ℕ × ℕ → ℕ → Option (ℕ × ℕ) → Option (ℕ × (ℕ × ℕ)) → Option (ℕ × (ℕ × ℕ))
better threshold place none best = best
better threshold place (some sim) none = if at_least threshold sim then some (place, sim) else none
better threshold place (some sim) (some (old, max)) =
    if at_least threshold sim && above (some max) sim then some (place, sim) else some (old, max)

-- The first of the most similar clusters that reach the threshold, with its similarity.
unfoldable pub best_of :
    ℕ × ℕ → List Cluster → List String → List ℕ → Option (ℕ × (ℕ × ℕ)) → Option (ℕ × (ℕ × ℕ))
best_of threshold clusters tokens [] best = best
best_of threshold clusters tokens (place ∷ rest) best =
    best_of threshold clusters tokens rest
      (better threshold place (similarity_of (get_elem? clusters place) tokens) best)

abbrev pub place_of : Option (ℕ × (ℕ × ℕ)) → Option ℕ
place_of none = none
place_of (some (place, sim)) = some place

abbrev pub search_below : Option DrainNode → DrainMiner → List String → Option ℕ
search_below none d tokens = none
search_below (some n) d tokens = place_of (
    best_of d.sim_threshold d.clusters tokens (places_of (descend (d.max_depth - 1) tokens n)) none)

-- `len_key` prints the number of tokens as a key.
unfoldable pub tree_search : (ℕ → String) → DrainMiner → List String → Option ℕ
tree_search len_key d tokens =
    search_below (find_child (len_key (length tokens)) (children_of d.root)) d tokens

abbrev pub or_empty : Option DrainNode → DrainNode
or_empty none = empty_node
or_empty (some n) = n

abbrev pub tree_key : String → String
tree_key token = if has_digit token then wildcard else token

unfoldable pub add_below : ℕ → List String → ℕ → DrainNode → DrainNode
add_below zero tokens place (node children places) = node children (places ++ (place ∷ []))
add_below (suc depth) [] place (node children places) = node children (places ++ (place ∷ []))
add_below (suc depth) (t ∷ []) place (node children places) = node children (places ++ (place ∷ []))
add_below (suc depth) (t ∷ u ∷ rest) place (node children places) =
    let below = add_below depth (u ∷ rest) place (or_empty (find_child (tree_key t) children)) in
    node (put_child (tree_key t) below children) places

unfoldable pub tree_add : (ℕ → String) → DrainMiner → List String → ℕ → DrainNode
tree_add len_key d tokens place =
    let key = len_key (length tokens) in
    let top = or_empty (find_child key (children_of d.root)) in
    node (put_child key (add_below (d.max_depth - 1) tokens place top) (children_of d.root))
      (places_of d.root)

unfoldable pub level_priority : String → ℕ
level_priority level =
    if is_upper_of level "FATAL" || is_upper_of level "CRITICAL"
    then 4
    else (if is_upper_of level "ERROR"
        then 3
        else (if is_upper_of level "WARN" || is_upper_of level "WARNING" then 2 else 1))

-- Where the line differs from the template, the template gets a wildcard.
unfoldable pub merge_tokens : List String → List String → List String
merge_tokens [] line = []
merge_tokens (t ∷ ts) [] = t ∷ ts
merge_tokens (t ∷ ts) (x ∷ xs) = (if str_eq t x then t else wildcard) ∷ merge_tokens ts xs

abbrev pub add_file : String → List String → List String
add_file file files =
    if str_eq file ""
    then files
    else (if any (str_eq file) files then files else files ++ (file ∷ []))

pub record Line : Type 0 where
  pub raw : String
  pub file : String
  pub line_no : ℕ
  pub tokens : List String
  pub level : String
  pub ts : String

unfoldable pub joined_by : Line → Cluster → Cluster
joined_by line c = record c {
  count = c.count + 1;
  last_seen = line.ts;
  files = add_file line.file c.files;
  level = if ltb (level_priority c.level) (level_priority line.level) then line.level else c.level;
  tokens = merge_tokens c.tokens line.tokens;
}

-- `cluster_id` makes an id of the tokens.
unfoldable pub new_cluster : (List String → String) → Line → Cluster
new_cluster cluster_id line = record {
  id = cluster_id line.tokens;
  tokens = line.tokens;
  sample = line.raw;
  sample_file = line.file;
  sample_line = line.line_no;
  count = 1;
  level = line.level;
  first_seen = line.ts;
  last_seen = line.ts;
  files = add_file line.file [];
}

abbrev pub updated_at : Option Cluster → ℕ → Line → List Cluster → List Cluster
updated_at none place line clusters = clusters
updated_at (some c) place line clusters = set clusters place (joined_by line c)

abbrev pub add_to :
    Option ℕ → (ℕ → String) → (List String → String) → Line → DrainMiner → DrainMiner
add_to (some place) len_key cluster_id line d = record d {
  clusters = updated_at (get_elem? d.clusters place) place line d.clusters;
}
add_to none len_key cluster_id line d =
    if leb d.max_clusters (length d.clusters) then d else record d {
      clusters = d.clusters ++ (new_cluster cluster_id line ∷ []);
      root = tree_add len_key d line.tokens (length d.clusters);
    }

unfoldable pub add_log_with_line :
    (ℕ → String) → (List String → String) → Line → DrainMiner → DrainMiner
add_log_with_line len_key cluster_id line d =
    if length line.tokens == 0
    then d
    else add_to (tree_search len_key d line.tokens) len_key cluster_id line d

-- The lines of a file, at most as many as are allowed; 0 is no limit.
unfoldable pub add_lines :
    (ℕ → String) → (List String → String) → List Line → DrainMiner → DrainMiner
add_lines len_key cluster_id [] d = d
add_lines len_key cluster_id (line ∷ rest) d =
    add_lines len_key cluster_id rest (add_log_with_line len_key cluster_id line d)

-- MineFile, where the file can be read.
unfoldable pub mine_file :
    (ℕ → String) → (List String → String) → ℕ → List Line → DrainMiner → DrainMiner
mine_file len_key cluster_id max_lines lines d =
    add_lines len_key cluster_id (if ltb 0 max_lines then take max_lines lines else lines) d
