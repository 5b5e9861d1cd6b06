-- ===== src/Disk/Graph.antt =====
-- internal/disk/detect.go: the graph of block devices that lsblk reports, and the searches in it.
-- Go visits the keys of a map in any order: the order is the parameter `order`.
pub mod Closed
pub mod Visited
pub mod Backing
pub mod Mounted
use mikrotik_chr_script.Common.{
  ℕ, zero, suc, ◌+◌, Bool, true, false, not, ◌&&◌, ◌||◌, List, [], ◌∷◌, ◌++◌, map, Option, none,
  some, if◌then◌else◌, any_of, length,
}
use mikrotik_chr_script.Common.Bytes.{Bytes, bytes_eq}
use mikrotik_chr_script.Common.Text.{codes, trim_space, is_empty, text_le}
use mikrotik_chr_script.Common.Names.{listed, value_of, put}
use mikrotik_chr_script.Common.Sort.{sort_strings}
use mikrotik_chr_script.Common.Paths.{cut, base}

-- A mount point is a text, or another value of JSON (`none`).
pub record BlockNode : Type 0 where
  pub name : Bytes
  pub kname : Bytes
  pub path : Bytes
  pub node_type : Bytes
  pub pkname : Bytes
  pub size : ℕ
  pub transport : Bytes
  pub major_minor : Bytes
  pub read_only : Bool
  pub removable : Bool
  pub mountpoints : List (Option Bytes)

-- The nodes of the document: a node, its children, and the nodes behind it
pub data Forest : Type 0 where
  no_nodes : Forest
  entry : BlockNode → Forest → Forest → Forest

pub record Graph : Type 0 where
  pub by_key : List (Bytes × BlockNode)
  pub parents : List (Bytes × List BlockNode)
  pub children : List (Bytes × List BlockNode)
  pub disks : List BlockNode

abbrev no_graph : Graph
no_graph = record { by_key = []; parents = []; children = []; disks = [] }

abbrev pub append_unique : List BlockNode → BlockNode → List BlockNode
append_unique nodes candidate =
    if any_of (λ n. bytes_eq n.kname candidate.kname) nodes then nodes else nodes ++ candidate ∷ []

abbrev pub nodes_of : Bytes → List (Bytes × List BlockNode) → List BlockNode
nodes_of kname edges = elim (value_of kname edges) [ none ↦ [] | some nodes ↦ nodes ]

abbrev keys_of : BlockNode → List Bytes
keys_of n = n.name ∷ n.kname ∷ n.path ∷ (codes "/dev/" ++ n.name) ∷ (codes "/dev/" ++ n.kname) ∷ []

abbrev add_keys : List Bytes → BlockNode → List (Bytes × BlockNode) → List (Bytes × BlockNode)
add_keys [] n m = m
add_keys (key ∷ keys) n m =
    add_keys keys n (if is_empty key || bytes_eq key (codes "/dev/") then m else put key n m)

abbrev pub is_disk : BlockNode → Bool
is_disk n = bytes_eq n.node_type (codes "disk")

abbrev pub link : BlockNode → BlockNode → Graph → Graph
link parent n g = record g {
  parents = put n.kname (append_unique (nodes_of n.kname g.parents) parent) g.parents;
  children = put parent.kname (append_unique (nodes_of parent.kname g.children) n) g.children;
}

abbrev link_to : Option BlockNode → BlockNode → Graph → Graph
link_to none n g = g
link_to (some parent) n g = link parent n g

abbrev add_node : BlockNode → Graph → Graph
add_node n g = record g {
  by_key = add_keys (keys_of n) n g.by_key;
  disks = (if is_disk n then g.disks ++ n ∷ [] else g.disks);
}

unfoldable pub walk : Forest → Option BlockNode → Graph → Graph
walk no_nodes parent g = g
walk (entry n below rest) parent g =
    walk rest parent (walk below (some n) (link_to parent n (add_node n g)))

-- The key without what stands behind `[`
abbrev pub lookup : Graph → Bytes → Option BlockNode
lookup g key = elim (value_of (cut b'[' (trim_space key)).0 g.by_key) [
  | some n ↦ some n
  | none ↦ value_of (base (cut b'[' (trim_space key)).0) g.by_key
]

-- A round of the second loop of `parseGraph`
abbrev link_by_name : BlockNode → Graph → Graph
link_by_name n g = if is_empty n.pkname then g else link_to (lookup g n.pkname) n g

abbrev link_by_names : List (Bytes × BlockNode) → Graph → Graph
link_by_names [] g = g
link_by_names ((key, n) ∷ keys) g = link_by_names keys (link_by_name n g)

unfoldable pub parse_graph : (List (Bytes × BlockNode) → List (Bytes × BlockNode)) → Forest → Graph
parse_graph order devices =
    let walked = walk devices none no_graph in link_by_names (order walked.by_key) walked

-- What a search has seen so far, by kernel names, and what it collected
pub record Search : Type 0 where
  pub seen : List Bytes
  pub disks : List BlockNode
  pub unsafe : List Bytes

abbrev pub no_search : Search
no_search = record { seen = []; disks = []; unsafe = [] }

-- A loop whose rounds may run out of fuel
abbrev pub each_node {ℓ} : {S : Type ℓ} → (BlockNode → S → Option S) → List BlockNode → S → Option S
each_node visit [] s = some s
each_node visit (n ∷ ns) s = elim (visit n s) [ none ↦ none | some next ↦ each_node visit ns next ]

unfoldable pub is_safe_type : Bytes → Bool
is_safe_type t = listed t (codes "disk" ∷ codes "part" ∷ codes "crypt" ∷ codes "lvm" ∷ [])

-- `seen[node.KName] = true`, and the type where it is none of the four
abbrev pub enter : BlockNode → Search → Search
enter n s = record s {
  seen = n.kname ∷ s.seen;
  unsafe =
      (if is_safe_type n.node_type || listed n.node_type s.unsafe
        then s.unsafe
        else n.node_type ∷ s.unsafe);
}

abbrev pub add_disk : BlockNode → Search → Search
add_disk n s = record s { disks = n ∷ s.disks }

-- `visit` of `backingDisks`: the fuel bounds the depth of the recursion.
unfoldable pub visit_parents : Graph → ℕ → BlockNode → Search → Option Search
visit_parents g zero n s = none
visit_parents g (suc fuel) n s = elim (listed n.kname s.seen) [
  | true ↦ some s
  | false ↦ elim (is_disk n) [
    | true ↦ some (add_disk n (enter n s))
    | false ↦ each_node (visit_parents g fuel) (nodes_of n.kname g.parents) (enter n s)
  ]
]

abbrev pub all_knames : List (Bytes × List BlockNode) → List Bytes
all_knames [] = []
all_knames ((key, nodes) ∷ edges) = map (λ n. n.kname) nodes ++ all_knames edges

abbrev pub insert_node : BlockNode → List BlockNode → List BlockNode
insert_node n [] = n ∷ []
insert_node n (x ∷ xs) =
    let later = insert_node n xs in if text_le n.kname x.kname then n ∷ x ∷ xs else x ∷ later

-- `sort.Slice` by kernel name, which no two of the disks share
abbrev pub sort_nodes : List BlockNode → List BlockNode
sort_nodes [] = []
sort_nodes (n ∷ ns) = insert_node n (sort_nodes ns)

abbrev pub results : Option Search → Option (List BlockNode × List Bytes)
results none = none
results (some s) = some (sort_nodes s.disks, sort_strings s.unsafe)

-- `none` stands for a search that is out of fuel.
unfoldable pub backing_disks : Graph → BlockNode → Option (List BlockNode × List Bytes)
backing_disks g start =
    results (visit_parents g (length (start.kname ∷ all_knames g.parents) + 1) start no_search)

abbrev pub is_mounted : List (Option Bytes) → Bool
is_mounted [] = false
is_mounted (none ∷ points) = is_mounted points
is_mounted (some value ∷ points) = not (is_empty (trim_space value)) || is_mounted points

-- What `visit` of `hasMountedDescendant` has seen, and whether it returned true
pub record Mounts : Type 0 where
  pub names : List Bytes
  pub found : Bool

-- The loop over the children ends at the first that returns true.
unfoldable pub visit_children : Graph → ℕ → BlockNode → Mounts → Option Mounts
visit_children g zero n s = none
visit_children g (suc fuel) n s = elim (s.found || listed n.kname s.names) [
  | true ↦ some s
  | false ↦ elim (is_mounted n.mountpoints) [
    | true ↦ some (record s { names = n.kname ∷ s.names; found = true })
    | false ↦
        each_node (visit_children g fuel) (nodes_of n.kname g.children)
          (record s { names = n.kname ∷ s.names })
  ]
]

-- Out of fuel counts as mounted, which no search reaches.
unfoldable pub has_mounted_descendant : Graph → BlockNode → Bool
has_mounted_descendant g start =
    elim (visit_children g (length (start.kname ∷ all_knames g.children) + 1) start
      (record { names = []; found = false })) [ none ↦ true | some s ↦ s.found ]
