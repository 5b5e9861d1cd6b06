-- ===== src/Disk/Graph/Mounted.antt =====
-- On the search of hasMountedDescendant, of internal/disk/detect.go: what it has seen where it finds
-- nothing that is mounted.
use mikrotik_chr_script.Common.{
  ℕ, zero, suc, ◌+◌, ◌≡◌, refl, sym, subst, ◌⊎◌, inl, inr, false, List, [], ◌∷◌, length, Option,
  some, In, Bool-cases, Option-cases, arith,
}
use mikrotik_chr_script.Common.Bytes.{Bytes}
use mikrotik_chr_script.Common.Names.{listed, listed→In}
use mikrotik_chr_script.Disk.Graph.{
  BlockNode, Graph, Mounts, nodes_of, is_mounted, each_node, visit_children, has_mounted_descendant,
  all_knames,
}

-- Below a kernel name: itself, and the children of what is below it.
pub data Below (g : Graph) (start : Bytes) : Bytes → Type 0 where
  here : Below g start start
  down :
      (k : Bytes) (c : BlockNode)
      → Below g start k
      → In c (nodes_of k g.children)
      → Below g start c.kname

-- A node of the kernel name, with nothing mounted
abbrev pub HasUnmounted : Bytes → Type 0
HasUnmounted k = (v : BlockNode) × (v.kname ≡ k) × (is_mounted v.mountpoints ≡ false)

module _ (g : Graph) where
  -- Of a name that was seen, nothing is mounted; and it is still on the path of the search, or all of
  -- its children were seen too.
  record IsSearched (names pending : List Bytes) : Type 0 where
    free : (k : Bytes) → In k names → HasUnmounted k
    closed :
        (k : Bytes)
        → In k names
        → In k pending ⊎ ((c : BlockNode) → In c (nodes_of k g.children) → In c.kname names)

  record Searched (before after : Mounts) (pending : List Bytes) (nodes : List BlockNode)
      : Type 0 where
    grows : (k : Bytes) → In k before.names → In k after.names
    covers : (n : BlockNode) → In n nodes → In n.kname after.names
    searched : IsSearched after.names pending

  -- A visit that finds nothing
  abbrev Finds : (BlockNode → Mounts → Option Mounts) → Type 0
  Finds visit =
      (n : BlockNode) (s after : Mounts) (pending : List Bytes)
      → visit n s ≡ some after
      → after.found ≡ false
      → IsSearched s.names pending
      → Searched s after pending (n ∷ [])

  all_seen :
      (names : List Bytes) (start : Bytes)
      → IsSearched names []
      → In start names
      → (k : Bytes) → Below g start k
      → In k names
  all_seen names start inv first k here = first
  all_seen names start inv first k (down j c below listed_c) =
      elim (inv.closed j (all_seen names start inv first j below)) [
        | inl waits ↦ absurd waits
        | inr seen ↦ seen c listed_c
      ]

  abbrev Quiet : (BlockNode → Mounts → Option Mounts) → Type 0
  Quiet visit =
      (n : BlockNode) (s after : Mounts)
      → visit n s ≡ some after
      → after.found ≡ false
      → s.found ≡ false

  each_node-Quiet :
      (visit : BlockNode → Mounts → Option Mounts)
      → Quiet visit
      → (ns : List BlockNode) (s after : Mounts) → each_node visit ns s ≡ some after
      → after.found ≡ false
      → s.found ≡ false
  each_node-Quiet visit quiet [] s after e clear = ground arith
  each_node-Quiet visit quiet (n ∷ ns) s after e clear = elim (Option-cases (visit n s)) [
    | inl stuck ↦ absurd (let failed = rw (stuck, each_node) at e in cc)
    | inr (mid, first) ↦
        quiet n s mid first
          (each_node-Quiet visit quiet ns mid after (rw (first, each_node) at e) clear)
  ]

  each_node-Searched :
      (visit : BlockNode → Mounts → Option Mounts)
      → Quiet visit
      → Finds visit
      → (ns : List BlockNode) (s after : Mounts) (pending : List Bytes)
      → each_node visit ns s ≡ some after
      → after.found ≡ false
      → IsSearched s.names pending
      → Searched s after pending ns
  each_node-Searched visit quiet finds [] s after pending e clear inv =
      let same : s ≡ after = ground arith in
      subst (λ t. Searched s t pending []) same
        (record { grows = λ k m. m; covers = λ n m. absurd m; searched = inv })
  each_node-Searched visit quiet finds (n ∷ ns) s after pending e clear inv =
      elim (Option-cases (visit n s)) [
        | inl stuck ↦ absurd (let failed = rw (stuck, each_node) at e in cc)
        | inr (mid, first) ↦
            let later : each_node visit ns mid ≡ some after = rw (first, each_node) at e in
            let one =
              finds n s mid pending first (each_node-Quiet visit quiet ns mid after later clear)
                inv in
            let rest =
              each_node-Searched visit quiet finds ns mid after pending later clear one.searched in
            record {
              grows = λ k m. rest.grows k (one.grows k m);
              covers = λ x m. elim m [
                | inl same ↦ rest.grows x.kname (one.covers x (inl same))
                | inr others ↦ rest.covers x others
              ];
              searched = rest.searched;
            }
      ]

  visit_children-Quiet : (fuel : ℕ) → Quiet (visit_children g fuel)
  unfolding visit_children
  visit_children-Quiet zero n s after e clear = absurd cc
  visit_children-Quiet (suc fuel) n s after e clear = elim (Bool-cases s.found) [
    | inl found ↦ absurd (let same = rw (found, visit_children) at e in ground arith)
    | inr none_found ↦ none_found
  ]

  -- The node, before its children are visited
  entered :
      (n : BlockNode) (names pending : List Bytes)
      → is_mounted n.mountpoints ≡ false
      → IsSearched names pending
      → IsSearched (n.kname ∷ names) (n.kname ∷ pending)
  entered n names pending unmounted inv = record {
    free = λ k m. elim m [ inl same ↦ (n, sym same, unmounted) | inr earlier ↦ inv.free k earlier ];
    closed = λ k m. elim m [
      | inl same ↦ inl (inl same)
      | inr earlier ↦ elim (inv.closed k earlier) [
        | inl waits ↦ inl (inr waits)
        | inr seen ↦ inr (λ c listed_c. inr (seen c listed_c))
      ]
    ];
  }

  -- The node, behind its children
  left :
      (n : BlockNode) (names pending : List Bytes)
      → IsSearched names (n.kname ∷ pending)
      → ((c : BlockNode) → In c (nodes_of n.kname g.children) → In c.kname names)
      → IsSearched names pending
  left n names pending inv covers = record {
    free = inv.free;
    closed = λ k m. elim (inv.closed k m) [
      | inl (inl same) ↦
          inr (λ c listed_c. covers c (subst (λ x. In c (nodes_of x g.children)) same listed_c))
      | inl (inr waits) ↦ inl waits
      | inr seen ↦ inr seen
    ];
  }

  visit_children-Finds : (fuel : ℕ) → Finds (visit_children g fuel)
  unfolding visit_children
  visit_children-Finds zero n s after pending e clear inv = absurd cc
  visit_children-Finds (suc fuel) n s after pending e clear inv =
      let quiet = visit_children-Quiet (suc fuel) n s after e clear in
      elim (Bool-cases (listed n.kname s.names)) [
        | inl seen ↦
            let same : s ≡ after =
              (let f = rw (quiet, seen, visit_children) at e in ground arith) in
            subst (λ t. Searched s t pending (n ∷ [])) same
              (record {
                grows = λ k m. m;
                covers = λ x m. elim m [
                  | inl x_is_n ↦
                      subst (λ y. In y.kname s.names) (sym x_is_n) (listed→In n.kname s.names seen)
                  | inr others ↦ absurd others
                ];
                searched = inv;
              })
        | inr unseen ↦ elim (Bool-cases (is_mounted n.mountpoints)) [
          | inl mounted ↦
              absurd (let f = rw (quiet, unseen, mounted, visit_children) at e in ground arith)
          | inr unmounted ↦
              let below =
                each_node-Searched (visit_children g fuel) (visit_children-Quiet fuel)
                  (visit_children-Finds fuel) (nodes_of n.kname g.children)
                  (record s { names = n.kname ∷ s.names }) after (n.kname ∷ pending)
                  (rw (quiet, unseen, unmounted, visit_children) at e) clear
                  (entered n s.names pending unmounted inv) in
              record {
                grows = λ k m. below.grows k (inr m);
                covers = λ x m. elim m [
                  | inl x_is_n ↦
                      subst (λ y. In y.kname after.names) (sym x_is_n)
                        (below.grows n.kname (inl refl))
                  | inr others ↦ absurd others
                ];
                searched = left n after.names pending below.searched below.covers;
              }
        ]
      ]

  -- Of everything below a device of which hasMountedDescendant says that it has no mounted descendant,
  -- the device itself included, nothing is mounted.
  pub has_mounted_descendant-HasUnmounted :
      (start : BlockNode)
      → has_mounted_descendant g start ≡ false
      → (k : Bytes) → Below g start.kname k
      → HasUnmounted k
  unfolding has_mounted_descendant
  has_mounted_descendant-HasUnmounted start h =
      let first : Mounts = record { names = []; found = false } in
      let fuel = length (start.kname ∷ all_knames g.children) + 1 in
      elim (Option-cases (visit_children g fuel start first)) [
        | inl stuck ↦ absurd (let f = rw (stuck, has_mounted_descendant) at h in cc)
        | inr (after, ends) ↦
            let clear : after.found ≡ false = rw (ends, has_mounted_descendant) at h in
            let done =
              visit_children-Finds fuel start first after [] ends clear
                (record { free = λ k m. absurd m; closed = λ k m. absurd m }) in
            λ k below. done.searched.free k (
              all_seen after.names start.kname done.searched (done.covers start (inl refl)) k below)
      ]
