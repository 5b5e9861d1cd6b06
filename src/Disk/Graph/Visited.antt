-- ===== src/Disk/Graph/Visited.antt =====
-- On the search of backingDisks, of internal/disk/detect.go: that it ends, and what it has seen then.
use mikrotik_chr_script.Common.{
  ℕ, zero, suc, ◌<◌, ◌≡◌, refl, sym, ap, subst, ◌⊎◌, inl, inr, true, false, List, [], ◌∷◌, ◌++◌,
  map, Option, some, In, Bool-cases, arith,
}
use mikrotik_chr_script.Common.Text.{codes}
use mikrotik_chr_script.Common.Bytes.{Bytes, bytes_eq}
use mikrotik_chr_script.Common.Names.{listed, listed→In, unseen, unseen_mono, unseen_less}
use mikrotik_chr_script.Disk.Graph.{
  BlockNode, Graph, Search, nodes_of, is_disk, is_safe_type, enter, add_disk, each_node,
  visit_parents, all_knames,
}
use mikrotik_chr_script.Disk.Graph.Closed.{
  Grows, Grows-self, Grows-trans, enter-Grows, enter-marked, parents, Reaches, up, IsClosed,
  enter-IsClosed, disk-IsClosed, parents-IsClosed, add_disk-Grows,
}

In-map_kname :
    (n : BlockNode) (nodes : List BlockNode) (rest : List Bytes)
    → In n nodes
    → In n.kname (map (λ m. m.kname) nodes ++ rest)
In-map_kname n [] rest m = absurd m
In-map_kname n (x ∷ nodes) rest (inl e) = inl (ap (λ y. y.kname) e)
In-map_kname n (x ∷ nodes) rest (inr m) = inr (In-map_kname n nodes rest m)

In-behind : (k : Bytes) (front : List Bytes) (rest : List Bytes) → In k rest → In k (front ++ rest)
In-behind k [] rest m = m
In-behind k (x ∷ front) rest m = inr (In-behind k front rest m)

In-all_knames :
    (n : BlockNode) (k : Bytes) (edges : List (Bytes × List BlockNode))
    → In n (nodes_of k edges)
    → In n.kname (all_knames edges)
In-all_knames n k [] m = absurd m
In-all_knames n k ((key, nodes) ∷ edges) m = elim (Bool-cases (bytes_eq k key)) [
  | inl e ↦
      In-map_kname n nodes (all_knames edges)
        (subst (In n) (let hit : nodes_of k ((key, nodes) ∷ edges) ≡ nodes = ground arith in hit) m)
  | inr e ↦ In-behind n.kname (map (λ m. m.kname) nodes) (all_knames edges) (
      In-all_knames n k edges (
        subst (In n)
          (let miss : nodes_of k ((key, nodes) ∷ edges) ≡ nodes_of k edges = ground arith in miss)
          m))
]

only :
    (n : BlockNode) (names : List Bytes)
    → In n.kname names
    → (x : BlockNode) → In x (n ∷ [])
    → In x.kname names
only n names h x (inl e) = subst (λ y. In y.kname names) (sym e) h
only n names h x (inr m) = absurd m

module _ (g : Graph) (kind : Bytes → Bytes) (start : Bytes) where
  abbrev pub universe : List Bytes
  universe = start ∷ all_knames g.parents

  -- A node that the search may come to
  pub record IsKnown (n : BlockNode) : Type 0 where
    pub typed : n.node_type ≡ kind n.kname
    pub counted : In n.kname universe
    pub reached : Reaches g kind start n.kname

  -- A search that ends, with the node seen
  pub record Visited (before : Search) (pending : List Bytes) (knames : List BlockNode)
      (r : Option Search) : Type 0 where
    pub after : Search
    pub ends : r ≡ some after
    pub grows : Grows before after
    pub covers : (n : BlockNode) → In n knames → In n.kname after.seen
    pub closed : IsClosed g kind start after pending

  each_node-Visited :
      (visit : BlockNode → Search → Option Search) (pending : List Bytes) (fuel : ℕ)
      → ((n : BlockNode) (s : Search)
          → IsKnown n
          → unseen universe s.seen < fuel
          → IsClosed g kind start s pending
          → Visited s pending (n ∷ []) (visit n s))
      → (ns : List BlockNode) (s : Search) → ((n : BlockNode) → In n ns → IsKnown n)
      → unseen universe s.seen < fuel
      → IsClosed g kind start s pending
      → Visited s pending ns (each_node visit ns s)
  each_node-Visited visit pending fuel rec [] s known enough closed = record {
    after = s;
    ends = refl;
    grows = Grows-self s;
    covers = λ n m. absurd m;
    closed = closed;
  }
  each_node-Visited visit pending fuel rec (n ∷ ns) s known enough closed =
      let first = rec n s (known n (inl refl)) enough closed in
      let mono = unseen_mono universe s.seen first.after.seen first.grows.names in
      let rest =
        each_node-Visited visit pending fuel rec ns first.after (λ x m. known x (inr m))
          (omega arith) first.closed in
      record {
        after = rest.after;
        ends = rw (first.ends, each_node) rest.ends;
        grows = Grows-trans s first.after rest.after first.grows rest.grows;
        covers = λ x m. elim m [
          | inl e ↦ rest.grows.names x.kname (first.covers x (inl e))
          | inr m' ↦ rest.covers x m'
        ];
        closed = rest.closed;
      }

  module _
      (parents_typed : (k : Bytes) (p : BlockNode)
        → In p (parents g kind k)
        → p.node_type ≡ kind p.kname) where
    parents-IsKnown :
        (n : BlockNode)
        → IsKnown n
        → is_disk n ≡ false
        → (p : BlockNode) → In p (parents g kind n.kname)
        → IsKnown p
    parents-IsKnown n known other p m = record {
      typed = parents_typed n.kname p m;
      counted = inr (In-all_knames p n.kname g.parents m);
      reached =
          up n.kname p known.reached
            (subst (λ t. bytes_eq t (codes "disk") ≡ false) known.typed other) m;
    }

    kept_mark :
        (n : BlockNode) (s after : Search)
        → Grows (enter n s) after
        → (is_safe_type n.node_type ≡ true) ⊎ In n.node_type after.unsafe
    kept_mark n s after grows = elim (enter-marked n s) [
      | inl h ↦ inl h
      | inr m ↦ inr (grows.marked n.node_type m)
    ]

    pub visit_parents-Visited :
        (fuel : ℕ) (pending : List Bytes) (n : BlockNode) (s : Search)
        → IsKnown n
        → unseen universe s.seen < fuel
        → IsClosed g kind start s pending
        → Visited s pending (n ∷ []) (visit_parents g fuel n s)
    unfolding visit_parents
    visit_parents-Visited zero pending n s known enough closed = absurd (omega arith)
    visit_parents-Visited (suc fuel) pending n s known enough closed =
        elim (Bool-cases (listed n.kname s.seen)) [
          | inl e ↦ record {
            after = s;
            ends = rw (e, visit_parents) refl;
            grows = Grows-self s;
            covers = only n s.seen (listed→In n.kname s.seen e);
            closed = closed;
          }
          | inr e ↦ elim (Bool-cases (is_disk n)) [
            | inl d ↦ record {
              after = add_disk n (enter n s);
              ends = rw (e, d, visit_parents) refl;
              grows =
                  Grows-trans s (enter n s) (add_disk n (enter n s)) (enter-Grows n s)
                    (add_disk-Grows g kind start n (enter n s));
              covers = only n (n.kname ∷ s.seen) (inl refl);
              closed =
                  disk-IsClosed g kind start n (enter n s) pending known.typed d (enter-marked n s)
                    known.reached
                    (enter-IsClosed g kind start n s pending known.typed known.reached closed);
            }
            | inr d ↦
                let less = unseen_less universe s.seen n.kname known.counted e in
                let loop =
                  each_node-Visited (visit_parents g fuel) (n.kname ∷ pending) fuel
                    (λ x t. visit_parents-Visited fuel (n.kname ∷ pending) x t)
                    (parents g kind n.kname) (enter n s) (parents-IsKnown n known d) (omega arith)
                    (enter-IsClosed g kind start n s pending known.typed known.reached closed) in
                record {
                  after = loop.after;
                  ends = rw (e, d, visit_parents) loop.ends;
                  grows = Grows-trans s (enter n s) loop.after (enter-Grows n s) loop.grows;
                  covers = only n loop.after.seen (loop.grows.names n.kname (inl refl));
                  closed =
                      parents-IsClosed g kind start n loop.after pending known.typed d
                        (kept_mark n s loop.after loop.grows) loop.covers loop.closed;
                }
          ]
        ]
