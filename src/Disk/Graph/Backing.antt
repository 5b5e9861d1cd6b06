-- ===== src/Disk/Graph/Backing.antt =====
-- The disks that backingDisks of internal/disk/detect.go finds.
use mikrotik_chr_script.Common.{
  ◌+◌, ◌≡◌, refl, sym, ap, subst, ◌↔◌, ◌⊎◌, inl, inr, true, false, List, [], ◌∷◌, some, length, In,
  Bool-cases, arith,
}
use mikrotik_chr_script.Common.Text.{text_le}
use mikrotik_chr_script.Common.Bytes.{Bytes}
use mikrotik_chr_script.Common.Names.{unseen_bound}
use mikrotik_chr_script.Common.Sort.{sort_strings, In-sort_strings}
use mikrotik_chr_script.Disk.Graph.{
  BlockNode, Graph, no_search, is_safe_type, visit_parents, sort_nodes, insert_node, results,
  backing_disks,
}
use mikrotik_chr_script.Disk.Graph.Closed.{parents, IsDiskKind, Reaches, here, up, Done}
use mikrotik_chr_script.Disk.Graph.Visited.{universe, Visited, visit_parents-Visited}

In-insert_node :
    (a n : BlockNode) (l : List BlockNode) → In a (insert_node n l) ↔ ((a ≡ n) ⊎ In a l)
In-insert_node a n [] = (λ m. m, λ m. m)
In-insert_node a n (x ∷ l) =
    ground (arith, In-insert_node a n l, Bool-cases (text_le n.kname x.kname))

In-sort_nodes : (a : BlockNode) (l : List BlockNode) → In a (sort_nodes l) ↔ In a l
In-sort_nodes a [] = (λ m. m, λ m. m)
In-sort_nodes a (x ∷ l) = ground (arith, In-insert_node a x (sort_nodes l), In-sort_nodes a l)

module _ (g : Graph) (kind : Bytes → Bytes) (start : Bytes)
    (parents_typed : (k : Bytes) (p : BlockNode)
      → In p (parents g kind k)
      → p.node_type ≡ kind p.kname) where
  module _ (n : BlockNode) (named : n.kname ≡ start) (typed : n.node_type ≡ kind start) where
    found :
        Visited g kind start no_search []
          (n ∷ [])
          (visit_parents g (length (universe g kind start) + 1) n no_search)
    found =
        visit_parents-Visited g kind start parents_typed (length (universe g kind start) + 1) [] n
          no_search
          (record {
            typed = subst (λ k. n.node_type ≡ kind k) (sym named) typed;
            counted = inl named;
            reached = subst (Reaches g kind start) (sym named) here;
          })
          (omega (arith, unseen_bound (universe g kind start) []))
          (record {
            dealt = λ k m. absurd m;
            reached = λ k m. absurd m;
            collected = λ d m. absurd m;
            marks = λ t m. absurd m;
          })

    settled : (k : Bytes) → In k found.after.seen → Done g kind found.after k
    settled k m = elim (found.closed.dealt k m) [ inl none_left ↦ absurd none_left | inr d ↦ d ]

    Reaches-In : (k : Bytes) → Reaches g kind start k → In k found.after.seen
    Reaches-In k here = subst (λ j. In j found.after.seen) named (found.covers n (inl refl))
    Reaches-In k (up j p r other m) = elim (settled j (Reaches-In j r)).above [
      | inl (disk, d, i, e) ↦ absurd cc
      | inr (h, all) ↦ all p m
    ]

    -- For a device whose ancestors have one type for each kernel name: backingDisks ends, and a kernel
    -- name is that of a disk that it returns exactly if it is that of a disk and can be reached from
    -- the device by parents without passing a disk; a type is reported exactly if it is none of the
    -- four that are supported and a device of it can be reached so.
    pub backing_disks-Reaches :
        (k t : Bytes)
        → (disks : List BlockNode) × (unsafe : List Bytes) × (backing_disks g n
            ≡ some (disks, unsafe))
          × (((d : BlockNode) × In d disks × (d.kname ≡ k))
              ↔ (Reaches g kind start k × IsDiskKind g kind k))
          × (In t unsafe
              ↔ ((is_safe_type t ≡ false) × (j : Bytes) × Reaches g kind start j × (kind j ≡ t)))
    unfolding backing_disks
    backing_disks-Reaches k t = (
      sort_nodes found.after.disks,
      sort_strings found.after.unsafe,
      rewritten,
      ((λ h. disk_sound h.0 h.1 h.2), (λ h. disk_complete k h.0 h.1)),
      (
        (λ m. found.closed.marks t ((In-sort_strings t found.after.unsafe).0 m)),
        (λ h. (In-sort_strings t found.after.unsafe).1 (mark_complete t h.0 h.1 h.2 h.3)),
      ),
    )
      where
        rewritten :
            backing_disks g n ≡ some (sort_nodes found.after.disks, sort_strings found.after.unsafe)
        rewritten = ap results found.ends

        disk_sound :
            (d : BlockNode)
            → In d (sort_nodes found.after.disks)
            → d.kname ≡ k
            → Reaches g kind start k × IsDiskKind g kind k
        disk_sound d m e =
            let c = found.closed.collected d ((In-sort_nodes d found.after.disks).0 m) in
            (subst (Reaches g kind start) e c.1, subst (IsDiskKind g kind) e c.0)

        disk_complete :
            (k : Bytes)
            → Reaches g kind start k
            → IsDiskKind g kind k
            → (d : BlockNode) × In d (sort_nodes found.after.disks) × (d.kname ≡ k)
        disk_complete k r disk = elim (settled k (Reaches-In k r)).above [
          | inl (h, d, i, e) ↦ (d, (In-sort_nodes d found.after.disks).1 i, e)
          | inr (h, all) ↦ absurd cc
        ]

        mark_complete :
            (t : Bytes)
            → is_safe_type t ≡ false
            → (j : Bytes) → Reaches g kind start j
            → kind j ≡ t
            → In t found.after.unsafe
        mark_complete t bad j r e = elim (settled j (Reaches-In j r)).type_ok [
          | inl h ↦ absurd (let h' = subst (λ u. is_safe_type u ≡ true) e h in cc)
          | inr m ↦ subst (λ u. In u found.after.unsafe) e m
        ]
