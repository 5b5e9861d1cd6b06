-- ===== src/Disk/Graph/Closed.antt =====
-- What the depth-first search of backingDisks, of internal/disk/detect.go, keeps: a name that was seen is
-- still on the path of the search, or all that is above it was seen too.
use mikrotik_chr_script.Common.{
  ◌≡◌, refl, sym, subst, ◌∙◌, ◌⊎◌, inl, inr, true, false, ◌||◌, List, ◌∷◌, In, Bool-cases, arith,
}
use mikrotik_chr_script.Common.Bytes.{Bytes, bytes_eq}
use mikrotik_chr_script.Common.Text.{codes}
use mikrotik_chr_script.Common.Names.{listed, listed→In}
use mikrotik_chr_script.Disk.Graph.{
  BlockNode, Graph, Search, nodes_of, is_disk, is_safe_type, enter, add_disk,
}

-- What each search adds to
pub record Grows (before after : Search) : Type 0 where
  pub names : (k : Bytes) → In k before.seen → In k after.seen
  pub kept : (d : BlockNode) → In d before.disks → In d after.disks
  pub marked : (t : Bytes) → In t before.unsafe → In t after.unsafe

pub Grows-self : (s : Search) → Grows s s
Grows-self s = record { names = λ k m. m; kept = λ d m. m; marked = λ t m. m }

pub Grows-trans : (a b c : Search) → Grows a b → Grows b c → Grows a c
Grows-trans a b c f g = record {
  names = λ k m. g.names k (f.names k m);
  kept = λ d m. g.kept d (f.kept d m);
  marked = λ t m. g.marked t (f.marked t m);
}

pub enter-Grows : (n : BlockNode) (s : Search) → Grows s (enter n s)
enter-Grows n s = record {
  names = λ k m. inr m;
  kept = λ d m. m;
  marked = λ t m. elim (Bool-cases (is_safe_type n.node_type || listed n.node_type s.unsafe)) [
    | inl e ↦ rw e m
    | inr e ↦ rw e (inr m)
  ];
}

In-enter :
    (n : BlockNode) (s : Search) (t : Bytes)
    → In t (enter n s).unsafe
    → ((t ≡ n.node_type) × (is_safe_type n.node_type ≡ false)) ⊎ In t s.unsafe
In-enter n s t m = elim (Bool-cases (is_safe_type n.node_type || listed n.node_type s.unsafe)) [
  | inl e ↦ inr (rw e at m)
  | inr e ↦ elim (mark n s t e m) [ inl h ↦ inl (h, ground arith) | inr m' ↦ inr m' ]
]
  where
    mark :
        (n : BlockNode) (s : Search) (t : Bytes)
        → (is_safe_type n.node_type || listed n.node_type s.unsafe) ≡ false
        → In t (enter n s).unsafe
        → In t (n.node_type ∷ s.unsafe)
    mark n s t e m = rw e at m

pub enter-marked :
    (n : BlockNode) (s : Search)
    → (is_safe_type n.node_type ≡ true) ⊎ In n.node_type (enter n s).unsafe
enter-marked n s = elim (Bool-cases (is_safe_type n.node_type)) [
  | inl e ↦ inl e
  | inr e ↦ elim (Bool-cases (listed n.node_type s.unsafe)) [
    | inl e' ↦ inr ((enter-Grows n s).marked n.node_type (listed→In n.node_type s.unsafe e'))
    | inr e' ↦ inr (rw (e, e') (inl refl))
  ]
]

-- `kind` is the type of the device of a kernel name.
module _ (g : Graph) (kind : Bytes → Bytes) where
  abbrev pub parents : Bytes → List BlockNode
  parents k = nodes_of k g.parents

  abbrev pub IsDiskKind : Bytes → Type 0
  IsDiskKind k = bytes_eq (kind k) (codes "disk") ≡ true

  -- Going up from a device to those that it is on, but not beyond a disk
  pub data Reaches (start : Bytes) : Bytes → Type 0 where
    here : Reaches start start
    up :
        (k : Bytes) (p : BlockNode)
        → Reaches start k
        → bytes_eq (kind k) (codes "disk") ≡ false
        → In p (parents k)
        → Reaches start p.kname

  -- A name that is dealt with: its type is known, and it is a disk that was collected, or all above it
  -- was seen.
  pub record Done (s : Search) (k : Bytes) : Type 0 where
    pub type_ok : (is_safe_type (kind k) ≡ true) ⊎ In (kind k) s.unsafe
    pub above :
        ((bytes_eq (kind k) (codes "disk") ≡ true) × (d : BlockNode) × In d s.disks × (d.kname ≡ k))
        ⊎ ((bytes_eq (kind k) (codes "disk") ≡ false)
            × ((p : BlockNode) → In p (parents k) → In p.kname s.seen))

  Done-Grows : (a b : Search) (k : Bytes) → Grows a b → Done a k → Done b k
  Done-Grows a b k f d = record {
    type_ok = elim d.type_ok [ inl h ↦ inl h | inr m ↦ inr (f.marked (kind k) m) ];
    above = elim d.above [
      | inl (h, disk, m, e) ↦ inl (h, disk, f.kept disk m, e)
      | inr (h, all) ↦ inr (h, λ p m. f.names p.kname (all p m))
    ];
  }

  module _ (start : Bytes) where
    pub record IsClosed (s : Search) (pending : List Bytes) : Type 0 where
      pub dealt : (k : Bytes) → In k s.seen → In k pending ⊎ Done s k
      pub reached : (k : Bytes) → In k s.seen → Reaches start k
      pub collected : (d : BlockNode) → In d s.disks → IsDiskKind d.kname × Reaches start d.kname
      pub marks :
          (t : Bytes)
          → In t s.unsafe
          → (is_safe_type t ≡ false) × (k : Bytes) × Reaches start k × (kind k ≡ t)

    -- Into a node that was not seen
    pub enter-IsClosed :
        (n : BlockNode) (s : Search) (pending : List Bytes)
        → n.node_type ≡ kind n.kname
        → Reaches start n.kname
        → IsClosed s pending
        → IsClosed (enter n s) (n.kname ∷ pending)
    enter-IsClosed n s pending typed reached c = record {
      dealt = λ k m. elim m [
        | inl e ↦ inl (inl e)
        | inr m' ↦ elim (c.dealt k m') [
          | inl p ↦ inl (inr p)
          | inr d ↦ inr (Done-Grows s (enter n s) k (enter-Grows n s) d)
        ]
      ];
      reached =
          λ k m. elim m [ inl e ↦ subst (Reaches start) (sym e) reached | inr m' ↦ c.reached k m' ];
      collected = c.collected;
      marks = λ t m. elim (In-enter n s t m) [
        | inl (e, bad) ↦
            (subst (λ u. is_safe_type u ≡ false) (sym e) bad, n.kname, reached, sym typed ∙ sym e)
        | inr m' ↦ c.marks t m'
      ];
    }

    pub add_disk-Grows : (n : BlockNode) (s : Search) → Grows s (add_disk n s)
    add_disk-Grows n s = record { names = λ k m. m; kept = λ d m. inr m; marked = λ t m. m }

    -- A node whose type is marked is done when it is a disk that is collected.
    pub disk-IsClosed :
        (n : BlockNode) (s : Search) (pending : List Bytes)
        → n.node_type ≡ kind n.kname
        → is_disk n ≡ true
        → (is_safe_type n.node_type ≡ true) ⊎ In n.node_type s.unsafe
        → Reaches start n.kname
        → IsClosed s (n.kname ∷ pending)
        → IsClosed (add_disk n s) pending
    disk-IsClosed n s pending typed disk mark reached c = record {
      dealt = λ k m. elim (c.dealt k m) [
        | inl (inl e) ↦ inr (
            subst (Done (add_disk n s)) (sym e) (record {
              type_ok = subst (λ t. (is_safe_type t ≡ true) ⊎ In t s.unsafe) typed mark;
              above =
                  inl (subst (λ t. bytes_eq t (codes "disk") ≡ true) typed disk, n, inl refl, refl);
            }))
        | inl (inr p) ↦ inl p
        | inr d ↦ inr (Done-Grows s (add_disk n s) k (add_disk-Grows n s) d)
      ];
      reached = c.reached;
      collected = λ d m. elim m [
        | inl e ↦
            subst (λ x. IsDiskKind x.kname × Reaches start x.kname) (sym e)
              (subst (λ t. bytes_eq t (codes "disk") ≡ true) typed disk, reached)
        | inr m' ↦ c.collected d m'
      ];
      marks = c.marks;
    }

    -- Another node is done when all that is above it was seen.
    pub parents-IsClosed :
        (n : BlockNode) (s : Search) (pending : List Bytes)
        → n.node_type ≡ kind n.kname
        → is_disk n ≡ false
        → (is_safe_type n.node_type ≡ true) ⊎ In n.node_type s.unsafe
        → ((p : BlockNode) → In p (parents n.kname) → In p.kname s.seen)
        → IsClosed s (n.kname ∷ pending)
        → IsClosed s pending
    parents-IsClosed n s pending typed other mark above c = record {
      dealt = λ k m. elim (c.dealt k m) [
        | inl (inl e) ↦ inr (
            subst (Done s) (sym e) (record {
              type_ok = subst (λ t. (is_safe_type t ≡ true) ⊎ In t s.unsafe) typed mark;
              above = inr (subst (λ t. bytes_eq t (codes "disk") ≡ false) typed other, above);
            }))
        | inl (inr p) ↦ inl p
        | inr d ↦ inr d
      ];
      reached = c.reached;
      collected = c.collected;
      marks = c.marks;
    }
