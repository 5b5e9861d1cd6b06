-- ===== src/Network/Routes/Selected.antt =====
-- The default route that selectDefault of internal/network/detect.go takes.
use mikrotik_chr_script.Common.{
  ◌≤◌, ◌<◌, ◌≡◌, ◌++◌, ap, refl, sym, subst, ◌⊎◌, inl, inr, true, false, not, List, [], ◌∷◌, Option,
  none, some, leb, leb→le, All, In, In-keep, In-All, All-In, In-keep-of, any_of, keep, Bool-cases,
  arith,
}
use mikrotik_chr_script.Common.Text.{codes}
use mikrotik_chr_script.Common.Bytes.{bytes_eq, bytes_eq→eq, bytes_eq_self}
use mikrotik_chr_script.Network.Plan.{Issue, blocker, blocked, blocked-append}
use mikrotik_chr_script.Network.Routes.{
  Route, is_default_route, insert_by_metric, sort_by_metric, same_path, first_default,
  select_default, append_issue,
}

-- Sorting moves elements only.
In-insert : (a r : Route) (xs : List Route) → In a (insert_by_metric r xs) → (a ≡ r) ⊎ In a xs
In-insert a r [] m = m
In-insert a r (x ∷ xs) m = ground (arith, In-insert a r xs)

insert-In : (a r : Route) (xs : List Route) → (a ≡ r) ⊎ In a xs → In a (insert_by_metric r xs)
insert-In a r [] m = m
insert-In a r (x ∷ xs) m = ground (arith, insert-In a r xs)

In-sort : (a : Route) (xs : List Route) → In a (sort_by_metric xs) → In a xs
In-sort a [] m = m
In-sort a (x ∷ xs) m = ground (arith, In-insert a x (sort_by_metric xs) m, In-sort a xs)

sort-In : (a : Route) (xs : List Route) → In a xs → In a (sort_by_metric xs)
sort-In a [] m = m
sort-In a (x ∷ xs) (inl e) = insert-In a x (sort_by_metric xs) (inl e)
sort-In a (x ∷ xs) (inr m) = insert-In a x (sort_by_metric xs) (inr (sort-In a xs m))

-- The head has the least metric.
abbrev IsLeast : Route → List Route → Type 0
IsLeast r xs = All (λ x. r.metric ≤ x.metric) xs

abbrev HasLeastHead : List Route → Type 0
HasLeastHead [] = Unit {0}
HasLeastHead (x ∷ xs) = IsLeast x xs × HasLeastHead xs

insert-HasLeastHead :
    (r : Route) (xs : List Route) → HasLeastHead xs → HasLeastHead (insert_by_metric r xs)
insert-HasLeastHead r [] h = (tt, tt)
insert-HasLeastHead r (x ∷ xs) h = elim (Bool-cases (leb r.metric x.metric)) [
  | inl e ↦
      let le = leb→le r.metric x.metric e in
      rw e (
        (
          le,
          All-In (λ y. r.metric ≤ y.metric) xs
              (λ y m. let least = In-All (λ z. x.metric ≤ z.metric) y xs m h.0 in omega arith),
        ),
        h,
      )
  | inr e ↦ rw e (
    All-In (λ y. x.metric ≤ y.metric) (insert_by_metric r xs)
        (λ y m. elim (In-insert y r xs m) [
          | inl q ↦ ground arith
          | inr q ↦ In-All (λ z. x.metric ≤ z.metric) y xs q h.0
        ]),
    insert-HasLeastHead r xs h.1,
  )
]

sort-HasLeastHead : (xs : List Route) → HasLeastHead (sort_by_metric xs)
sort-HasLeastHead [] = tt
sort-HasLeastHead (x ∷ xs) = insert-HasLeastHead x (sort_by_metric xs) (sort-HasLeastHead xs)

abbrev IsDefault : Route → Type 0
IsDefault r = is_default_route r.destination ≡ true

abbrev pub TakesSamePath : Route → Route → Type 0
TakesSamePath selected r = (r.device ≡ selected.device) × (r.gateway ≡ selected.gateway)

-- What is selected: the first default route of the list with the least metric of all of them.
pub record IsSelected (routes : List Route) (selected : Route) : Type 0 where
  pub before : List Route
  pub after : List Route
  pub listed : routes ≡ before ++ selected ∷ after
  pub is_default : IsDefault selected
  pub earlier :
      All (λ r. (is_default_route r.destination ≡ false) ⊎ (selected.metric < r.metric)) before
  pub later :
      All (λ r. (is_default_route r.destination ≡ false) ⊎ (selected.metric ≤ r.metric)) after

same_path-TakesSamePath :
    (selected : Route) (others : List Route)
    → any_of (λ c. not (same_path selected c)) others ≡ false
    → All (TakesSamePath selected) others
same_path-TakesSamePath selected [] h = tt
same_path-TakesSamePath selected (c ∷ cs) h = (
  (
    bytes_eq→eq c.device selected.device (ground arith),
    bytes_eq→eq c.gateway selected.gateway (ground arith),
  ),
  same_path-TakesSamePath selected cs (ground arith),
)

-- Every default route of the list takes the path of the selected one.
abbrev pub Agree : Route → List Route → Type 0
Agree selected routes =
    All (λ r. (is_default_route r.destination ≡ false) ⊎ TakesSamePath selected r) routes

abbrev pub Outcome : List Route → Option Route × Option Issue → Type 0
Outcome routes chosen =
    ((chosen.0 ≡ none)
      × (chosen.1 ≡ none)
      × All (λ r. is_default_route r.destination ≡ false) routes)
    ⊎ ((selected : Route) × (chosen.0 ≡ some selected)
        × IsSelected routes selected
        × (((chosen.1 ≡ some (blocker (codes "multiple-defaults")))
              × (other : Route) × In other routes
              × IsDefault other
              × ¬ (TakesSamePath selected other))
            ⊎ ((chosen.1 ≡ none) × Agree selected routes)))

-- A property of all the default routes, of each route
of_routes :
    (P : Route → Type 0) (routes sorted : List Route)
    → sort_by_metric (keep (λ r. is_default_route r.destination) routes) ≡ sorted
    → All P sorted
    → All (λ r. (is_default_route r.destination ≡ false) ⊎ P r) routes
of_routes P routes sorted e h = All-In _ routes (λ r m.
    elim (Bool-cases (is_default_route r.destination)) [
      | inl d ↦ inr (
          In-All P r sorted
            (subst (λ s. In r s) e
              (sort-In r (keep (λ r. is_default_route r.destination) routes)
                (In-keep-of (λ r. is_default_route r.destination) r routes d m)))
            h)
      | inr d ↦ inl d
    ])

head_eq : {a b : Route} {l m : List Route} → a ∷ l ≡ b ∷ m → a ≡ b
head_eq h = ground arith

insert-IsSelected :
    (r selected : Route) (rs sorted rest : List Route)
    → IsDefault r
    → sort_by_metric (keep (λ r. is_default_route r.destination) rs) ≡ sorted
    → ((x : Route) (xs : List Route) → sorted ≡ x ∷ xs → IsSelected rs x)
    → insert_by_metric r sorted ≡ selected ∷ rest
    → IsSelected (r ∷ rs) selected
insert-IsSelected r selected rs [] rest default e found h =
    subst (IsSelected (r ∷ rs)) (head_eq h) (record {
      before = [];
      after = rs;
      listed = refl;
      is_default = default;
      earlier = tt;
      later = of_routes (λ q. r.metric ≤ q.metric) rs [] e tt;
    })
insert-IsSelected r selected rs (x ∷ xs) rest default e found h =
    elim (Bool-cases (leb r.metric x.metric)) [
      | inl le ↦
          let least : HasLeastHead (x ∷ xs) =
            subst HasLeastHead e
              (sort-HasLeastHead (keep (λ r. is_default_route r.destination) rs)) in
          let low = leb→le r.metric x.metric le in
          subst (IsSelected (r ∷ rs)) (head_eq (rw le at h)) (record {
            before = [];
            after = rs;
            listed = refl;
            is_default = default;
            earlier = tt;
            later =
                of_routes (λ q. r.metric ≤ q.metric) rs (x ∷ xs) e
                  (
                    low,
                    All-In (λ q. r.metric ≤ q.metric) xs
                        (λ q m.
                          let above = In-All (λ z. x.metric ≤ z.metric) q xs m least.0 in
                          omega arith),
                  );
          })
      | inr gt ↦
          let chosen = found x xs refl in
          subst (IsSelected (r ∷ rs)) (head_eq (rw gt at h)) (record {
            before = r ∷ chosen.before;
            after = chosen.after;
            listed = ap (λ l. r ∷ l) chosen.listed;
            is_default = chosen.is_default;
            earlier = (inr (ground arith), chosen.earlier);
            later = chosen.later;
          })
    ]

sorted-IsSelected :
    (routes : List Route) (selected : Route) (rest : List Route)
    → sort_by_metric (keep (λ r. is_default_route r.destination) routes) ≡ selected ∷ rest
    → IsSelected routes selected
sorted-IsSelected [] selected rest e = absurd cc
sorted-IsSelected (r ∷ rs) selected rest e = elim (Bool-cases (is_default_route r.destination)) [
  | inl default ↦
      insert-IsSelected r selected rs
        (sort_by_metric (keep (λ r. is_default_route r.destination) rs)) rest default refl
        (λ x xs h. sorted-IsSelected rs x xs h) (rw default at e)
  | inr other ↦
      let chosen = sorted-IsSelected rs selected rest (rw other at e) in
      record {
        before = r ∷ chosen.before;
        after = chosen.after;
        listed = ap (λ l. r ∷ l) chosen.listed;
        is_default = chosen.is_default;
        earlier = (inl other, chosen.earlier);
        later = chosen.later;
      }
]

-- A route that takes another path, where there is one
other_path :
    (selected : Route) (others : List Route)
    → any_of (λ c. not (same_path selected c)) others ≡ true
    → (other : Route) × In other others × ¬ (TakesSamePath selected other)
other_path selected [] h = absurd cc
other_path selected (c ∷ cs) h = elim (Bool-cases (same_path selected c)) [
  | inl same ↦
      let (other, listed, differs) = other_path selected cs (ground arith) in
      (other, inr listed, differs)
  | inr differs ↦ (
    c,
    inl refl,
    λ same.
        let device : bytes_eq c.device selected.device ≡ true =
          rw same.0 (bytes_eq_self selected.device) in
        let gateway : bytes_eq c.gateway selected.gateway ≡ true =
          rw same.1 (bytes_eq_self selected.gateway) in
        ground arith,
  )
]

first_default-Outcome :
    (routes sorted : List Route)
    → sort_by_metric (keep (λ r. is_default_route r.destination) routes) ≡ sorted
    → Outcome routes (first_default sorted)
first_default-Outcome routes [] e =
    inl (refl, refl, All-In _ routes (λ r m. elim (of r m) [ inl d ↦ d | inr d ↦ absurd d ]))
  where
    of : (r : Route) → In r routes → (is_default_route r.destination ≡ false) ⊎ ⊥
    of r m = In-All _ r routes m (of_routes (λ r. ⊥) routes [] e tt)
first_default-Outcome routes (selected ∷ others) e = inr (selected, refl, chosen, agreed)
  where
    found : (r : Route) → In r (selected ∷ others) → IsDefault r × In r routes
    found r m =
        In-keep (λ r. is_default_route r.destination) r routes
          (In-sort r (keep (λ r. is_default_route r.destination) routes)
            (subst (λ s. In r s) (sym e) m))

    chosen : IsSelected routes selected
    chosen = sorted-IsSelected routes selected others e

    agreed :
        (((first_default (selected ∷ others)).1 ≡ some (blocker (codes "multiple-defaults")))
          × (other : Route) × In other routes
          × IsDefault other
          × ¬ (TakesSamePath selected other))
        ⊎ (((first_default (selected ∷ others)).1 ≡ none) × Agree selected routes)
    agreed = elim (Bool-cases (any_of (λ c. not (same_path selected c)) others)) [
      | inl h ↦
          let (other, listed, differs) = other_path selected others h in
          let (default, in_routes) = found other (inr listed) in
          inl (rw h refl, other, in_routes, default, differs)
      | inr h ↦ inr (
        rw h refl,
        of_routes (TakesSamePath selected) routes (selected ∷ others) e
            ((refl, refl), same_path-TakesSamePath selected others h),
      )
    ]

-- Either no route is a default route, and nothing is selected and nothing reported; or the first default
-- route of the list that has the least metric of the default routes is selected, and multiple-defaults
-- is reported exactly if another default route has another device or another gateway.
pub select_default-Outcome : (routes : List Route) → Outcome routes (select_default routes)
unfolding select_default
select_default-Outcome routes = first_default-Outcome routes _ refl

-- What is known of the default routes where nothing is reported
abbrev pub DefaultsAgree : Option Route → List Route → Type 0
DefaultsAgree none routes = All (λ r. is_default_route r.destination ≡ false) routes
DefaultsAgree (some selected) routes = IsSelected routes selected × Agree selected routes

pub select_default-DefaultsAgree :
    (routes : List Route)
    → blocked (append_issue [] (select_default routes).1) ≡ false
    → DefaultsAgree (select_default routes).0 routes
select_default-DefaultsAgree routes h = elim (select_default-Outcome routes) [
  | inl (nothing, quiet, no_default) ↦ rw nothing no_default
  | inr (selected, chosen, is_selected, inl (told, other, listed, default, differs)) ↦
      absurd (let blocked_by = rw told at h in cc)
  | inr (selected, chosen, is_selected, inr (quiet, agree)) ↦ rw chosen (is_selected, agree)
]

pub append_issue-ok :
    (issues : List Issue) (found : Option Issue)
    → blocked (append_issue issues found) ≡ false
    → (blocked issues ≡ false) × (blocked (append_issue [] found) ≡ false)
append_issue-ok issues none h = (h, refl)
append_issue-ok issues (some issue) h = blocked-append issues (issue ∷ []) h
