-- ===== src/Network/Script/Order.antt =====
-- On internal/network/routeros.go: what the order of the addresses and servers of a plan does to its script.
use mathlib.Core.List.{Perm}
use mikrotik_chr_script.Common.{◌≡◌, refl, sym, subst, ap, inl, inr, List, [], ◌∷◌, In, arith}
use mikrotik_chr_script.Common.Bytes.{Bytes}
use mikrotik_chr_script.Common.Sort.{sort_strings-Perm, In-sort_strings, length-Perm}
use mikrotik_chr_script.Common.Outcome.{Result, ok, >>=-eq-ok}
use mikrotik_chr_script.Network.Plan.{NetworkPlan}
use mikrotik_chr_script.Network.Address.{Parsers}
use mikrotik_chr_script.Network.Validate.{
  PlanError, each_ok, validate, HasPassed, validate-HasPassed, HasPassed-validate,
}
use mikrotik_chr_script.Network.Script.{script_text, router_os_script}

In-Perm : (v : Bytes) (a b : List Bytes) → Perm a b → In v b → In v a
In-Perm v a b p m =
    (In-sort_strings v a).0
      (subst (In v) (sym (sort_strings-Perm a b p)) ((In-sort_strings v b).1 m))

each_ok-In :
    (check : Bytes → Result PlanError (Unit {0})) (v : Bytes) (vs : List Bytes)
    → each_ok check vs ≡ ok tt
    → In v vs
    → check v ≡ ok tt
unfolding each_ok
each_ok-In check v [] h m = absurd m
each_ok-In check v (x ∷ vs) h (inl e) =
    let (u, first, rest) = >>=-eq-ok (check x) _ h in subst (λ y. check y ≡ ok tt) (sym e) first
each_ok-In check v (x ∷ vs) h (inr m) =
    let (u, first, rest) = >>=-eq-ok (check x) _ h in each_ok-In check v vs rest m

In-each_ok :
    (check : Bytes → Result PlanError (Unit {0})) (vs : List Bytes)
    → ((v : Bytes) → In v vs → check v ≡ ok tt)
    → each_ok check vs ≡ ok tt
unfolding each_ok
In-each_ok check [] h = refl
In-each_ok check (x ∷ vs) h = rw (h x (inl refl)) (In-each_ok check vs (λ v m. h v (inr m)))

each_ok-Perm :
    (check : Bytes → Result PlanError (Unit {0})) (a b : List Bytes)
    → Perm a b
    → each_ok check a ≡ ok tt
    → each_ok check b ≡ ok tt
each_ok-Perm check a b p h = In-each_ok check b (λ v m. each_ok-In check v a h (In-Perm v a b p m))

-- A plan with its addresses and servers in another order
abbrev pub reordered : NetworkPlan → List Bytes → List Bytes → List Bytes → NetworkPlan
reordered plan addresses4 addresses6 servers = record plan {
  ipv4 = record plan.ipv4 { addresses = addresses4 };
  ipv6 = record plan.ipv6 { addresses = addresses6 };
  dns = servers;
}

module _ (parsers : Parsers) where
  reordered-HasPassed :
      (plan : NetworkPlan) (addresses4 addresses6 servers : List Bytes)
      → Perm plan.ipv4.addresses addresses4
      → Perm plan.ipv6.addresses addresses6
      → Perm plan.dns servers
      → HasPassed parsers plan
      → HasPassed parsers (reordered plan addresses4 addresses6 servers)
  reordered-HasPassed plan addresses4 addresses6 servers p4 p6 p h =
      let size4 = length-Perm plan.ipv4.addresses addresses4 p4 in
      let size6 = length-Perm plan.ipv6.addresses addresses6 p6 in
      record {
        named = h.named;
        mac = h.mac;
        mtu = h.mtu;
        mode = (let mode = h.mode in ground arith);
        prefixes = each_ok-Perm _ plan.ipv4.addresses addresses4 p4 h.prefixes;
        gateway = h.gateway;
        prefixes6 = each_ok-Perm _ plan.ipv6.addresses addresses6 p6 h.prefixes6;
        gateway6 = h.gateway6;
        servers = each_ok-Perm _ plan.dns servers p h.servers;
        some_way = (let way = h.some_way in ground arith);
      }

  script_text-Perm :
      (plan : NetworkPlan) (addresses4 addresses6 servers : List Bytes)
      → Perm plan.ipv4.addresses addresses4
      → Perm plan.ipv6.addresses addresses6
      → Perm plan.dns servers
      → script_text parsers (reordered plan addresses4 addresses6 servers)
        ≡ script_text parsers plan
  script_text-Perm plan addresses4 addresses6 servers p4 p6 p =
      rw
        (
          sym (sort_strings-Perm plan.ipv4.addresses addresses4 p4),
          sym (sort_strings-Perm plan.ipv6.addresses addresses6 p6),
          sym (sort_strings-Perm plan.dns servers p),
          sym (length-Perm plan.dns servers p),
        )
        refl

  -- For a plan that validates, the script is the same whatever the order of the IPv4 addresses, the IPv6
  -- addresses and the servers, and it is produced for every such order.
  pub router_os_script-Perm :
      (plan : NetworkPlan) (addresses4 addresses6 servers : List Bytes)
      → Perm plan.ipv4.addresses addresses4
      → Perm plan.ipv6.addresses addresses6
      → Perm plan.dns servers
      → validate parsers plan ≡ ok tt
      → (script : Bytes) × (router_os_script parsers plan ≡ ok script)
        × (router_os_script parsers (reordered plan addresses4 addresses6 servers) ≡ ok script)
  unfolding router_os_script
  router_os_script-Perm plan addresses4 addresses6 servers p4 p6 p h =
      let h' = HasPassed-validate parsers (reordered plan addresses4 addresses6 servers) (
        reordered-HasPassed plan addresses4 addresses6 servers p4 p6 p
          (validate-HasPassed parsers plan h)) in
      (
        script_text parsers plan,
        rw (h, router_os_script) refl,
        rw (h', router_os_script)
            (ap ok (script_text-Perm plan addresses4 addresses6 servers p4 p6 p)),
      )
