-- ===== src/Network/Plan.antt =====
-- internal/model/model.go: NetworkPlan and its parts, and Issue, whose message is not kept.
use mikrotik_chr_script.Common.{
  ℕ, Bool, true, false, List, [], ◌∷◌, ◌++◌, ◌≡◌, refl, any_of, All, arith, if◌then◌else◌, ◌≢◌,
}
use mikrotik_chr_script.Common.Bytes.{Bytes}

-- How well a value is established. `unstated` is the empty text that Go starts with.
pub data Evidence : Type 0 where
  unstated inferred verified user_supplied : Evidence

pub data Severity : Type 0 where
  info warning blocking : Severity

pub record Issue : Type 0 where
  pub severity : Severity
  pub code : Bytes

abbrev pub is_blocking : Severity → Bool
is_blocking blocking = true
is_blocking warning = false
is_blocking info = false

abbrev pub blocker : Bytes → Issue
blocker code = record { severity = blocking; code = code }

abbrev pub issue_if : Bool → Severity → Bytes → List Issue
issue_if bad severity code = if bad then record { severity = severity; code = code } ∷ [] else []

abbrev pub block_if : Bool → Bytes → List Issue
block_if bad code = issue_if bad blocking code

-- `Preflight.Blocked`
abbrev pub blocked : List Issue → Bool
blocked = any_of (λ i. is_blocking i.severity)

pub record Ipv4Plan : Type 0 where
  pub mode : Bytes
  pub addresses : List Bytes
  pub gateway : Bytes
  pub gateway_on_link : Bool
  pub use_peer_dns : Bool
  pub evidence : Evidence

pub record Ipv6Plan : Type 0 where
  pub slaac : Bool
  pub dhcp : Bool
  pub addresses : List Bytes
  pub gateway : Bytes
  pub gateway_on_link : Bool
  pub use_peer_dns : Bool
  pub evidence : Evidence

pub record DhcpProbe : Type 0 where
  pub attempted : Bool
  pub offered : Bool
  pub address : Bytes
  pub server : Bytes
  pub message : Bytes

pub record NetworkPlan : Type 0 where
  pub interface_name : Bytes
  pub mac : Bytes
  pub driver : Bytes
  pub mtu : ℕ
  pub ipv4 : Ipv4Plan
  pub ipv6 : Ipv6Plan
  pub dns : List Bytes
  pub dhcp_probe : DhcpProbe
  pub evidence : Evidence
  pub sources : List Bytes

-- A list of issues in two parts
pub blocked-append :
    (a b : List Issue) → blocked (a ++ b) ≡ false → (blocked a ≡ false) × (blocked b ≡ false)
blocked-append [] b h = (refl, h)
blocked-append (x ∷ a) b h = ground (arith, blocked-append a b)

pub block_if-ok : (bad : Bool) (code : Bytes) → blocked (block_if bad code) ≡ false → bad ≡ false
block_if-ok true code h = cc
block_if-ok false code h = refl

pub blocker-blocked :
    (before : List Issue) (code : Bytes) → blocked (before ++ blocker code ∷ []) ≢ false
blocker-blocked before code h = absurd (ground (arith, blocked-append before (blocker code ∷ []) h))

-- The issues of several inspections, one after the other
abbrev pub in_turn : List (List Issue) → List Issue
in_turn [] = []
in_turn (part ∷ parts) = part ++ in_turn parts

pub in_turn-blocked :
    (parts : List (List Issue))
    → blocked (in_turn parts) ≡ false
    → All (λ part. blocked part ≡ false) parts
in_turn-blocked [] h = tt
in_turn-blocked (part ∷ parts) h =
    let (first, rest) = blocked-append part (in_turn parts) h in (first, in_turn-blocked parts rest)
