-- ===== src/Network/Detect/Ready.antt =====
-- What a plan of Detect, of internal/network/detect.go, has that comes without a blocker.
use mikrotik_chr_script.Common.{true, List, some, ◌≡◌, ◌≢◌, ◌⊎◌, All}
use mikrotik_chr_script.Common.Bytes.{Bytes}
use mikrotik_chr_script.Common.Text.{codes}
use mikrotik_chr_script.Network.Plan.{verified, NetworkPlan}
use mikrotik_chr_script.Network.Validate.{IsUsable}
use mikrotik_chr_script.Network.Routes.{Route, ipv4, ipv6, select_default}
use mikrotik_chr_script.Network.Routes.Selected.{DefaultsAgree}
use mikrotik_chr_script.Network.Routes.Carried.{IsCarried}
use mikrotik_chr_script.Network.Host.{Host, Link, read_routes, read_network_driver, normalize_mac}
use mikrotik_chr_script.Network.Sources.{supported_network_driver}
use mikrotik_chr_script.Network.Addresses.{empty_plan}
use mikrotik_chr_script.Network.Detect.{empty_plan}
use mikrotik_chr_script.Network.Detect.Finished.{UsesUplink, HasStandardRules}

module _ (host : Host) where
  -- A plan without a blocker, and what it was read from
  pub record IsReady (v4 v6 : List Route) (plan : NetworkPlan) : Type 0 where
    pub read4 : read_routes host ipv4 ≡ some v4
    pub read6 : read_routes host ipv6 ≡ some v6
    pub usable : IsUsable host.parsers plan
    pub driver_ok : supported_network_driver plan.driver ≡ true
    pub rules_ok : HasStandardRules host ipv4 × HasStandardRules host ipv6
    pub uplink4 : UsesUplink plan.interface_name plan.ipv4.gateway (select_default v4).0
    pub uplink6 : UsesUplink plan.interface_name plan.ipv6.gateway (select_default v6).0
    pub agree4 : DefaultsAgree (select_default v4).0 v4
    pub agree6 : DefaultsAgree (select_default v6).0 v6
    pub carried4 : All (IsCarried host.parsers (select_default v4).0 plan.interface_name ipv4) v4
    pub carried6 : All (IsCarried host.parsers (select_default v6).0 plan.interface_name ipv6) v6
    pub confirmed : (plan.ipv4.mode ≢ codes "dhcp") ⊎ (plan.ipv4.evidence ≡ verified)

  abbrev linked : Bytes → Link → NetworkPlan
  linked interface_name link = record empty_plan {
    interface_name = interface_name;
    mac = normalize_mac host link.address;
    driver = read_network_driver host interface_name;
    mtu = link.mtu;
  }
