-- ===== src/Netns/Spec.antt =====
-- netns/spec.rs: the stages that set a namespace up, and the cleanup.
use herm_os_test.Prelude.{Bool, true, false, List, [], ◌∷◌, Text, codes}
use herm_os_test.Netns.Instance.{NetnsInstance}
use herm_os_test.Netns.Command.{
  Words, NetnsHost, netns_add as command_netns_add, host_ip, host_iptables, netns_ip,
  netns_iptables, netns_del, run_command,
}

abbrev pub tap_name : Text
tap_name = codes "tap0"

abbrev pub ns_veth_name : Text
ns_veth_name = codes "veth0"

abbrev pub tap_cidr : Text
tap_cidr = codes "172.16.0.1/30"

abbrev pub tap_nat_cidr : Text
tap_nat_cidr = codes "172.16.0.1/30"

pub record Stage : Type 0 where
  pub name : Text
  pub allow_failure : Bool
  pub build : NetnsInstance → Text → Words

module _ (n : NetnsHost) where
  unfoldable pub netns_add : NetnsInstance → Text → Words
  netns_add i upstream = command_netns_add n i.namespace

  unfoldable pub tap_add : NetnsInstance → Text → Words
  tap_add i upstream =
      netns_ip n i.namespace
        (codes "tuntap" ∷ codes "add" ∷ codes "dev" ∷ tap_name ∷ codes "mode" ∷ codes "tap" ∷ [])

  unfoldable pub tap_addr : NetnsInstance → Text → Words
  tap_addr i upstream =
      netns_ip n i.namespace (codes "addr" ∷ codes "add" ∷ tap_cidr ∷ codes "dev" ∷ tap_name ∷ [])

  unfoldable pub tap_up : NetnsInstance → Text → Words
  tap_up i upstream =
      netns_ip n i.namespace (codes "link" ∷ codes "set" ∷ tap_name ∷ codes "up" ∷ [])

  unfoldable pub veth_add : NetnsInstance → Text → Words
  veth_add i upstream = host_ip n (
      codes "link"
      ∷ codes "add"
      ∷ codes "name"
      ∷ i.host_veth
      ∷ codes "type"
      ∷ codes "veth"
      ∷ codes "peer"
      ∷ codes "name"
      ∷ ns_veth_name
      ∷ codes "netns"
      ∷ i.namespace
      ∷ [])

  unfoldable pub ns_veth_addr : NetnsInstance → Text → Words
  ns_veth_addr i upstream =
      netns_ip n i.namespace
        (codes "addr" ∷ codes "add" ∷ i.ns_veth_cidr ∷ codes "dev" ∷ ns_veth_name ∷ [])

  unfoldable pub ns_veth_up : NetnsInstance → Text → Words
  ns_veth_up i upstream =
      netns_ip n i.namespace
        (codes "link" ∷ codes "set" ∷ codes "dev" ∷ ns_veth_name ∷ codes "up" ∷ [])

  unfoldable pub host_veth_addr : NetnsInstance → Text → Words
  host_veth_addr i upstream =
      host_ip n (codes "addr" ∷ codes "add" ∷ i.host_veth_cidr ∷ codes "dev" ∷ i.host_veth ∷ [])

  unfoldable pub host_veth_up : NetnsInstance → Text → Words
  host_veth_up i upstream =
      host_ip n (codes "link" ∷ codes "set" ∷ codes "dev" ∷ i.host_veth ∷ codes "up" ∷ [])

  unfoldable pub route_add : NetnsInstance → Text → Words
  route_add i upstream =
      netns_ip n i.namespace
        (codes "route" ∷ codes "add" ∷ codes "default" ∷ codes "via" ∷ i.host_veth_gateway ∷ [])

  unfoldable pub ns_nat : NetnsInstance → Text → Words
  ns_nat i upstream = netns_iptables n i.namespace (
      codes "-t"
      ∷ codes "nat"
      ∷ codes "-A"
      ∷ codes "POSTROUTING"
      ∷ codes "-s"
      ∷ tap_nat_cidr
      ∷ codes "-o"
      ∷ ns_veth_name
      ∷ codes "-j"
      ∷ codes "MASQUERADE"
      ∷ [])

  unfoldable pub host_nat : NetnsInstance → Text → Words
  host_nat i upstream = host_iptables n (
      codes "-t"
      ∷ codes "nat"
      ∷ codes "-A"
      ∷ codes "POSTROUTING"
      ∷ codes "-s"
      ∷ i.veth_network
      ∷ codes "-o"
      ∷ upstream
      ∷ codes "-j"
      ∷ codes "MASQUERADE"
      ∷ [])

  unfoldable pub forward_accept : NetnsInstance → Text → Words
  forward_accept i upstream =
      netns_iptables n i.namespace (codes "-P" ∷ codes "FORWARD" ∷ codes "ACCEPT" ∷ [])

  unfoldable pub delete_host_nat : NetnsInstance → Text → Words
  delete_host_nat i upstream = host_iptables n (
      codes "-t"
      ∷ codes "nat"
      ∷ codes "-D"
      ∷ codes "POSTROUTING"
      ∷ codes "-s"
      ∷ i.veth_network
      ∷ codes "-o"
      ∷ upstream
      ∷ codes "-j"
      ∷ codes "MASQUERADE"
      ∷ [])

  abbrev stage : Text → (NetnsInstance → Text → Words) → Stage
  stage name build = record { name = name; allow_failure = false; build = build }

  unfoldable pub stages : List Stage
  stages =
      stage (codes "netns_add") netns_add
      ∷ stage (codes "tap_add") tap_add
      ∷ stage (codes "tap_addr") tap_addr
      ∷ stage (codes "tap_up") tap_up
      ∷ stage (codes "veth_add") veth_add
      ∷ stage (codes "ns_veth_addr") ns_veth_addr
      ∷ stage (codes "ns_veth_up") ns_veth_up
      ∷ stage (codes "host_veth_addr") host_veth_addr
      ∷ stage (codes "host_veth_up") host_veth_up
      ∷ stage (codes "route_add") route_add
      ∷ stage (codes "ns_nat") ns_nat
      ∷ stage (codes "host_nat") host_nat
      ∷ stage (codes "forward_accept") forward_accept
      ∷ []

  abbrev pub cleanup_commands : NetnsInstance → Text → List Words
  cleanup_commands i upstream =
      delete_host_nat i upstream
      ∷ host_ip n (codes "link" ∷ codes "del" ∷ i.host_veth ∷ [])
      ∷ netns_del n i.namespace
      ∷ []

  -- `let _ = run_command(&command, true)`
  unfoldable pub run_all_allowed : List Words → n.World → n.World
  run_all_allowed [] w = w
  run_all_allowed (c ∷ cs) w = run_all_allowed cs (run_command n c true w).1

  unfoldable pub cleanup : NetnsInstance → Text → n.World → n.World
  unfolding run_all_allowed
  cleanup i upstream w = run_all_allowed (cleanup_commands i upstream) w
