-- ===== src/Netns/Instance.antt =====
-- netns/instance.rs: the names and the addresses of a namespace.
pub mod Names
use herm_os_test.Prelude.{ℕ, ◌+◌, ◌/◌, ◌%◌, ◌++◌, Text, codes, display, take}

pub record NetnsInstance : Type 0 where
  pub namespace : Text
  pub host_veth : Text
  pub host_veth_cidr : Text
  pub host_veth_gateway : Text
  pub ns_veth_cidr : Text
  pub veth_network : Text

-- `format!("{:x}", now & 0xfffff)`, with the time of the first call as a parameter
unfoldable pub run_token : ℕ → Text
run_token now = display 16 (now % 1048576)

unfoldable pub suffix : Text → ℕ → Text
suffix token seq = display 16 seq ++ token

unfoldable pub octet2 : ℕ → ℕ
octet2 seq = 64 + seq / 256 % 64

unfoldable pub octet3 : ℕ → ℕ
octet3 seq = seq % 256

-- `10.{octet2}.{octet3}.` and what follows
unfoldable pub address : ℕ → Text → Text
unfolding octet2 octet3
address seq rest =
    codes "10." ++ (display 10 (octet2 seq) ++ (codes "." ++ (display 10 (octet3 seq) ++ rest)))

-- `build_instance`, with the token of the run
unfoldable pub build_instance : Text → ℕ → NetnsInstance
unfolding suffix address
build_instance token seq = record {
  namespace = take 31 (codes "fc" ++ suffix token seq);
  host_veth = take 15 (codes "fcv" ++ suffix token seq);
  host_veth_cidr = address seq (codes ".1/30");
  host_veth_gateway = address seq (codes ".1");
  ns_veth_cidr = address seq (codes ".2/30");
  veth_network = address seq (codes ".0/30");
}
