-- ===== src/Server/IpFilter/Tests.antt =====
-- A blocked address in an allowed network.
use send_to.Prelude.{◌≡◌, refl, true, false, some, [], ◌∷◌, codes, eq_bytes}
use send_to.Server.IpFilter.{IpFilterOptions, new_ip_filter, net_allowed}
use send_to.Server.IpFilter.Toy.{toy_net}
use send_to.Server.IpFilter.Rules.{decided}
use send_to.Server.IpFilter.Precedence.{net_allowed-new_ip_filter}

-- a blocked address in an allowed network
abbrev options : IpFilterOptions toy_net
options = record {
  allowed_ips = codes "abc*" ∷ [];
  blocked_ips = codes "abcd" ∷ [];
  block_by_default = true;
}

net_allowed-new_ip_filter_example :
    net_allowed toy_net (new_ip_filter toy_net options) (some (codes "abcd"))
    ≡ decided toy_net options (codes "abcd")
net_allowed-new_ip_filter_example = net_allowed-new_ip_filter toy_net options (codes "abcd")

blocked_in_allowed : decided toy_net options (codes "abcd") ≡ false
unfolding decided eq_bytes
blocked_in_allowed = refl
