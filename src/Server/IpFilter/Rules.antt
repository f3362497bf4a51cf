-- ===== src/Server/IpFilter/Rules.antt =====
-- server/ip_filter.go: what the texts of the options name, and the order in which they count.
use send_to.Prelude.{
  ◌≡◌, Bool, true, false, ◌&&◌, ◌||◌, not, Option, none, some, List, [], ◌∷◌, Bytes, arith,
  eq_bytes, if◌then◌else◌,
}
use send_to.Server.IpFilter.{NetLib, Subnet, IpFilterOptions, scan}

-- What a text of the options names: one address, a network, or nothing.
pub data Rule (net : NetLib) : Type 0 where
  one : Bytes → Rule net
  range : net.IpNet → Rule net
  nothing : Rule net

module _ (net : NetLib) where
  abbrev pub plain_rule : Option net.Ip → Rule net
  plain_rule none = nothing
  plain_rule (some ip) = one (net.ip_string ip)

  abbrev pub cidr_rule : Bytes → Option (net.Ip × net.IpNet) → Rule net
  cidr_rule str none = plain_rule (net.parse_ip str)
  cidr_rule str (some (ip, ipnet)) =
      if net.is_single ipnet then one (net.ip_string ip) else range ipnet

  abbrev pub rule_of : Bytes → Rule net
  rule_of str = cidr_rule str (net.parse_cidr str)

  abbrev pub is_one : net.Ip → Rule net → Bool
  is_one ip (one key) = eq_bytes key (net.ip_string ip)
  is_one ip (range ipnet) = false
  is_one ip nothing = false

  abbrev pub in_range : net.Ip → Rule net → Bool
  in_range ip (one key) = false
  in_range ip (range ipnet) = net.contains ipnet ip
  in_range ip nothing = false

  abbrev pub any_rule : (Rule net → Bool) → List Bytes → Bool
  any_rule p [] = false
  any_rule p (str ∷ strs) = p (rule_of str) || any_rule p strs

  -- The decision: an allowed address, a blocked one, an allowed network, a blocked one, the default.
  unfoldable pub decided : IpFilterOptions net → net.Ip → Bool
  decided opts ip =
      if any_rule (is_one ip) opts.allowed_ips
      then true
      else if any_rule (is_one ip) opts.blocked_ips
      then false
      else if any_rule (in_range ip) opts.allowed_ips
      then true
      else if any_rule (in_range ip) opts.blocked_ips
      then false
      else not opts.block_by_default

  abbrev pub any_subnet : (Subnet net → Bool) → List (Subnet net) → Bool
  any_subnet p [] = false
  any_subnet p (s ∷ subnets) = p s || any_subnet p subnets

  abbrev pub inside : net.Ip → Subnet net → Bool
  inside ip s = net.contains s.ipnet ip

  abbrev pub lets_in : net.Ip → Subnet net → Bool
  lets_in ip s = net.contains s.ipnet ip && s.allowed

  pub scan_lem :
      (ip : net.Ip) (default_allowed blocked : Bool) (subnets : List (Subnet net))
      → scan net ip default_allowed blocked subnets ≡ (
          if any_subnet (lets_in ip) subnets
          then true
          else if blocked || any_subnet (inside ip) subnets
          then false
          else default_allowed)
  unfolding scan
  scan_lem ip d blocked [] = ground arith
  scan_lem ip d blocked (s ∷ subnets) =
      ground (arith, scan_lem ip d true subnets, scan_lem ip d blocked subnets)
