-- ===== src/Server/IpFilter.antt =====
-- server/ip_filter.go: which addresses may pass. The addresses and networks of package net are a
-- parameter; the mutex is not modelled, a change of the filter and a question to it run alone.
pub mod Rules
pub mod Subnets
pub mod Precedence
pub mod Toy
mod Tests
use send_to.Prelude.{
  Bool, true, false, ◌&&◌, ◌||◌, not, Option, none, some, List, [], ◌∷◌, ◌++◌, Bytes, eq_bytes,
  if◌then◌else◌,
}

-- `net.ParseCIDR`, `net.ParseIP`, `IP.String`, `IPNet.Contains`, and whether a mask leaves one address
pub record NetLib : Type 1 where
  pub Ip : Type 0
  pub IpNet : Type 0
  pub parse_cidr : Bytes → Option (Ip × IpNet)
  pub parse_ip : Bytes → Option Ip
  pub ip_string : Ip → Bytes
  pub contains : IpNet → Ip → Bool
  pub is_single : IpNet → Bool

module _ (net : NetLib) where
  pub record Subnet : Type 0 where
    pub str : Bytes
    pub ipnet : net.IpNet
    pub allowed : Bool

  -- the map from addresses to decisions, the last decision of an address first
  pub record IpFilter : Type 0 where
    pub default_allowed : Bool
    pub ips : List (Bytes × Bool)
    pub subnets : List Subnet

  pub record IpFilterOptions : Type 0 where
    pub allowed_ips : List Bytes
    pub blocked_ips : List Bytes
    pub block_by_default : Bool

  unfoldable pub decision : Bytes → List (Bytes × Bool) → Option Bool
  decision key [] = none
  decision key ((ip, allowed) ∷ ips) =
      let rest = decision key ips in if eq_bytes ip key then some allowed else rest

  -- The first subnet with the text is changed, or a new one comes behind the others.
  unfoldable pub toggle_subnet : Bytes → net.IpNet → Bool → List Subnet → List Subnet
  toggle_subnet str ipnet allowed [] = record { str = str; ipnet = ipnet; allowed = allowed } ∷ []
  toggle_subnet str ipnet allowed (s ∷ subnets) =
      let rest = toggle_subnet str ipnet allowed subnets in
      if eq_bytes s.str str then record s { allowed = allowed } ∷ subnets else s ∷ rest

  abbrev pub toggle_plain : Option net.Ip → Bool → IpFilter → Bool × IpFilter
  toggle_plain none allowed f = (false, f)
  toggle_plain (some ip) allowed f = (true, record f { ips = (net.ip_string ip, allowed) ∷ f.ips })

  abbrev pub toggle_cidr : Bytes → Option (net.Ip × net.IpNet) → Bool → IpFilter → Bool × IpFilter
  toggle_cidr str none allowed f = toggle_plain (net.parse_ip str) allowed f
  toggle_cidr str (some (ip, ipnet)) allowed f =
      if net.is_single ipnet
      then (true, record f { ips = (net.ip_string ip, allowed) ∷ f.ips })
      else (true, record f { subnets = toggle_subnet str ipnet allowed f.subnets })

  -- `ToggleIP`, whose result says whether the text was understood
  unfoldable pub toggle_ip : Bytes → Bool → IpFilter → Bool × IpFilter
  toggle_ip str allowed f = toggle_cidr str (net.parse_cidr str) allowed f

  unfoldable pub toggle_all : List Bytes → Bool → IpFilter → IpFilter
  toggle_all [] allowed f = f
  toggle_all (ip ∷ ips) allowed f = toggle_all ips allowed (toggle_ip ip allowed f).1

  abbrev pub empty_filter : Bool → IpFilter
  empty_filter default_allowed = record {
    default_allowed = default_allowed;
    ips = [];
    subnets = [];
  }

  unfoldable pub new_ip_filter : IpFilterOptions → IpFilter
  new_ip_filter opts =
      toggle_all opts.allowed_ips true
        (toggle_all opts.blocked_ips false (empty_filter (not opts.block_by_default)))

  -- The loop over the subnets: an allowed one ends it, and a blocked one is remembered.
  unfoldable pub scan : net.Ip → Bool → Bool → List Subnet → Bool
  scan ip default_allowed blocked [] = if blocked then false else default_allowed
  scan ip default_allowed blocked (s ∷ subnets) =
      let here = scan ip default_allowed true subnets in
      let later = scan ip default_allowed blocked subnets in
      if net.contains s.ipnet ip then (if s.allowed then true else here) else later

  abbrev pub by_ips : IpFilter → net.Ip → Option Bool → Bool
  by_ips f ip (some allowed) = allowed
  by_ips f ip none = scan ip f.default_allowed false f.subnets

  -- `NetAllowed`; no address is the nil one
  unfoldable pub net_allowed : IpFilter → Option net.Ip → Bool
  net_allowed f none = false
  net_allowed f (some ip) = by_ips f ip (decision (net.ip_string ip) f.ips)

  unfoldable pub is_allowed : IpFilter → Bytes → Bool
  is_allowed f ip = net_allowed f (net.parse_ip ip)
