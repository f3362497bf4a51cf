-- ===== src/Server/IpFilter/Subnets.antt =====
-- server/ip_filter.go: what a change of one subnet changes for an address.
use send_to.Prelude.{
  ◌≡◌, ap, sym, ◌∙◌, Bool, true, false, ◌||◌, Option, none, some, List, [], ◌∷◌, Bytes, arith,
  eq_bytes, eq_bytes_iff, if◌then◌else◌, Bool-cases, inl, inr,
}
use send_to.Server.IpFilter.{NetLib, Subnet, toggle_subnet}
use send_to.Server.IpFilter.Rules.{any_subnet, inside, lets_in}

module _ (net : NetLib) where
  -- A subnet of the filter is the one that its text names.
  abbrev pub IsKnown : List (Subnet net) → Type 0
  IsKnown [] = Unit
  IsKnown (s ∷ subnets) =
      ((ip : net.Ip) × (net.parse_cidr s.str ≡ some (ip, s.ipnet))) × IsKnown subnets

  pub snd_of : (d : net.IpNet) → Option (net.Ip × net.IpNet) → net.IpNet
  snd_of d none = d
  snd_of d (some (ip, ipnet)) = ipnet

  module _ (str : Bytes) (i : net.Ip) (ipnet : net.IpNet)
      (named : net.parse_cidr str ≡ some (i, ipnet)) where
    pub same_net :
        (s : Subnet net)
        → ((ip : net.Ip) × (net.parse_cidr s.str ≡ some (ip, s.ipnet)))
        → s.str ≡ str
        → s.ipnet ≡ ipnet
    unfolding snd_of
    same_net s (ip, known) e = ap (snd_of ipnet) (sym known ∙ ap net.parse_cidr e ∙ named)

    pub toggle_subnet-IsKnown :
        (b : Bool) (subnets : List (Subnet net))
        → IsKnown subnets
        → IsKnown (toggle_subnet net str ipnet b subnets)
    unfolding toggle_subnet
    toggle_subnet-IsKnown b [] k = ((i, named), tt)
    toggle_subnet-IsKnown b (s ∷ subnets) k =
        found (eq_bytes s.str str) (toggle_subnet-IsKnown b subnets k.1)
      where
        found :
            (same : Bool)
            → IsKnown (toggle_subnet net str ipnet b subnets)
            → IsKnown (
                if same
                then record s { allowed = b } ∷ subnets
                else s ∷ toggle_subnet net str ipnet b subnets)
        found true rest = k
        found false rest = (k.0, rest)

    pub toggle_subnet-inside :
        (ip : net.Ip) (b : Bool) (subnets : List (Subnet net))
        → IsKnown subnets
        → any_subnet net (inside net ip) (toggle_subnet net str ipnet b subnets)
          ≡ any_subnet net (inside net ip) subnets || net.contains ipnet ip
    unfolding toggle_subnet
    toggle_subnet-inside ip b [] k = ground arith
    toggle_subnet-inside ip b (s ∷ subnets) k = elim (Bool-cases (eq_bytes s.str str)) [
      | inl same ↦
          let e : net.contains s.ipnet ip ≡ net.contains ipnet ip =
            ap (λ n. net.contains n ip) (same_net s k.0 ((eq_bytes_iff s.str str).0 same)) in
          rw same (ground arith)
      | inr other ↦ rw other (ground (arith, toggle_subnet-inside ip b subnets k.1))
    ]

    pub toggle_subnet_allowed :
        (ip : net.Ip) (subnets : List (Subnet net))
        → IsKnown subnets
        → any_subnet net (lets_in net ip) (toggle_subnet net str ipnet true subnets)
          ≡ any_subnet net (lets_in net ip) subnets || net.contains ipnet ip
    unfolding toggle_subnet
    toggle_subnet_allowed ip [] k = ground arith
    toggle_subnet_allowed ip (s ∷ subnets) k = elim (Bool-cases (eq_bytes s.str str)) [
      | inl same ↦
          let e : net.contains s.ipnet ip ≡ net.contains ipnet ip =
            ap (λ n. net.contains n ip) (same_net s k.0 ((eq_bytes_iff s.str str).0 same)) in
          rw same (ground arith)
      | inr other ↦ rw other (ground (arith, toggle_subnet_allowed ip subnets k.1))
    ]

    pub toggle_subnet_blocked :
        (ip : net.Ip) (subnets : List (Subnet net))
        → any_subnet net (lets_in net ip) subnets ≡ false
        → any_subnet net (lets_in net ip) (toggle_subnet net str ipnet false subnets) ≡ false
    unfolding toggle_subnet
    toggle_subnet_blocked ip [] h = ground arith
    toggle_subnet_blocked ip (s ∷ subnets) h = elim (Bool-cases (eq_bytes s.str str)) [
      | inl same ↦ rw same (ground arith)
      | inr other ↦ rw other (ground (arith, toggle_subnet_blocked ip subnets))
    ]
