-- ===== src/Server/IpFilter/Precedence.antt =====
-- server/ip_filter.go: the filter against its rules, in the order in which they count.
use send_to.Prelude.{
  ◌≡◌, refl, ap, ◌∙◌, Bool, true, false, ◌||◌, not, Option, none, some, List, [], ◌∷◌, Bytes, arith,
  if◌then◌else◌,
}
use send_to.Server.IpFilter.{
  NetLib, IpFilter, IpFilterOptions, decision, toggle_subnet, toggle_plain, toggle_cidr, toggle_ip,
  toggle_all, empty_filter, new_ip_filter, by_ips, net_allowed,
}
use send_to.Server.IpFilter.Rules.{
  Rule, one, range, plain_rule, cidr_rule, rule_of, is_one, in_range, any_rule, decided, any_subnet,
  inside, lets_in, scan_lem,
}
use send_to.Server.IpFilter.Subnets.{
  IsKnown, toggle_subnet-IsKnown, toggle_subnet-inside, toggle_subnet_allowed,
  toggle_subnet_blocked,
}

module _ (net : NetLib) where
  -- What one text of the options changes, for an address.
  record Toggles (ip : net.Ip) (rule : Rule net) (b : Bool) (f g : IpFilter net) : Type 0 where
    known : IsKnown net g.subnets
    same_default : g.default_allowed ≡ f.default_allowed
    decides :
        decision net (net.ip_string ip) g.ips
        ≡ (if is_one net ip rule then some b else decision net (net.ip_string ip) f.ips)
    contains :
        any_subnet net (inside net ip) g.subnets
        ≡ any_subnet net (inside net ip) f.subnets || in_range net ip rule
    allows :
        b ≡ true
        → any_subnet net (lets_in net ip) g.subnets
          ≡ any_subnet net (lets_in net ip) f.subnets || in_range net ip rule
    blocks :
        b ≡ false
        → any_subnet net (lets_in net ip) f.subnets ≡ false
        → any_subnet net (lets_in net ip) g.subnets ≡ false

  decides_one :
      (ip : net.Ip) (key : Bytes) (b : Bool) (f : IpFilter net)
      → IsKnown net f.subnets
      → Toggles ip (one key) b f (record f { ips = (key, b) ∷ f.ips })
  unfolding decision
  decides_one ip key b f k = record {
    known = k;
    same_default = refl;
    decides = refl;
    contains = ground arith;
    allows = λ e. ground arith;
    blocks = λ e h. h;
  }

  toggle_plain-Toggles :
      (ip : net.Ip) (o : Option net.Ip) (b : Bool) (f : IpFilter net)
      → IsKnown net f.subnets
      → Toggles ip (plain_rule net o) b f (toggle_plain net o b f).1
  toggle_plain-Toggles ip none b f k = record {
    known = k;
    same_default = refl;
    decides = refl;
    contains = ground arith;
    allows = λ e. ground arith;
    blocks = λ e h. h;
  }
  toggle_plain-Toggles ip (some i) b f k = decides_one ip (net.ip_string i) b f k

  toggle_cidr-Toggles :
      (ip : net.Ip) (str : Bytes) (o : Option (net.Ip × net.IpNet)) (b : Bool) (f : IpFilter net)
      → net.parse_cidr str ≡ o
      → IsKnown net f.subnets
      → Toggles ip (cidr_rule net str o) b f (toggle_cidr net str o b f).1
  toggle_cidr-Toggles ip str none b f e k = toggle_plain-Toggles ip (net.parse_ip str) b f k
  toggle_cidr-Toggles ip str (some (i, ipnet)) b f e k = of_mask (net.is_single ipnet)
    where
      of_mask :
          (single : Bool)
          → Toggles ip
              (if single then one (net.ip_string i) else range ipnet)
              b
              f
              (if◌then◌else◌ {A = Bool × IpFilter net} single
                (true, record f { ips = (net.ip_string i, b) ∷ f.ips })
                (true, record f { subnets = toggle_subnet net str ipnet b f.subnets })).1
      of_mask true = decides_one ip (net.ip_string i) b f k
      of_mask false = record {
        known = toggle_subnet-IsKnown net str i ipnet e b f.subnets k;
        same_default = refl;
        decides = refl;
        contains = toggle_subnet-inside net str i ipnet e ip b f.subnets k;
        allows = λ t. rw t (toggle_subnet_allowed net str i ipnet e ip f.subnets k);
        blocks = λ t h. rw t (toggle_subnet_blocked net str i ipnet e ip f.subnets h);
      }

  toggle_ip-Toggles :
      (ip : net.Ip) (str : Bytes) (b : Bool) (f : IpFilter net)
      → IsKnown net f.subnets
      → Toggles ip (rule_of net str) b f (toggle_ip net str b f).1
  unfolding toggle_ip
  toggle_ip-Toggles ip str b f k = toggle_cidr-Toggles ip str (net.parse_cidr str) b f refl k

  -- The same for a list of texts.
  record TogglesAll (ip : net.Ip) (strs : List Bytes) (b : Bool) (f g : IpFilter net) : Type 0 where
    known : IsKnown net g.subnets
    same_default : g.default_allowed ≡ f.default_allowed
    decides : decision net (net.ip_string ip) g.ips ≡ (
        if any_rule net (is_one net ip) strs then some b else decision net (net.ip_string ip) f.ips)
    contains :
        any_subnet net (inside net ip) g.subnets
        ≡ any_subnet net (inside net ip) f.subnets || any_rule net (in_range net ip) strs
    allows :
        b ≡ true
        → any_subnet net (lets_in net ip) g.subnets
          ≡ any_subnet net (lets_in net ip) f.subnets || any_rule net (in_range net ip) strs
    blocks :
        b ≡ false
        → any_subnet net (lets_in net ip) f.subnets ≡ false
        → any_subnet net (lets_in net ip) g.subnets ≡ false

  toggle_all-TogglesAll :
      (ip : net.Ip) (strs : List Bytes) (b : Bool) (f : IpFilter net)
      → IsKnown net f.subnets
      → TogglesAll ip strs b f (toggle_all net strs b f)
  unfolding toggle_all
  toggle_all-TogglesAll ip [] b f k = record {
    known = k;
    same_default = refl;
    decides = refl;
    contains = ground arith;
    allows = λ e. ground arith;
    blocks = λ e h. h;
  }
  toggle_all-TogglesAll ip (str ∷ strs) b f k =
      let first = toggle_ip-Toggles ip str b f k in
      let rest = toggle_all-TogglesAll ip strs b (toggle_ip net str b f).1 first.known in
      record {
        known = rest.known;
        same_default = rest.same_default ∙ first.same_default;
        decides = ground (arith, rest.decides, first.decides);
        contains = ground (arith, rest.contains, first.contains);
        allows = λ e. let a = rest.allows e in let a' = first.allows e in ground arith;
        blocks = λ e h. rest.blocks e (first.blocks e h);
      }

  by_rules :
      (ip : net.Ip) (g : IpFilter net) (one_allowed one_blocked net_in net_out default : Bool)
      → any_subnet net (lets_in net ip) g.subnets ≡ false || net_in
      → any_subnet net (inside net ip) g.subnets ≡ (false || net_out) || net_in
      → g.default_allowed ≡ default
      → by_ips net g ip
          (if one_allowed then some true else if one_blocked then some false else none)
        ≡ (if one_allowed
            then true
            else if one_blocked
            then false
            else if net_in
            then true
            else if net_out
            then false
            else default)
  by_rules ip g true one_blocked net_in net_out default l i d = refl
  by_rules ip g false true net_in net_out default l i d = refl
  by_rules ip g false false net_in net_out default l i d =
      ground (arith, scan_lem net ip g.default_allowed false g.subnets)

  -- For an address, whatever the options: the filter made of them lets it through exactly if it is
  -- allowed itself, or else not blocked itself and in an allowed network, or else in no blocked
  -- network and allowed by default.
  pub net_allowed-new_ip_filter :
      (opts : IpFilterOptions net) (ip : net.Ip)
      → net_allowed net (new_ip_filter net opts) (some ip) ≡ decided net opts ip
  unfolding net_allowed new_ip_filter decided decision
  net_allowed-new_ip_filter opts ip =
      let start = empty_filter net (not opts.block_by_default) in
      let middle = toggle_all net opts.blocked_ips false start in
      let blocked = toggle_all-TogglesAll ip opts.blocked_ips false start tt in
      let allowed = toggle_all-TogglesAll ip opts.allowed_ips true middle blocked.known in
      let none_allowed = blocked.blocks refl refl in
      let some_allowed = allowed.allows refl in
      ap (by_ips net (new_ip_filter net opts) ip) (
        allowed.decides
        ∙ ap (λ o. if any_rule net (is_one net ip) opts.allowed_ips then some true else o)
            blocked.decides)
      ∙ by_rules ip (new_ip_filter net opts) (any_rule net (is_one net ip) opts.allowed_ips)
          (any_rule net (is_one net ip) opts.blocked_ips)
          (any_rule net (in_range net ip) opts.allowed_ips)
          (any_rule net (in_range net ip) opts.blocked_ips) (not opts.block_by_default)
          (some_allowed
            ∙ ap (λ b. b || any_rule net (in_range net ip) opts.allowed_ips) none_allowed)
          (allowed.contains
            ∙ ap (λ b. b || any_rule net (in_range net ip) opts.allowed_ips) blocked.contains)
          (allowed.same_default ∙ blocked.same_default)
