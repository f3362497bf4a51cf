-- ===== src/Server/Auth/Tests.antt =====
-- An instance with a file of passwords that lets one network pass.
use send_to.Prelude.{◌≡◌, refl, ◌&&◌, true, none, some, List, [], ◌∷◌, map, codes, eq_bytes}
use send_to.Server.IpFilter.{
  is_allowed, net_allowed, decision, new_ip_filter, toggle_all, toggle_ip, scan, toggle_subnet,
}
use send_to.Server.IpFilter.Toy.{toy_net}
use send_to.Server.Auth.{
  Matcher, AuthRequest, AuthOptions, passed, not_authorized, new_state, serve,
}
use send_to.Server.Auth.Kept.{decided, serve-decided}

abbrev one_entry : Matcher
one_entry username password = eq_bytes username (codes "ann") && eq_bytes password (codes "pw")

abbrev options : AuthOptions toy_net (λ path. some one_entry)
options = record {
  auth_user = [];
  auth_pass = [];
  auth_htpasswd = codes "/etc/htpasswd";
  auth_ip_filter_options =
      some (record { allowed_ips = codes "abc*" ∷ []; blocked_ips = []; block_by_default = true });
}

abbrev requests : List AuthRequest
requests =
    record { remote_ip = codes "abcd"; credentials = none }
    ∷ record { remote_ip = codes "xyzz"; credentials = some (codes "ann", codes "pw") }
    ∷ record { remote_ip = codes "xyzz"; credentials = some (codes "ann", codes "no") }
    ∷ record { remote_ip = codes "xyzz"; credentials = none }
    ∷ []

serve-decided_example :
    serve toy_net
      (λ path. some one_entry)
      options
      requests
      (new_state toy_net (λ path. some one_entry))
    ≡ map (decided toy_net (λ path. some one_entry) options) requests
serve-decided_example = serve-decided toy_net (λ path. some one_entry) options requests

two_pass :
    map (decided toy_net (λ path. some one_entry) options) requests
    ≡ passed ∷ passed ∷ not_authorized ∷ not_authorized ∷ []
unfolding decided eq_bytes is_allowed net_allowed decision new_ip_filter toggle_all toggle_ip scan
    toggle_subnet
two_pass = refl
