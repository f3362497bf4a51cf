-- ===== src/Server/Auth.antt =====
-- server/auth.go: `basicAuthHandler`. The htpasswd file and the address filter are made at the first
-- request that needs them and kept. Files of passwords (go-htpasswd) are a parameter, of which a file is
-- taken to stay as it is; the address of a client and its credentials are read by realip and net/http.
pub mod Kept
mod Tests
use send_to.Prelude.{
  Bool, true, false, ◌&&◌, not, Option, none, some, List, [], ◌∷◌, Bytes, eq_bytes, if◌then◌else◌,
}
use send_to.Server.Upload.{is_unset}
use send_to.Server.IpFilter.{NetLib, IpFilter, IpFilterOptions, new_ip_filter, is_allowed}

-- `htpasswd.File.Match`
abbrev pub Matcher : Type 0
Matcher = Bytes → Bytes → Bool

pub record AuthRequest : Type 0 where
  pub remote_ip : Bytes
  pub credentials : Option (Bytes × Bytes)

-- the request goes on to its handler, 401, or 500 for a file that cannot be loaded
pub data AuthAnswer : Type 0 where
  passed not_authorized load_failed : AuthAnswer

module _ (net : NetLib) (load : Bytes → Option Matcher) where
  pub record AuthOptions : Type 0 where
    pub auth_user : Bytes
    pub auth_pass : Bytes
    pub auth_htpasswd : Bytes
    pub auth_ip_filter_options : Option (IpFilterOptions net)

  -- what is kept between requests
  pub record AuthState : Type 0 where
    pub htpasswd_file : Option Matcher
    pub auth_ip_filter : Option (IpFilter net)

  abbrev pub new_state : AuthState
  new_state = record { htpasswd_file = none; auth_ip_filter = none }

  abbrev pub with_loaded : AuthState → Option Matcher → Option AuthState
  with_loaded s none = none
  with_loaded s (some file) = some (record s { htpasswd_file = some file })

  abbrev pub with_file : AuthOptions → AuthState → Option Matcher → Option AuthState
  with_file o s (some file) = some s
  with_file o s none =
      if is_unset o.auth_htpasswd then some s else with_loaded s (load o.auth_htpasswd)

  abbrev pub made_filter : Option (IpFilterOptions net) → Option (IpFilter net)
  made_filter none = none
  made_filter (some opts) = some (new_ip_filter net opts)

  abbrev pub with_filter : AuthOptions → AuthState → Option (IpFilter net) → AuthState
  with_filter o s (some f) = s
  with_filter o s none = record s { auth_ip_filter = made_filter o.auth_ip_filter_options }

  abbrev pub ip_authorized : AuthRequest → Option (IpFilter net) → Bool
  ip_authorized r none = false
  ip_authorized r (some f) = is_allowed net f r.remote_ip

  abbrev pub file_matches : Bytes → Bytes → Option Matcher → Bool
  file_matches username password none = false
  file_matches username password (some file) = file username password

  abbrev pub answer_of : Bool → AuthAnswer
  answer_of authorized = if authorized then passed else not_authorized

  -- from the question to the user on
  abbrev pub check_user : AuthOptions → AuthState → Bool → Option (Bytes × Bytes) → AuthAnswer
  check_user o s authorized none = if not authorized then not_authorized else answer_of authorized
  check_user o s authorized (some (username, password)) =
      let by_user =
        if not authorized && not (is_unset o.auth_user)
        then eq_bytes username o.auth_user && eq_bytes password o.auth_pass
        else authorized in
      answer_of (if not by_user then file_matches username password s.htpasswd_file else by_user)

  abbrev pub authorize : AuthOptions → AuthState → AuthRequest → AuthAnswer
  authorize o s r = check_user o s (ip_authorized r s.auth_ip_filter) r.credentials

  abbrev pub loaded :
      AuthOptions → AuthRequest → AuthState → Option AuthState → AuthAnswer × AuthState
  loaded o r s none = (load_failed, s)
  loaded o r s (some s') =
      let ready = with_filter o s' s'.auth_ip_filter in (authorize o ready r, ready)

  unfoldable pub basic_auth_handler : AuthOptions → AuthRequest → AuthState → AuthAnswer × AuthState
  basic_auth_handler o r s =
      if is_unset o.auth_user && is_unset o.auth_pass && is_unset o.auth_htpasswd
      then (passed, s)
      else loaded o r s (with_file o s s.htpasswd_file)

  -- the answers to requests that come one after the other
  unfoldable pub serve : AuthOptions → List AuthRequest → AuthState → List AuthAnswer
  serve o [] s = []
  serve o (r ∷ requests) s =
      let (answer, s') = basic_auth_handler o r s in answer ∷ serve o requests s'
