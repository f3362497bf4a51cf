-- ===== src/Server/Auth/Kept.antt =====
-- server/auth.go: who passes the basic authentication.
use send_to.Prelude.{
  ◌≡◌, refl, ap, sym, ◌∙◌, Bool, true, false, ◌&&◌, ◌||◌, not, Option, none, some, List, [], ◌∷◌,
  map, Bytes, eq_bytes, if◌then◌else◌, arith, Bool-cases, inl, inr,
}
use send_to.Server.Upload.{is_unset}
use send_to.Server.IpFilter.{NetLib, IpFilter, IpFilterOptions, new_ip_filter, is_allowed}
use send_to.Server.Auth.{
  Matcher, AuthRequest, AuthAnswer, passed, not_authorized, load_failed, AuthOptions, AuthState,
  new_state, with_file, with_loaded, made_filter, ip_authorized, file_matches, check_user, loaded,
  basic_auth_handler, serve,
}

module _ (net : NetLib) (load : Bytes → Option Matcher) (o : AuthOptions net load) where
  abbrev by_address : AuthRequest → Option (IpFilterOptions net) → Bool
  by_address r none = false
  by_address r (some opts) = is_allowed net (new_ip_filter net opts) r.remote_ip

  abbrev by_credentials : (Bytes → Bytes → Bool) → Option (Bytes × Bytes) → Bool
  by_credentials in_file none = false
  by_credentials in_file (some (username, password)) =
      (not (is_unset o.auth_user) && eq_bytes username o.auth_user && eq_bytes password o.auth_pass)
      || in_file username password

  -- A request passes from an address that the filter allows, as the user, or as one of the file.
  abbrev answer_with : AuthRequest → Matcher → AuthAnswer
  answer_with r in_file =
      if by_address r o.auth_ip_filter_options || by_credentials in_file r.credentials
      then passed
      else not_authorized

  abbrev of_file : AuthRequest → Option Matcher → AuthAnswer
  of_file r none = load_failed
  of_file r (some file) = answer_with r file

  -- The answer to a request, by the options alone.
  unfoldable pub decided : AuthRequest → AuthAnswer
  decided r =
      if is_unset o.auth_user && is_unset o.auth_pass && is_unset o.auth_htpasswd
      then passed
      else if is_unset o.auth_htpasswd
      then answer_with r (λ username password. false)
      else of_file r (load o.auth_htpasswd)

  -- What is kept is what the options make.
  abbrev KeptFile : Option Matcher → Type 0
  KeptFile none = Unit
  KeptFile (some file) = (is_unset o.auth_htpasswd ≡ false) × (load o.auth_htpasswd ≡ some file)

  abbrev KeptFilter : Option (IpFilter net) → Type 0
  KeptFilter none = Unit
  KeptFilter (some f) = made_filter net load o.auth_ip_filter_options ≡ some f

  abbrev Kept : AuthState net load → Type 0
  Kept s = KeptFile s.htpasswd_file × KeptFilter s.auth_ip_filter

  ip_authorized-made_filter :
      (r : AuthRequest) (opts : Option (IpFilterOptions net))
      → ip_authorized net load r (made_filter net load opts) ≡ by_address r opts
  ip_authorized-made_filter r none = refl
  ip_authorized-made_filter r (some opts) = refl

  check_user_lem :
      (s : AuthState net load) (in_file : Matcher) (authorized : Bool)
      (credentials : Option (Bytes × Bytes))
      → ((u p : Bytes) → file_matches net load u p s.htpasswd_file ≡ in_file u p)
      → check_user net load o s authorized credentials
        ≡ (if authorized || by_credentials in_file credentials then passed else not_authorized)
  check_user_lem s in_file true none same = refl
  check_user_lem s in_file false none same = refl
  check_user_lem s in_file authorized (some (u, p)) same = ground (arith, same u p)

  made_filter-KeptFilter :
      (x : Option (IpFilter net)) → made_filter net load o.auth_ip_filter_options ≡ x → KeptFilter x
  made_filter-KeptFilter none made = tt
  made_filter-KeptFilter (some f) made = made

  abbrev state : Option Matcher → Option (IpFilter net) → AuthState net load
  state file f = record { htpasswd_file = file; auth_ip_filter = f }

  loaded_lem :
      (r : AuthRequest) (file : Option Matcher) (f : Option (IpFilter net)) (in_file : Matcher)
      → ((u p : Bytes) → file_matches net load u p file ≡ in_file u p)
      → KeptFile file
      → KeptFilter f
      → (s : AuthState net load)
      → ((loaded net load o r s (some (record { htpasswd_file = file; auth_ip_filter = f }))).0
          ≡ answer_with r in_file)
        × Kept
            (loaded net load o r s (some (record { htpasswd_file = file; auth_ip_filter = f }))).1
  loaded_lem r file none in_file same kept kept_filter s = (
    check_user_lem (state file (made_filter net load o.auth_ip_filter_options)) in_file _
          r.credentials same
        ∙ ap (λ b. if b || by_credentials in_file r.credentials then passed else not_authorized)
            (ip_authorized-made_filter r o.auth_ip_filter_options),
    (kept, made_filter-KeptFilter _ refl),
  )
  loaded_lem r file (some f) in_file same kept kept_filter s = (
    check_user_lem (state file (some f)) in_file _ r.credentials same
        ∙ ap (λ b. if b || by_credentials in_file r.credentials then passed else not_authorized)
            (ap (ip_authorized net load r) (sym kept_filter)
              ∙ ip_authorized-made_filter r o.auth_ip_filter_options),
    (kept, kept_filter),
  )

  abbrev Answers : AuthAnswer → AuthAnswer × AuthState net load → Type 0
  Answers answer (a, s) = (a ≡ answer) × Kept s

  abbrev wanted : AuthRequest → Bool → AuthAnswer
  wanted r no_file =
      if no_file
      then answer_with r (λ username password. false)
      else of_file r (load o.auth_htpasswd)

  with_file-Answers :
      (r : AuthRequest) (file : Option Matcher) (f : Option (IpFilter net)) (no_file : Bool)
      → is_unset o.auth_htpasswd ≡ no_file
      → KeptFile file
      → KeptFilter f
      → Answers
          (wanted r no_file)
          (loaded net load o r (state file f) (with_file net load o (state file f) file))
  with_file-Answers r (some file) f true unset (is_set, found) kept_filter =
      absurd (ground (arith, unset, is_set))
  with_file-Answers r (some file) f false is_set kept kept_filter =
      rw kept.1
        (loaded_lem r (some file) f file (λ u p. refl) kept kept_filter (state (some file) f))
  with_file-Answers r none f true unset kept kept_filter =
      rw unset (loaded_lem r none f (λ u p. false) (λ u p. refl) tt kept_filter (state none f))
  with_file-Answers r none f false is_set kept kept_filter =
      rw is_set (go (load o.auth_htpasswd) refl)
    where
      go :
          (found : Option Matcher)
          → load o.auth_htpasswd ≡ found
          → Answers
              (of_file r found)
              (loaded net load o r (state none f) (with_loaded net load (state none f) found))
      go none h = (refl, (tt, kept_filter))
      go (some file) h =
          loaded_lem r (some file) f file (λ u p. refl) (is_set, h) kept_filter (state none f)

  basic_auth_handler-Answers :
      (r : AuthRequest) (s : AuthState net load)
      → Kept s
      → Answers (decided r) (basic_auth_handler net load o r s)
  unfolding basic_auth_handler decided
  basic_auth_handler-Answers r s kept =
      elim (Bool-cases (is_unset o.auth_user && is_unset o.auth_pass && is_unset o.auth_htpasswd)) [
        | inl open_ ↦ rw open_ (refl, kept)
        | inr closed ↦ rw closed (
            with_file-Answers r s.htpasswd_file s.auth_ip_filter (is_unset o.auth_htpasswd) refl
              kept.0 kept.1)
      ]

  serve-Kept :
      (requests : List AuthRequest) (s : AuthState net load)
      → Kept s
      → serve net load o requests s ≡ map decided requests
  unfolding serve
  serve-Kept [] s kept = refl
  serve-Kept (r ∷ requests) s kept =
      let (same, kept') = basic_auth_handler-Answers r s kept in
      ap (λ a. a ∷ serve net load o requests (basic_auth_handler net load o r s).1) same
      ∙ ap (λ l. decided r ∷ l) (serve-Kept requests (basic_auth_handler net load o r s).1 kept')

  -- Requests that come one after the other, the first to a new instance, are each answered by the
  -- options alone: if a user, a password or a file of passwords is set, then a request passes from an
  -- address that the filter of these options allows, with the name and the password of the user if the
  -- name is set, or with those of an entry of the file, and no other passes; if the file cannot be
  -- loaded, none does. If nothing is set, all pass.
  pub serve-decided :
      (requests : List AuthRequest)
      → serve net load o requests (new_state net load) ≡ map decided requests
  serve-decided requests = serve-Kept requests (new_state net load) (tt, tt)
