-- ===== src/Client/Args/Laws.antt =====
-- cmd/send/args.go: the reordered command line means what the user has written.
use send_to.Prelude.{
  ◌≡◌, refl, ap, ◌∙◌, Bool, true, false, ◌&&◌, ◌||◌, not, none, some, List, [], ◌∷◌, ◌++◌, Bytes,
  eq_bytes, if◌then◌else◌,
}
use send_to.Client.Args.{
  Flag, split_args, parse_flags, prefixed, takes_next, is_positional, dashes, behind_dashes,
  put_together,
}

module _ (takes : Bytes → Bool) where
  -- No flag at the end misses its value.
  unfoldable pub is_complete : List Bytes → Bool
  is_complete [] = true
  is_complete (arg ∷ []) = eq_bytes arg dashes || is_positional arg || not (takes_next takes arg)
  is_complete (arg ∷ value ∷ rest) =
      let behind = is_complete (value ∷ rest) in
      let behind_value = is_complete rest in
      eq_bytes arg dashes
      || (if not (is_positional arg) && takes_next takes arg then behind_value else behind)

  parse_flags_value :
      (arg value : Bytes) (rest : List Bytes)
      → eq_bytes arg dashes ≡ false
      → is_positional arg ≡ false
      → takes_next takes arg ≡ true
      → parse_flags takes (arg ∷ value ∷ rest)
        ≡ prefixed takes (arg ∷ value ∷ []) (parse_flags takes rest)
  unfolding parse_flags
  parse_flags_value arg value rest d p t = rw (d, p, t) refl

  -- The options come back before any positional arguments behind `--`.
  Parses : List Bytes → Type 0
  Parses opts = (ps : List Bytes) → parse_flags takes (opts ++ behind_dashes ps) ≡ some (opts, ps)

  -- A flag that takes a value and misses it is an error for package flag, but behind a positional
  -- argument, and reordered, it is accepted with the value `--`.
  pub parse_flags_misses :
      (p flag : Bytes)
      → eq_bytes p dashes ≡ false
      → is_positional p ≡ true
      → eq_bytes flag dashes ≡ false
      → is_positional flag ≡ false
      → takes_next takes flag ≡ true
      → (parse_flags takes (flag ∷ []) ≡ none)
        × (parse_flags takes (put_together (split_args takes (p ∷ flag ∷ [])))
            ≡ some (flag ∷ dashes ∷ [], p ∷ []))
  unfolding split_args parse_flags
  parse_flags_misses p flag pd pp fd fp t = (
    rw (fd, fp, t) refl,
    rw (pd, pp, fd, fp)
        (parse_flags_value flag dashes (p ∷ []) fd fp t
          ∙ ap (prefixed takes (flag ∷ dashes ∷ [])) alone),
  )
    where
      alone : parse_flags takes (p ∷ []) ≡ some ([], p ∷ [])
      alone = rw (pd, pp) refl

-- What a chain of commands and the rest of the arguments make together.
abbrev joined : List Bytes × List Flag × List Bytes → List Bytes
joined chain = chain.0 ++ chain.2
