-- ===== src/Client/Args/Reading.antt =====
-- cmd/send/args.go: what a command line says, told without the loop over it.
use send_to.Prelude.{◌≡◌, Bool, true, false, List, [], ◌∷◌, Bytes, eq_bytes}
use send_to.Client.Args.{takes_next, is_positional, dashes}

module _ (takes : Bytes → Bool) where
  -- The arguments of a command, the options among them with their values, and the positional ones.
  -- An argument with a dash is an option, and takes the next one as its value if it needs one and has
  -- none behind `=`; all others are positional, and so is everything behind the first `--`.
  pub data Reads : List Bytes → List Bytes → List Bytes → Type 0 where
    nothing : Reads [] [] []
    all_positional : (ps : List Bytes) → Reads (dashes ∷ ps) [] ps
    positional :
        {args opts ps : List Bytes} (arg : Bytes)
        → eq_bytes arg dashes ≡ false
        → is_positional arg ≡ true
        → Reads args opts ps
        → Reads (arg ∷ args) opts (arg ∷ ps)
    option :
        {args opts ps : List Bytes} (arg : Bytes)
        → eq_bytes arg dashes ≡ false
        → is_positional arg ≡ false
        → takes_next takes arg ≡ false
        → Reads args opts ps
        → Reads (arg ∷ args) (arg ∷ opts) ps
    option_with :
        {args opts ps : List Bytes} (arg value : Bytes)
        → eq_bytes arg dashes ≡ false
        → is_positional arg ≡ false
        → takes_next takes arg ≡ true
        → Reads args opts ps
        → Reads (arg ∷ value ∷ args) (arg ∷ value ∷ opts) ps
