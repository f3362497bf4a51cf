-- ===== src/Client/Args/Tests.antt =====
-- Command lines of cmd/send/args.go.
use send_to.Prelude.{
  ◌≡◌, refl, Bool, false, [], ◌∷◌, Bytes, codes, eq_bytes, List, contains, has_prefix, strip_prefix,
}
use send_to.Client.Args.{
  split_args, dashes, App, command, no_more, more, reorder_args, command_chain, find_command,
  takes_value, trim_dashes,
}

-- `--encrypt` takes a value
abbrev takes : Bytes → Bool
takes name = eq_bytes name (codes "encrypt")

-- a file, flags behind it, one with a value, and a file whose name begins with a dash
abbrev typed : List Bytes
typed = codes "a.txt" ∷ codes "--encrypt" ∷ codes "pw" ∷ codes "-v" ∷ codes "--" ∷ codes "-b" ∷ []

a_not_dashes : eq_bytes (codes "a.txt") dashes ≡ false
unfolding eq_bytes
a_not_dashes = refl

flag_not_dashes : eq_bytes (codes "--encrypt") dashes ≡ false
unfolding eq_bytes
flag_not_dashes = refl

-- a program with one command and one flag of it
abbrev send : App
send = record {
  flags = [];
  commands =
      more
        (command (codes "put") (codes "up" ∷ [])
          (record { names = codes "encrypt" ∷ codes "e" ∷ []; is_bool = false } ∷ []) no_more)
        no_more;
}

reordered :
    reorder_args send (codes "send" ∷ codes "put" ∷ typed)
    ≡ codes "send"
      ∷ codes "put"
      ∷ codes "--encrypt"
      ∷ codes "pw"
      ∷ codes "-v"
      ∷ dashes
      ∷ codes "a.txt"
      ∷ codes "-b"
      ∷ []
unfolding reorder_args command_chain find_command takes_value split_args contains has_prefix
    strip_prefix trim_dashes eq_bytes
reordered = refl
