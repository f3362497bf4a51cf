-- ===== src/Client/Args.antt =====
-- cmd/send/args.go: the reordering of the command line, and what package flag makes of a command line.
pub mod Reading
pub mod Laws
mod Tests
use send_to.Prelude.{
  Bool, true, false, ◌&&◌, ◌||◌, not, Option, none, some, List, [], ◌∷◌, ◌++◌, Bytes, codes,
  eq_bytes, ◌==◌, if◌then◌else◌, has_prefix, contains,
}

-- The names of a flag, the short ones too, and whether it is a `*cli.BoolFlag`.
pub record Flag : Type 0 where
  pub names : List Bytes
  pub is_bool : Bool

mutual
  -- `cli.Command`, with the field `Subcommands`
  pub data Command : Type 0 where
    command : Bytes → List Bytes → List Flag → Commands → Command

  pub data Commands : Type 0 where
    no_more : Commands
    more : Command → Commands → Commands

pub record App : Type 0 where
  pub flags : List Flag
  pub commands : Commands

abbrev pub any_name : Bytes → List Bytes → Bool
any_name name [] = false
any_name name (n ∷ names) = eq_bytes n name || any_name name names

abbrev named : Bytes → Command → Bool
named name (command n aliases flags subcommands) = eq_bytes n name || any_name name aliases

unfoldable pub find_command : Commands → Bytes → Option Command
find_command no_more name = none
find_command (more c cs) name =
    let rest = find_command cs name in if named name c then some c else rest

abbrev flags_of : Command → List Flag
flags_of (command n aliases flags subcommands) = flags

abbrev subcommands_of : Command → Commands
subcommands_of (command n aliases flags subcommands) = subcommands

-- `strings.HasPrefix(arg, "-")`
abbrev pub is_dashed : Bytes → Bool
is_dashed [] = false
is_dashed (c ∷ arg) = c == b'-'

-- The chain of commands, the flags in scope behind it, and the arguments that are left.
unfoldable pub command_chain :
    List Flag → Commands → List Bytes → List Bytes × List Flag × List Bytes
command_chain flags commands [] = ([], flags, [])
command_chain flags commands (arg ∷ rest) =
    if is_dashed arg then ([], flags, arg ∷ rest) else elim (find_command commands arg) [
      | none ↦ ([], flags, arg ∷ rest)
      | some c ↦
          let deeper = command_chain (flags ++ flags_of c) (subcommands_of c) rest in
          (arg ∷ deeper.0, deeper.1, deeper.2)
    ]

-- The map `takesValue`: a later flag of a name replaces an earlier one.
unfoldable pub takes_value : List Flag → Bytes → Bool
takes_value [] name = false
takes_value (f ∷ flags) name =
    let later = takes_value flags name in
    if any_flag flags name then later else any_name name f.names && not f.is_bool
  where
    any_flag : List Flag → Bytes → Bool
    any_flag [] name = false
    any_flag (f ∷ flags) name = any_name name f.names || any_flag flags name

-- `strings.TrimLeft(arg, "-")`
unfoldable pub trim_dashes : Bytes → Bytes
trim_dashes [] = []
trim_dashes (c ∷ s) = let rest = trim_dashes s in if c == b'-' then rest else c ∷ s

abbrev pub dashes : Bytes
dashes = codes "--"

-- an argument that the flag before it does not take
abbrev pub is_positional : Bytes → Bool
is_positional arg = eq_bytes arg (codes "-") || not (is_dashed arg)

module _ (takes : Bytes → Bool) where
  -- whether a flag takes the argument behind it
  abbrev pub takes_next : Bytes → Bool
  takes_next arg = not (contains (codes "=") (trim_dashes arg)) && takes (trim_dashes arg)

  abbrev pub with_opts : List Bytes → List Bytes × List Bytes → List Bytes × List Bytes
  with_opts opts found = (opts ++ found.0, found.1)

  -- The loop over the arguments: the options with their values, and the positional arguments.
  unfoldable pub split_args : List Bytes → List Bytes × List Bytes
  split_args [] = ([], [])
  split_args (arg ∷ []) =
      if eq_bytes arg dashes
      then ([], [])
      else if is_positional arg
      then ([], arg ∷ [])
      else (arg ∷ [], [])
  split_args (arg ∷ value ∷ rest) =
      let behind = split_args (value ∷ rest) in
      let behind_value = split_args rest in
      if eq_bytes arg dashes
      then ([], value ∷ rest)
      else if is_positional arg
      then (behind.0, arg ∷ behind.1)
      else if takes_next arg
      then with_opts (arg ∷ value ∷ []) behind_value
      else with_opts (arg ∷ []) behind

  abbrev pub prefixed :
      List Bytes → Option (List Bytes × List Bytes) → Option (List Bytes × List Bytes)
  prefixed opts none = none
  prefixed opts (some found) = some (with_opts opts found)

  -- What package flag makes of the arguments of a command: it ends at the first positional argument,
  -- and a flag that takes a value takes the next argument, whatever it is; without one it is an error.
  unfoldable pub parse_flags : List Bytes → Option (List Bytes × List Bytes)
  parse_flags [] = some ([], [])
  parse_flags (arg ∷ []) =
      if eq_bytes arg dashes
      then some ([], [])
      else if is_positional arg
      then some ([], arg ∷ [])
      else if takes_next arg
      then none
      else some (arg ∷ [], [])
  parse_flags (arg ∷ value ∷ rest) =
      let behind = parse_flags (value ∷ rest) in
      let behind_value = parse_flags rest in
      if eq_bytes arg dashes
      then some ([], value ∷ rest)
      else if is_positional arg
      then some ([], arg ∷ value ∷ rest)
      else if takes_next arg
      then prefixed (arg ∷ value ∷ []) behind_value
      else prefixed (arg ∷ []) behind

abbrev pub behind_dashes : List Bytes → List Bytes
behind_dashes [] = []
behind_dashes (p ∷ ps) = dashes ∷ p ∷ ps

abbrev pub put_together : List Bytes × List Bytes → List Bytes
put_together found = found.0 ++ behind_dashes found.1

-- The program's own name comes first; without any argument nothing is done.
unfoldable pub reorder_args : App → List Bytes → List Bytes
reorder_args app [] = []
reorder_args app (program ∷ []) = program ∷ []
reorder_args app (program ∷ arg ∷ args) =
    let chain = command_chain app.flags app.commands (arg ∷ args) in
    program ∷ (chain.0 ++ put_together (split_args (takes_value chain.1) chain.2))
