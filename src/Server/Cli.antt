-- ===== src/Server/Cli.antt =====
-- src/server/server_cli.cpp: the arguments of the command line behind the program's name. The message
-- on a missing value goes to the standard error stream and is not modelled.
use agent_memory_cpp.Prelude.{
  ℕ, ◌+◌, ◌-◌, ◌*◌, Bool, true, false, ◌&&◌, ◌||◌, Option, none, some, List, [], ◌∷◌, any, ltb, leb,
  if◌then◌else◌,
}
use agent_memory_cpp.Text.{Text, codes, text_eq}
use agent_memory_cpp.Text.Decimal.{is_digit}

-- std::from_chars over the rest of the digits; n is the value of those before. A value above 65535 is
-- refused in any case, be it in the range of an `int` or not.
unfoldable pub parse_digits : ℕ → Text → Option ℕ
parse_digits n [] = some n
parse_digits n (c ∷ cs) =
    if is_digit c && leb n 65535 then parse_digits (n * 10 + (c - b'0')) cs else none

abbrev port_in : Option ℕ → Option ℕ
port_in none = none
port_in (some n) = if ltb n 1 || ltb 65535 n then none else some n

-- `ParsePort`: the port, or none where it returns false. A negative number is no port either.
unfoldable pub parse_port : Text → Option ℕ
unfolding parse_digits
parse_port [] = none
parse_port (c ∷ cs) = port_in (parse_digits 0 (c ∷ cs))

-- `HasHelpOption`
unfoldable pub has_help_option : List Text → Bool
unfolding any text_eq
has_help_option args = any (λ arg. text_eq arg (codes "--help")) args

-- `FindConfigPath` with `RequireCliValue`: the path behind the last `--config`, the one given where
-- there is no such argument, and none where its value is missing.
unfoldable pub find_config_path : List Text → Text → Option Text
unfolding text_eq
find_config_path [] config_path = some config_path
find_config_path (arg ∷ []) config_path =
    if text_eq arg (codes "--config") then none else some config_path
find_config_path (arg ∷ value ∷ args) config_path = elim (text_eq arg (codes "--config")) [
  | true ↦ find_config_path args value
  | false ↦ find_config_path (value ∷ args) config_path
]
