-- ===== src/Tests/Servers.antt =====
-- Inputs for the theorems on the options of a server.
use agent_memory_cpp.Prelude.{some, none, [], ◌∷◌, ◌≡◌, refl, ◌↔◌, true, ◌+◌, ◌^◌}
use agent_memory_cpp.Prelude.Int.{pos, to_int32}
use agent_memory_cpp.Prelude.Result.{ok}
use agent_memory_cpp.Text.{codes}
use agent_memory_cpp.Json.{no_members, object}
use agent_memory_cpp.Server.Options.{
  default_options, int_of, load, load_server_options, load_memory_options, load_model_section,
  load_server_section, load_auth_options, load_http_options, load_mcp_options, validate_members,
  validate_server_options,
}
use agent_memory_cpp.Server.Cli.{parse_port, parse_digits, find_config_path}
use agent_memory_cpp.Server.Options.Valid.{IsServable, validate_server_options_iff}

validate_server_options_iff_example :
    (validate_server_options default_options true ≡ ok tt) ↔ IsServable default_options
validate_server_options_iff_example = validate_server_options_iff default_options

-- An empty configuration gives the default options.
empty_config : load_server_options (object no_members) ≡ ok default_options
unfolding load_server_options validate_members load load_memory_options load_model_section
    load_server_section load_auth_options load_http_options load_mcp_options
empty_config = refl

-- A number that does not fit into an `int` is cut down to one.
wrapped_port : int_of (pos (2 ^ 32 + 8090)) ≡ pos 8090
unfolding int_of to_int32
wrapped_port = refl

ports :
    (parse_port (codes "8090") ≡ some 8090)
    × (parse_port (codes "65536") ≡ none)
    × (parse_port (codes "-1") ≡ none)
unfolding parse_port parse_digits
ports = (refl, refl, refl)

config_paths :
    (find_config_path (codes "--help" ∷ codes "--config" ∷ codes "a" ∷ []) [] ≡ some (codes "a"))
    × (find_config_path (codes "--config" ∷ []) [] ≡ none)
unfolding find_config_path
config_paths = (refl, refl)
