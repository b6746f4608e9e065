-- ===== src/Server/Options.antt =====
-- src/server/server_options.cpp: the options of a server from a JSON value, and their validation. The
-- members of an object stand in the order in which the JSON library goes through them.
pub mod Valid
use agent_memory_cpp.Prelude.{
  ℕ, suc, ◌+◌, ◌-◌, ◌*◌, ◌%◌, ◌^◌, Bool, true, false, not, ◌&&◌, ◌||◌, Option, none, some, List, [],
  ◌∷◌, ◌++◌, is_empty, ltb, ◌==◌, if◌then◌else◌,
}
use agent_memory_cpp.Prelude.Int.{ℤ, pos, negsuc, is_positive, is_nonneg, lt_int, to_int32}
use agent_memory_cpp.Prelude.Result.{Result, ok, thrown, ◌>>=◌, ◌>>◌, throw_if}
use agent_memory_cpp.Text.{Text, codes, text_eq, mem_text}
use agent_memory_cpp.Json.{
  Json, Members, no_members, member, object, string, integer, unsigned, boolean, empty_object,
  get_member, find_member,
}

pub record HttpServerOptions : Type 0 where
  pub host : Text
  pub port : ℤ
  pub max_payload_bytes : ℕ
  pub read_timeout_seconds : ℤ
  pub write_timeout_seconds : ℤ
  pub thread_count : ℤ

pub record McpServerOptions : Type 0 where
  pub mode : Text
  pub path : Text
  pub max_message_bytes : ℕ

pub record ServerOptions : Type 0 where
  pub data_path : Text
  pub model_config : Json
  pub strict_model_config : Bool
  pub enable_payload_offload : Bool
  pub offload_threshold : ℤ
  pub token_budget : ℤ
  pub debug_errors : Bool
  pub api_token : Text
  pub http : HttpServerOptions
  pub mcp : McpServerOptions

-- The default-constructed options.
abbrev pub default_options : ServerOptions
default_options = record {
  data_path = codes "./data";
  model_config = empty_object;
  strict_model_config = false;
  enable_payload_offload = true;
  offload_threshold = pos 8000;
  token_budget = pos 4096;
  debug_errors = false;
  api_token = [];
  http = record {
    host = codes "127.0.0.1";
    port = pos 8090;
    max_payload_bytes = 1024 * 1024;
    read_timeout_seconds = pos 0;
    write_timeout_seconds = pos 0;
    thread_count = pos 0;
  };
  mcp = record { mode = codes "http"; path = codes "/mcp"; max_message_bytes = 1024 * 1024 };
}

-- `ValidateKeys` on the members of an object.
unfoldable pub validate_members : Members → List Text → Text → Result (Unit {0})
unfolding mem_text
validate_members no_members allowed prefix = ok tt
validate_members (member key value ms) allowed prefix = do
  throw_if (not (mem_text key allowed)) (codes "unknown server config key: " ++ prefix ++ key)
  validate_members ms allowed prefix

-- What is no object here has no keys.
abbrev pub validate_keys : Json → List Text → Text → Result (Unit {0})
unfolding validate_members
validate_keys (object ms) allowed prefix = validate_members ms allowed prefix
validate_keys _ allowed prefix = ok tt

-- A wrong type of a member.
abbrev must_be : {A : Type 0} → Text → Text → Result A
must_be kind key = thrown (codes "server config key must be " ++ kind ++ codes ": " ++ key)

abbrev as_string : Text → Json → Result Text
as_string key (string s) = ok s
as_string key _ = must_be (codes "a string") key

-- get<int>() keeps the lowest 32 bits.
unfoldable pub int_of : ℤ → ℤ
unfolding to_int32
int_of (pos n) = to_int32 n
int_of (negsuc n) = to_int32 (2 ^ 32 - 1 - n % 2 ^ 32)

abbrev as_int : Text → Json → Result ℤ
unfolding to_int32
as_int key (integer i) = ok (int_of i)
as_int key (unsigned n) = ok (to_int32 n)
as_int key _ = must_be (codes "an integer") key

-- A std::size_t has 64 bits here, so that no number of the library is too large.
abbrev as_size : Text → Json → Result ℕ
as_size key (unsigned n) = ok n
as_size key _ = must_be (codes "an unsigned integer") key

abbrev as_bool : Text → Json → Result Bool
as_bool key (boolean b) = ok b
as_bool key _ = must_be (codes "a boolean") key

abbrev as_object : Text → Json → Result Json
as_object key (object ms) = ok (object ms)
as_object key _ = must_be (codes "an object") key

-- A member that is read in this way, or the default where there is none.
unfoldable pub load : {A : Type 0} → (Text → Json → Result A) → Json → Text → A → Result A
unfolding find_member
load read json key default_value = elim (get_member key json) [
  | none ↦ ok default_value
  | some value ↦ read key value
]

abbrev load_string : Json → Text → Text → Result Text
unfolding load
load_string = load as_string

abbrev load_int : Json → Text → ℤ → Result ℤ
unfolding load to_int32
load_int = load as_int

abbrev load_size : Json → Text → ℕ → Result ℕ
unfolding load
load_size = load as_size

abbrev load_bool : Json → Text → Bool → Result Bool
unfolding load
load_bool = load as_bool

abbrev load_sub_object : Json → Text → Result Json
unfolding load
load_sub_object json key = load as_object json key empty_object

abbrev pub memory_keys : List Text
memory_keys =
    codes "dataPath"
    ∷ codes "enablePayloadOffload"
    ∷ codes "offloadThreshold"
    ∷ codes "tokenBudget"
    ∷ []

unfoldable pub load_memory_options : Json → ServerOptions → Result ServerOptions
unfolding validate_members load to_int32
load_memory_options memory opts = do
  validate_keys memory memory_keys (codes "memory.")
  data_path ← load_string memory (codes "dataPath") opts.data_path
  offload ← load_bool memory (codes "enablePayloadOffload") opts.enable_payload_offload
  threshold ← load_int memory (codes "offloadThreshold") opts.offload_threshold
  budget ← load_int memory (codes "tokenBudget") opts.token_budget
  ok (record opts {
    data_path = data_path;
    enable_payload_offload = offload;
    offload_threshold = threshold;
    token_budget = budget;
  })

abbrev pub model_keys : List Text
model_keys =
    codes "enabled"
    ∷ codes "strict"
    ∷ codes "formatType"
    ∷ codes "baseUrl"
    ∷ codes "apiKey"
    ∷ codes "modelName"
    ∷ codes "organization"
    ∷ codes "anthropicVersion"
    ∷ codes "anthropic-version"
    ∷ codes "timeoutSeconds"
    ∷ codes "maxTokens"
    ∷ codes "max_tokens"
    ∷ codes "temperature"
    ∷ codes "headers"
    ∷ codes "extraParams"
    ∷ []

-- A model that is switched off leaves the configuration empty.
unfoldable pub load_model_options : Json → ServerOptions → Result ServerOptions
unfolding validate_members load
load_model_options model opts = do
  validate_keys model model_keys (codes "model.")
  strict ← load_bool model (codes "strict") opts.strict_model_config
  enabled ← load_bool model (codes "enabled") true
  ok (record opts {
    strict_model_config = strict;
    model_config = if enabled then model else opts.model_config;
  })

abbrev pub http_keys : List Text
http_keys =
    codes "host"
    ∷ codes "port"
    ∷ codes "maxPayloadBytes"
    ∷ codes "readTimeoutSeconds"
    ∷ codes "writeTimeoutSeconds"
    ∷ codes "threadCount"
    ∷ []

unfoldable pub load_http_options : Json → ServerOptions → Result ServerOptions
unfolding validate_members load to_int32
load_http_options http opts = do
  validate_keys http http_keys (codes "server.http.")
  host ← load_string http (codes "host") opts.http.host
  port ← load_int http (codes "port") opts.http.port
  bytes ← load_size http (codes "maxPayloadBytes") opts.http.max_payload_bytes
  reading ← load_int http (codes "readTimeoutSeconds") opts.http.read_timeout_seconds
  writing ← load_int http (codes "writeTimeoutSeconds") opts.http.write_timeout_seconds
  threads ← load_int http (codes "threadCount") opts.http.thread_count
  ok (record opts {
    http = record {
      host = host;
      port = port;
      max_payload_bytes = bytes;
      read_timeout_seconds = reading;
      write_timeout_seconds = writing;
      thread_count = threads;
    };
  })

abbrev pub auth_keys : List Text
auth_keys = codes "apiToken" ∷ []

unfoldable pub load_auth_options : Json → ServerOptions → Result ServerOptions
unfolding validate_members load
load_auth_options auth opts = do
  validate_keys auth auth_keys (codes "server.auth.")
  token ← load_string auth (codes "apiToken") opts.api_token
  ok (record opts { api_token = token })

abbrev pub mcp_keys : List Text
mcp_keys = codes "mode" ∷ codes "path" ∷ codes "maxMessageBytes" ∷ []

unfoldable pub load_mcp_options : Json → ServerOptions → Result ServerOptions
unfolding validate_members load
load_mcp_options mcp opts = do
  validate_keys mcp mcp_keys (codes "server.mcp.")
  mode ← load_string mcp (codes "mode") opts.mcp.mode
  path ← load_string mcp (codes "path") opts.mcp.path
  bytes ← load_size mcp (codes "maxMessageBytes") opts.mcp.max_message_bytes
  ok (record opts { mcp = record { mode = mode; path = path; max_message_bytes = bytes } })

abbrev pub server_keys : List Text
server_keys = codes "debugErrors" ∷ codes "auth" ∷ codes "http" ∷ codes "mcp" ∷ []

unfoldable pub load_server_section : Json → ServerOptions → Result ServerOptions
unfolding validate_members load load_auth_options load_http_options load_mcp_options
load_server_section server opts = do
  validate_keys server server_keys (codes "server.")
  debug ← load_bool server (codes "debugErrors") opts.debug_errors
  auth ← load_sub_object server (codes "auth")
  with_auth ← load_auth_options auth (record opts { debug_errors = debug })
  http ← load_sub_object server (codes "http")
  with_http ← load_http_options http with_auth
  mcp ← load_sub_object server (codes "mcp")
  load_mcp_options mcp with_http

abbrev pub top_keys : List Text
top_keys = codes "memory" ∷ codes "model" ∷ codes "server" ∷ []

-- The block under `j.contains("model")`.
unfoldable pub load_model_section : Json → ServerOptions → Result ServerOptions
unfolding find_member load load_model_options
load_model_section j opts = elim (get_member (codes "model") j) [
  | none ↦ ok opts
  | some value ↦ (do model ← load_sub_object j (codes "model"); load_model_options model opts)
]

unfoldable pub load_server_options : Json → Result ServerOptions
unfolding validate_members load load_memory_options load_model_section load_server_section
load_server_options j = do
  validate_keys j top_keys []
  memory ← load_sub_object j (codes "memory")
  with_memory ← load_memory_options memory default_options
  with_model ← load_model_section j with_memory
  server ← load_sub_object j (codes "server")
  load_server_section server with_model

abbrev is_object_text : Option Json → Bool
is_object_text (some (object ms)) = true
is_object_text _ = false

abbrev value_in : Option Json → Json
value_in (some value) = value
value_in none = empty_object

-- `LoadServerOptionsFile`: the text of the file, if it can be opened, and the parser are parameters.
unfoldable pub load_server_options_file :
    (Text → Option Json) → Text → Option Text → Result ServerOptions
unfolding load_server_options
load_server_options_file parse path none = thrown (codes "failed to open server config: " ++ path)
load_server_options_file parse path (some text) = do
  throw_if (not (is_object_text (parse text))) (codes "invalid server config JSON: " ++ path)
  load_server_options (value_in (parse text))

abbrev pub is_slash_first : Text → Bool
is_slash_first [] = false
is_slash_first (c ∷ cs) = c == b'/'

-- The block under `httpMode`.
unfoldable pub validate_http : HttpServerOptions → Result (Unit {0})
validate_http http = do
  throw_if (is_empty http.host) (codes "server.http.host must not be empty")
  throw_if (lt_int http.port (pos 1) || lt_int (pos 65535) http.port)
      (codes "server.http.port must be between 1 and 65535")
  throw_if (http.max_payload_bytes == 0) (codes "server.http.maxPayloadBytes must be positive")
  throw_if
      (lt_int http.read_timeout_seconds (pos 0)
        || lt_int http.write_timeout_seconds (pos 0)
        || lt_int http.thread_count (pos 0))
      (codes "server.http timeout and thread settings must be non-negative")

unfoldable pub validate_server_options : ServerOptions → Bool → Result (Unit {0})
unfolding text_eq validate_http
validate_server_options opts http_mode = do
  throw_if (is_empty opts.data_path) (codes "memory.dataPath must not be empty")
  throw_if (lt_int opts.offload_threshold (pos 0))
      (codes "memory.offloadThreshold must be non-negative")
  throw_if (not (is_positive opts.token_budget)) (codes "memory.tokenBudget must be positive")
  throw_if (not (text_eq opts.mcp.mode (codes "http")))
      (codes "server.mcp.mode currently supports only http")
  throw_if (not (is_slash_first opts.mcp.path)) (codes "server.mcp.path must start with /")
  throw_if (opts.mcp.max_message_bytes == 0) (codes "server.mcp.maxMessageBytes must be positive")
  if http_mode then validate_http opts.http else ok tt
