-- ===== src/Server/Options/Valid.antt =====
-- Options that have been validated (src/server/server_options.cpp).
use agent_memory_cpp.Prelude.{
  ℕ, ◌≡◌, refl, ap, ◌∙◌, ◌↔◌, ◌≤◌, ◌<◌, Bool, true, false, not, ◌||◌, is_empty, arith, ◌==◌,
}
use agent_memory_cpp.Prelude.Int.{ℤ, pos, negsuc, is_positive, is_nonneg, lt_int}
use agent_memory_cpp.Prelude.Result.{ok}
use agent_memory_cpp.Text.{codes, text_eq, text_eq_sound, text_eq_refl}
use agent_memory_cpp.Server.Options.{
  HttpServerOptions, ServerOptions, is_slash_first, validate_http, validate_server_options,
}

-- A port that a server can listen on.
pub record IsPort (port : ℤ) : Type 0 where
  pub number : ℕ
  pub shape : port ≡ pos number
  pub low : 1 ≤ number
  pub high : number ≤ 65535

pub record IsServed (http : HttpServerOptions) : Type 0 where
  pub host : is_empty http.host ≡ false
  pub port : IsPort http.port
  pub payload : 0 < http.max_payload_bytes
  pub reading : is_nonneg http.read_timeout_seconds ≡ true
  pub writing : is_nonneg http.write_timeout_seconds ≡ true
  pub threads : is_nonneg http.thread_count ≡ true

-- Options with which a server can be started.
pub record IsServable (opts : ServerOptions) : Type 0 where
  pub data_path : is_empty opts.data_path ≡ false
  pub threshold : is_nonneg opts.offload_threshold ≡ true
  pub budget : is_positive opts.token_budget ≡ true
  pub mode : opts.mcp.mode ≡ codes "http"
  pub path : is_slash_first opts.mcp.path ≡ true
  pub message : 0 < opts.mcp.max_message_bytes
  pub served : IsServed opts.http

not_below_zero : (x : ℤ) → lt_int x (pos 0) ≡ false → is_nonneg x ≡ true
not_below_zero (pos n) h = refl
not_below_zero (negsuc n) h = absurd (ground (arith, h))

nonneg_not_below : (x : ℤ) → is_nonneg x ≡ true → lt_int x (pos 0) ≡ false
nonneg_not_below (pos n) h = ground arith
nonneg_not_below (negsuc n) h = absurd (ground (arith, h))

in_range : (port : ℤ) → (lt_int port (pos 1) || lt_int (pos 65535) port) ≡ false → IsPort port
in_range (pos n) h = record {
  number = n;
  shape = refl;
  low = ground (arith, h);
  high = ground (arith, h);
}
in_range (negsuc n) h = absurd (ground (arith, h))

port_in_range :
    (n : ℕ) → 1 ≤ n → n ≤ 65535 → (lt_int (pos n) (pos 1) || lt_int (pos 65535) (pos n)) ≡ false
port_in_range n low high = ground (arith, low, high)

not_zero : (n : ℕ) → (n == 0) ≡ false → 0 < n
not_zero n h = ground (arith, h)

none_of : (a b c : Bool) → (a || b || c) ≡ false → (a ≡ false) × (b ≡ false) × (c ≡ false)
none_of a b c h = (ground (arith, h), ground (arith, h), ground (arith, h))

not-false : (b : Bool) → not b ≡ false → b ≡ true
not-false b h = ground (arith, h)

validate_http-IsServed : (http : HttpServerOptions) → validate_http http ≡ ok tt → IsServed http
unfolding validate_http
validate_http-IsServed http h =
    let signs =
      none_of (lt_int http.read_timeout_seconds (pos 0)) (lt_int http.write_timeout_seconds (pos 0))
        (lt_int http.thread_count (pos 0)) (ground (arith, h)) in
    record {
      host = ground (arith, h);
      port = in_range http.port (ground (arith, h));
      payload = not_zero http.max_payload_bytes (ground (arith, h));
      reading = not_below_zero http.read_timeout_seconds signs.0;
      writing = not_below_zero http.write_timeout_seconds signs.1;
      threads = not_below_zero http.thread_count signs.2;
    }

validate-IsServable :
    (opts : ServerOptions) → validate_server_options opts true ≡ ok tt → IsServable opts
unfolding validate_server_options
validate-IsServable opts h = record {
  data_path = ground (arith, h);
  threshold = not_below_zero opts.offload_threshold (ground (arith, h));
  budget = not-false (is_positive opts.token_budget) (ground (arith, h));
  mode =
      text_eq_sound opts.mcp.mode (codes "http")
        (not-false (text_eq opts.mcp.mode (codes "http")) (ground (arith, h)));
  path = not-false (is_slash_first opts.mcp.path) (ground (arith, h));
  message = not_zero opts.mcp.max_message_bytes (ground (arith, h));
  served = validate_http-IsServed opts.http (ground (arith, h));
}

port_allowed : (port : ℤ) → IsPort port → (lt_int port (pos 1) || lt_int (pos 65535) port) ≡ false
port_allowed port p = rw p.shape (port_in_range p.number p.low p.high)

positive_not_zero : (n : ℕ) → 0 < n → (n == 0) ≡ false
positive_not_zero n h = ground (arith, h)

served-validate_http : (http : HttpServerOptions) → IsServed http → validate_http http ≡ ok tt
unfolding validate_http
served-validate_http http s = ground (
  arith,
  s.host,
  port_allowed http.port s.port,
  positive_not_zero http.max_payload_bytes s.payload,
  nonneg_not_below http.read_timeout_seconds s.reading,
  nonneg_not_below http.write_timeout_seconds s.writing,
  nonneg_not_below http.thread_count s.threads,
)

servable-validate :
    (opts : ServerOptions) → IsServable opts → validate_server_options opts true ≡ ok tt
unfolding validate_server_options
servable-validate opts s = ground (
  arith,
  s.data_path,
  nonneg_not_below opts.offload_threshold s.threshold,
  s.budget,
  ap (λ m. text_eq m (codes "http")) s.mode ∙ text_eq_refl (codes "http"),
  s.path,
  positive_not_zero opts.mcp.max_message_bytes s.message,
  served-validate_http opts.http s.served,
)

-- In HTTP mode, ValidateServerOptions accepts exactly the options with which a server can run: a data
-- path and a host are given, the token budget, both limits of sizes and the port are positive, the
-- port is at most 65535, no threshold, timeout or number of threads is negative, and the MCP endpoint
-- is in the mode `http` with a path that begins with a slash.
pub validate_server_options_iff :
    (opts : ServerOptions) → (validate_server_options opts true ≡ ok tt) ↔ IsServable opts
validate_server_options_iff opts = (validate-IsServable opts, servable-validate opts)
