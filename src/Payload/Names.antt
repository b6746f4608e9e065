-- ===== src/Payload/Names.antt =====
-- The data of src/core/payload_service.cpp, and the names and texts that it makes up.
use agent_memory_cpp.Prelude.{
  ℕ, zero, suc, ◌+◌, ◌/◌, ◌%◌, ◌≡◌, refl, Bool, true, false, ◌||◌, [], ◌∷◌, ◌++◌, is_empty, length,
  All, ltb, Option, ◌==◌, if◌then◌else◌, Bool-cases, inl, inr, ◌⊎◌,
}
use agent_memory_cpp.Prelude.Int.{ℤ, pos}
use agent_memory_cpp.Text.{Text, codes}
use agent_memory_cpp.Text.Decimal.{to_string}
use agent_memory_cpp.Json.{empty_object}
use agent_memory_cpp.Types.{MemoryError, MemoryPayloadRef}
use agent_memory_cpp.Storage.Engine.{MemorySqliteStore}
use agent_memory_cpp.Storage.Search.Query.{is_alnum}
use agent_memory_cpp.Payload.Disk.{Disk}
use agent_memory_cpp.Payload.Paths.{join_path}

-- Without the metadata, which the service never reads.
pub record MemoryPayloadWriteRequest : Type 0 where
  pub agent_id : Text
  pub session_id : Text
  pub content : Text
  pub content_type : Text
  pub tool_call_id : Text
  pub tool_name : Text

pub record MemoryPayloadWriteResult : Type 0 where
  pub succeeded : Bool
  pub offloaded : Bool
  pub payload : MemoryPayloadRef
  pub replacement_content : Text
  pub error : MemoryError

pub record MemoryPayloadReadResult : Type 0 where
  pub succeeded : Bool
  pub content : Text
  pub error : MemoryError

-- The configuration that the service reads, the directory that its constructor has resolved, and what
-- it works on.
pub record PayloadService : Type 0 where
  pub enable_payload_offload : Bool
  pub offload_threshold_chars : ℤ
  pub data_path : Text
  pub canonical_payload_directory : Text
  pub store : Option MemorySqliteStore
  pub disk : Disk

abbrev pub empty_payload : MemoryPayloadRef
empty_payload = record {
  agent_id = [];
  session_id = [];
  uri = [];
  content_type = [];
  summary = [];
  tool_name = [];
  original_chars = pos 0;
  metadata = empty_object;
  created_at = 0;
}

unfoldable pub payload_directory : PayloadService → Text
unfolding join_path
payload_directory service =
    join_path (join_path service.data_path (codes "memory_runtime")) (codes "payloads")

abbrev hex_digit : ℕ → ℕ
hex_digit n = if ltb n 10 then 48 + n else 87 + n

-- The hexadecimal digits of n before `rest`; fuel n + 1 is enough.
unfoldable pub hex_before : ℕ → ℕ → Text → Text
hex_before zero n rest = rest
hex_before (suc f) n rest =
    let more = hex_before f (n / 16) (hex_digit (n % 16) ∷ rest) in
    if ltb n 16 then hex_digit n ∷ rest else more

-- std::hex << n
unfoldable pub to_hex : ℕ → Text
unfolding hex_before
to_hex n = hex_before (suc n) n []

abbrev or_default : Text → Text → Text
or_default text fallback = if is_empty text then fallback else text

abbrev pub is_name_byte : ℕ → Bool
is_name_byte c = is_alnum c || c == b'_' || c == b'-'

-- The loop that replaces what may not stand in a name.
unfoldable pub safe_name : Text → Text
safe_name [] = []
safe_name (c ∷ cs) = (if is_name_byte c then c else b'_') ∷ safe_name cs

-- `BuildPayloadRef`, with the two numbers that it draws.
unfoldable pub build_payload_ref : MemoryPayloadWriteRequest → ℕ → ℕ → Text
unfolding safe_name to_hex
build_payload_ref request first second = safe_name (
    or_default request.session_id (codes "default")
    ++ codes "_"
    ++ or_default request.tool_call_id (codes "payload")
    ++ codes "_"
    ++ to_hex first
    ++ to_hex second)

-- `BuildPayloadSummary`
unfoldable pub build_payload_summary : MemoryPayloadWriteRequest → Text
unfolding to_string
build_payload_summary request =
    codes "Tool result offloaded"
    ++ (if is_empty request.tool_name then [] else codes " from " ++ request.tool_name)
    ++ codes ", original chars: "
    ++ to_string (length request.content)
    ++ codes "."

safe_name-All : (s : Text) → All (λ c. is_name_byte c ≡ true) (safe_name s)
unfolding safe_name
safe_name-All [] = tt
safe_name-All (c ∷ cs) = (kept (Bool-cases (is_name_byte c)), safe_name-All cs)
  where
    kept :
        (is_name_byte c ≡ true) ⊎ (is_name_byte c ≡ false)
        → is_name_byte (if is_name_byte c then c else b'_') ≡ true
    kept (inl e) = rw e e
    kept (inr e) = rw e refl

-- Whatever the session and the tool call are called, the name of a payload file holds only letters,
-- digits, `_` and `-`.
pub build_payload_ref-All :
    (request : MemoryPayloadWriteRequest) (first second : ℕ)
    → All (λ c. is_name_byte c ≡ true) (build_payload_ref request first second)
unfolding build_payload_ref
build_payload_ref-All request first second = safe_name-All _
