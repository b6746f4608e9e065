-- ===== src/Storage/Tables.antt =====
-- The tables that `MemorySqliteStore::Initialize` of src/storage/sqlite_store.cpp creates, and the
-- values that are bound to and read from them. A table is the list of its rows by rising row id;
-- `sequence` is the last id that AUTOINCREMENT has given.
use agent_memory_cpp.Prelude.{
  is_empty, true, ℕ, ◌≡◌, refl, Bool, Option, List, [], ◌∷◌, arith, leb, ◌==◌, if◌then◌else◌,
}
use agent_memory_cpp.Prelude.Int.{ℤ}
use agent_memory_cpp.Text.{Text}
use agent_memory_cpp.Json.{Float}
use agent_memory_cpp.Types.{MemoryEventType, Timestamp}

pub record EventRow : Type 0 where
  pub id : ℕ
  pub agent_id : Text
  pub session_id : Text
  pub event_type : MemoryEventType
  pub role : Text
  pub content : Text
  pub payload_ref : Text
  pub tool_call_id : Text
  pub tool_name : Text
  pub metadata_json : Text
  pub created_at : Timestamp

pub record PayloadRow : Type 0 where
  pub id : ℕ
  pub agent_id : Text
  pub session_id : Text
  pub ref : Text
  pub content_type : Text
  pub tool_name : Text
  pub summary : Text
  pub original_chars : ℤ
  pub created_at : Timestamp

pub record SummaryRow : Type 0 where
  pub id : ℕ
  pub agent_id : Text
  pub session_id : Text
  pub level : Text
  pub topic : Text
  pub summary : Text
  pub source_refs_json : Text
  pub confidence : Float
  pub created_at : Timestamp
  pub updated_at : Timestamp

pub record EntityRow : Type 0 where
  pub id : Text
  pub agent_id : Text
  pub kind : Text
  pub name : Text
  pub summary : Text
  pub confidence : Float
  pub source_refs_json : Text
  pub metadata_json : Text
  pub active : Bool
  pub superseded_by : Option Text
  pub created_at : Timestamp
  pub updated_at : Timestamp

pub record RelationRow : Type 0 where
  pub id : ℕ
  pub agent_id : Text
  pub from_entity : Text
  pub relation : Text
  pub to_entity : Text
  pub confidence : Float
  pub source_refs_json : Text
  pub metadata_json : Text
  pub active : Bool
  pub created_at : Timestamp
  pub updated_at : Timestamp

pub record CursorRow : Type 0 where
  pub agent_id : Text
  pub session_id : Text
  pub cursor : ℤ
  pub updated_at : Timestamp

pub record Sequences : Type 0 where
  pub events : ℕ
  pub payloads : ℕ
  pub summaries : ℕ
  pub relations : ℕ

pub record Tables : Type 0 where
  pub events : List EventRow
  pub payloads : List PayloadRow
  pub summaries : List SummaryRow
  pub entities : List EntityRow
  pub relations : List RelationRow
  pub cursors : List CursorRow
  pub sequence : Sequences

abbrev pub empty_tables : Tables
empty_tables = record {
  events = [];
  payloads = [];
  summaries = [];
  entities = [];
  relations = [];
  cursors = [];
  sequence = record { events = 0; payloads = 0; summaries = 0; relations = 0 };
}

-- `sqlite3_bind_text(stmt, i, s.c_str(), -1, …)` binds the bytes before the first NUL.
unfoldable pub c_str : Text → Text
c_str [] = []
c_str (c ∷ cs) = if c == 0 then [] else c ∷ c_str cs

pub c_str_idem : (s : Text) → c_str (c_str s) ≡ c_str s
unfolding c_str
c_str_idem [] = refl
c_str_idem (c ∷ cs) = ground (arith, c_str_idem cs)

pub is_empty-c_str : (s : Text) → is_empty s ≡ true → is_empty (c_str s) ≡ true
unfolding c_str
is_empty-c_str [] h = refl
is_empty-c_str (c ∷ cs) h = ground arith

-- ORDER BY key DESC, where rows with one key keep the order in which they come.
module _ {ℓ} {A : Type ℓ} (key : A → ℕ) where
  unfoldable pub insert_desc : A → List A → List A
  insert_desc x [] = x ∷ []
  insert_desc x (y ∷ ys) = if leb (key y) (key x) then x ∷ y ∷ ys else y ∷ insert_desc x ys

  unfoldable pub order_by_desc : List A → List A
  unfolding insert_desc
  order_by_desc [] = []
  order_by_desc (x ∷ xs) = insert_desc x (order_by_desc xs)
