-- ===== src/Runtime/Creation.antt =====
-- src/core/runtime_services.cpp, src/core/runtime_paths.cpp and src/core/runtime_store_initializer.cpp:
-- the services of a new runtime. The opening of the database, which runs SQL scripts, and the loading
-- of a model client are parameters.
use agent_memory_cpp.Prelude.{Bool, Option, none, some, [], ◌++◌, is_empty, if◌then◌else◌}
use agent_memory_cpp.Prelude.Int.{ℤ}
use agent_memory_cpp.Text.{Text, codes}
use agent_memory_cpp.Types.{MemoryOperationResult}
use agent_memory_cpp.Storage.Engine.{MemorySqliteStore}
use agent_memory_cpp.Consolidation.Service.{Processor}
use agent_memory_cpp.Payload.Disk.{Disk, is_some}
use agent_memory_cpp.Payload.Paths.{join_path, canonical_path}
use agent_memory_cpp.Payload.Names.{PayloadService, payload_directory}
use agent_memory_cpp.Runtime.{RuntimeServices}

-- What the runtime itself reads of a model's configuration.
pub record MemoryModelConfig : Type 0 where
  pub enabled : Bool
  pub format_type : Text
  pub model_name : Text

pub record MemoryConfig : Type 0 where
  pub data_path : Text
  pub token_budget : ℤ
  pub offload_threshold_chars : ℤ
  pub enable_payload_offload : Bool
  pub model : MemoryModelConfig

-- What is found at the start of a runtime.
pub record Startup : Type 0 where
  -- The message of std::filesystem::create_directories, if it fails.
  pub directory_error : Option Text
  -- A `MemorySqliteStore` of a path, and the result of its `Initialize`.
  pub initialize : Text → MemoryOperationResult × MemorySqliteStore
  -- `LoadModelClientFromConfig`
  pub load_model : MemoryModelConfig → Option Processor × Text
  pub disk : Disk

-- `ResolveRuntimeDataPath`
unfoldable pub resolve_runtime_data_path : MemoryConfig → Text
resolve_runtime_data_path config =
    if is_empty config.data_path then codes "./data" else config.data_path

abbrev runtime_directory : MemoryConfig → Text
unfolding resolve_runtime_data_path join_path
runtime_directory config = join_path (resolve_runtime_data_path config) (codes "memory_runtime")

-- `RuntimeDatabasePath`
unfoldable pub runtime_database_path : MemoryConfig → Text
unfolding resolve_runtime_data_path join_path
runtime_database_path config = join_path (runtime_directory config) (codes "memory.db")

abbrev details_behind : Text → Text → Text
details_behind text details = if is_empty details then text else text ++ codes ": " ++ details

-- `CreateRuntimeStore`: a store, or none and what was wrong.
unfoldable pub create_runtime_store : MemoryConfig → Startup → Option MemorySqliteStore × Text
unfolding runtime_database_path resolve_runtime_data_path join_path
create_runtime_store config startup = elim startup.directory_error [
  | some message ↦ (
    none,
    codes "failed to create runtime data directory: "
        ++ runtime_directory config
        ++ codes ": "
        ++ message,
  )
  | none ↦
      (let path = runtime_database_path config in
        let (initialized, s) = startup.initialize path in
        if initialized.succeeded then (some s, []) else (
          none,
          details_behind (codes "failed to initialize sqlite memory store: " ++ path)
              initialized.error.details,
        ))
]

-- The constructor of `PayloadService`
unfoldable pub create_payload_service :
    MemoryConfig → Text → Option MemorySqliteStore → Disk → PayloadService
unfolding canonical_path payload_directory
create_payload_service config data_path store disk =
    let service : PayloadService = record {
      enable_payload_offload = config.enable_payload_offload;
      offload_threshold_chars = config.offload_threshold_chars;
      data_path = data_path;
      canonical_payload_directory = [];
      store = store;
      disk = disk;
    } in
    record service {
      canonical_payload_directory = canonical_path disk.system (payload_directory service);
    }

-- `CreateRuntimeServices`
unfoldable pub create_runtime_services : MemoryConfig → Startup → RuntimeServices
unfolding resolve_runtime_data_path create_runtime_store create_payload_service
create_runtime_services config startup =
    let data_path = resolve_runtime_data_path config in
    let (store, store_error) = create_runtime_store config startup in
    let (client, client_error) = startup.load_model config.model in
    record {
      store = store;
      store_error = store_error;
      payload_service = some (create_payload_service config data_path store startup.disk);
      context_builder = some (record { token_budget = config.token_budget });
      has_consolidation_service = is_some store;
      model_client = client;
      model_client_error = client_error;
    }

pub record MemoryModelStatus : Type 0 where
  pub configured : Bool
  pub available : Bool
  pub format_type : Text
  pub model_name : Text
  pub error : Text

-- `GetModelStatus`
unfoldable pub get_model_status : MemoryConfig → RuntimeServices → MemoryModelStatus
get_model_status config services = record {
  configured = config.model.enabled;
  available = is_some services.model_client;
  format_type = config.model.format_type;
  model_name = config.model.model_name;
  error = services.model_client_error;
}
