-- ===== src/Resources/Types.antt =====
-- pkg/api/business/resources/types.go, provider.go and config.go: the records of the resources
-- package. An optional pointer is an `Option`.
use bfo.Common.{ℕ, String, Bool, Option, List, Int64, Io, Map, Time}

pub record ResourceInstanceState : Type 0 where
  pub last_activity_time : Time
  pub resource_instance_id : String
  pub provider_name : String
  pub state : List ℕ
  pub current_token_load : Int64
  pub active_batches : Int64
  pub max_concurrent_batches : Int64
  pub tokens_per_minute : Int64
  pub max_tokens_per_batch : Int64
  pub version : Int64

pub record ConfigModel : Type 0 where
  pub name : String
  pub batching : Bool
  pub max_input_token : Int64
  pub max_input_tokens_per_minute : Int64
  pub max_size_per_file : Int64
  pub max_requests_per_file : Int64
  pub max_files_per_resource : Int64

pub record ConfigResourceInstance : Type 0 where
  pub models : Map ConfigModel
  pub properties : Map String
  pub region : String
  pub provider : String
  pub period : Int64  -- a `time.Duration`
  pub max_input_token : Int64
  pub max_input_tokens_per_minute : Int64
  pub max_size_per_file : Int64
  pub max_requests_per_file : Int64
  pub max_files_per_resource : Int64
  pub disabled : Bool

pub record ConfigResource : Type 0 where
  pub instances : Map ConfigResourceInstance
  pub models : Map ConfigModel
  pub properties : Map String
  pub provider : String
  pub period : Int64  -- a `time.Duration`
  pub disabled : Bool

pub record File : Type 0 where
  pub id : String
  pub object : String
  pub filename : String
  pub purpose : String
  pub status : String
  pub status_details : String
  pub bytes : Int64
  pub created_at : Int64

pub record CreateBatchRequest : Type 0 where
  pub metadata : Map String
  pub input_file_id : String
  pub endpoint : String
  pub completion_window : String

pub record BatchError : Type 0 where
  pub line : Option Int64
  pub code : String
  pub message : String
  pub param : String

pub record BatchErrors : Type 0 where
  pub object : String
  pub entries : List BatchError  -- `Data`

pub record BatchRequestCounts : Type 0 where
  pub total : Int64
  pub completed : Int64
  pub failed : Int64

pub record Batch : Type 0 where
  pub errors : Option BatchErrors
  pub output_file_id : Option String
  pub error_file_id : Option String
  pub in_progress_at : Option Int64
  pub expires_at : Option Int64
  pub finalizing_at : Option Int64
  pub completed_at : Option Int64
  pub failed_at : Option Int64
  pub cancelled_at : Option Int64
  pub metadata : Map String
  pub id : String
  pub object : String
  pub endpoint : String
  pub input_file_id : String
  pub completion_window : String
  pub status : String
  pub request_counts : BatchRequestCounts
  pub created_at : Int64

pub record ListBatchesResponse : Type 0 where
  pub first_id : Option String
  pub last_id : Option String
  pub object : String
  pub entries : List Batch  -- `Data`
  pub has_more : Bool

pub record ListBatchesParams : Type 0 where
  pub after : Option String
  pub limit : Option Int64

-- The interface `Provider`; a pointer that comes back may be nil.
pub record Provider (W : Type 0) : Type 0 where
  pub create_file : String → List ℕ → String → Io W (Option File)
  pub create_batch : CreateBatchRequest → Io W (Option Batch)
  pub retrieve_batch : String → Io W (Option Batch)
  pub cancel_batch : String → Io W (Option Batch)
  pub list_batches : Option ListBatchesParams → Io W (Option ListBatchesResponse)
  pub get_file_content : String → Io W (List ℕ)
