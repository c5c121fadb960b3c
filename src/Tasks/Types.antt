-- ===== src/Tasks/Types.antt =====
-- pkg/api/business/tasks/types.go and config.go: the records of the tasks package.
use bfo.Common.{ℕ, String, Option, List, Int64, Map, Time}

pub record TaskBucketRetryPolicy : Type 0 where
  pub max_attempts : Int64

pub record TaskBucketHooks : Type 0 where
  pub result : String
  pub refresh : String

pub record TaskBucket : Type 0 where
  pub hooks : TaskBucketHooks
  pub id : String
  pub default_priority : Int64
  pub default_sla : Int64  -- a `time.Duration`
  pub retry_policy : TaskBucketRetryPolicy

pub record TaskMessage : Type 0 where
  pub role : String
  pub content : String

pub record Task : Type 0 where
  pub created_at : Time
  pub bucket_id : String
  pub id : String
  pub model : String
  pub messages : List TaskMessage
  pub max_tokens : Int64
  pub estimated_input_tokens : Int64
  pub temperature : ℕ  -- the bits of a `float32`, which are only carried along
  pub priority : Int64
  pub sla : Int64  -- a `time.Duration`

-- `Task` is a pointer, and nil where the message body is the JSON `null`.
pub record TaskWithReceipt : Type 0 where
  pub task : Option Task
  pub receipt_handle : String

pub record TaskStatus : Type 0 where
  pub created_at : Time
  pub updated_at : Time
  pub task_id : String
  pub status : String
  pub resource_instance_id : String
  pub batch_id : String
  pub last_error : String
  pub output : String
  pub retries : Int64
  pub version : Int64

-- A value of the `map[string]any` that a partial update carries.
pub data UpdateValue : Type 0 where
  time : Time → UpdateValue
  string : String → UpdateValue

abbrev pub Updates : Type 0
Updates = Map UpdateValue

pub record RetryPolicy : Type 0 where
  pub max_attempts : Int64
  pub backoff_period : Int64  -- a `time.Duration`

pub record Config : Type 0 where
  pub default_max_tokens : Int64
  pub retry_policy : RetryPolicy
