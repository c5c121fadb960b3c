-- ===== src/Adapters.antt =====
-- The adapters: the store, the queue, and the repository over them.
pub mod Sdk
pub mod SqsEndpoint
pub mod DynamoDbEndpoint
pub mod DynamoDbStore
pub mod SqsQueue
pub mod Repository
pub mod Intake
pub mod QueueSetup
pub mod StateTable
pub mod BucketTable
pub mod Listing
pub mod RoundTrip
