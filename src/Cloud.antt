-- ===== src/Cloud.antt =====
-- The clients that keep a replica in the bucket of a cloud service: gs/replica_client.go,
-- abs/replica_client.go and s3/replica_client.go,
-- over a service that is a parameter.
pub mod Named
pub mod Bucket
pub mod Names
pub mod Removal
pub mod Listed
pub mod Gs
pub mod Abs
pub mod S3
