-- ===== src/Storage.antt =====
-- src/storage/mod.rs and src/storage/sqlite.rs: the SQLite work queue and its operations.
pub mod Rows
pub mod Tx
pub mod Statements
pub mod Recordings
pub mod Creation
pub mod Transcription
pub mod Routing
pub mod Deliveries
pub mod Manual
pub mod Recovery
pub mod Operators
pub mod ReadModels
pub mod Listing
pub mod Newest
pub mod Guarded
pub mod View
pub mod Acts
pub mod Frames
pub mod DeliveryFrames
pub mod IdFrames
pub mod Outcomes
pub mod Claim
pub mod Transition
pub mod Moves
pub mod Interventions
pub mod Starts
pub mod Agreement
pub mod Steps
pub mod Life
pub mod Exclusive
