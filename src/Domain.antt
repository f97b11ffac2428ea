-- ===== src/Domain.antt =====
-- The domain types of src/domain.rs.
pub mod Status
pub mod DeliveryStatus
pub mod Entities
pub mod Tags
