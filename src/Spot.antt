-- ===== src/Spot.antt =====
-- The topic layer of src/spot: the registry of topics and the subscriptions.
pub mod Registry
pub mod Topics
pub mod Subscriptions
pub mod Matching
pub mod Removal
pub mod Counts
