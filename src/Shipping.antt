-- ===== src/Shipping.antt =====
-- The shipping side of the program: drafts of parcels, their plan, the money that each one collects.
pub mod State
pub mod Parcels
pub mod Planning
pub mod Cod
pub mod Draft
pub mod Store
pub mod Ports
pub mod Patches
pub mod Execution
pub mod Listing
pub mod Sync
pub mod Providers
