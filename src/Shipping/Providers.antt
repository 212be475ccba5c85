-- ===== src/Shipping/Providers.antt =====
-- The couriers' side of an execution: zdrovena/shipping/providers.
pub mod Calls
pub mod Keys
pub mod Plans
pub mod Distinct
pub mod Yields
pub mod Site
pub mod Inpost
pub mod Apaczka
pub mod Allegro
