-- ===== src/Shipping/Cod.antt =====
-- zdrovena/shipping/domain/cod.py: one collection amount split across the parcels of a draft.
pub mod Fractions
pub mod Remainder
pub mod Money
pub mod Assign
pub mod Allocation
