-- ===== src/Tests.antt =====
-- Runs of the models on small inputs, and the theorems at such inputs.
mod Planning
mod Cod
mod Store
mod Execution
mod Sending
mod Listing
mod MonthClosing
mod Sync
mod Providers
mod Allegro
mod Retry
