-- ===== src/Tests.antt =====
-- Concrete data and runs: each stated property at one input, and tests of the definitions.
mod Data
mod Services
mod Invariant
mod Billing
mod Providers
mod Plates
mod Mileages
mod Cars
mod Redis
mod Auth
mod Routes
mod Centers
mod Stats
mod Uploads
mod Realtime
mod Trips
