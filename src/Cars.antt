-- ===== src/Cars.antt =====
-- app/modules/cars.
pub mod Repository
pub mod Recommendations
pub mod Service
