-- ===== src/Spread.antt =====
-- The spread engine (backend/app/spread).
pub mod Formulas
pub mod Engine
pub mod Events
