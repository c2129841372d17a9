-- ===== src/PaperTrading.antt =====
-- The paper trading engine (backend/app/paper_trading).
pub mod Balance
pub mod Rules
pub mod RateLimiter
pub mod Orders
pub mod Engine
pub mod Setup
