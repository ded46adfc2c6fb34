-- ===== src/Arbitrage.antt =====
-- app/core/arbitrage_service.py
pub mod Types
pub mod Affected
pub mod Ranking
pub mod Reduction
pub mod Process
pub mod Service
