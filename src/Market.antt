-- ===== src/Market.antt =====
-- services/api/app/market/service.py: the market data service between a provider and the
-- persistence.
pub mod Interface
pub mod Freshness
pub mod Service
pub mod Replay
