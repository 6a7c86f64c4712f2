-- ===== src/Db/MarketRepository.antt =====
-- services/api/app/db/market_repository.py: append-only market observations with point-in-time
-- reads, and the state of each provider.
pub mod Base
pub mod Fingerprint
pub mod Quotes
pub mod Bars
pub mod State
