-- ===== src/Domain.antt =====
-- The deterministic signal and risk rules of services/api/app/domain.
pub mod Float
pub mod Risk
pub mod Signal
