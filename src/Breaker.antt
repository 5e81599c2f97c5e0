-- ===== src/Breaker.antt =====
-- core/breaker: the circuit breaker.
pub mod Bucket
pub mod History
pub mod Counts
pub mod Google
pub mod ErrorWindow
mod Thousandths
mod Tests
