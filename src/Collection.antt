-- ===== src/Collection.antt =====
-- core/collection.
pub mod Fifo
pub mod Ring
pub mod RollingWindow
pub mod SafeMap
pub mod Cache
pub mod TimingWheel
mod Tests
