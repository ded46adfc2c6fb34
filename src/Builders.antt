-- ===== src/Builders.antt =====
-- builders/: the scripts that collect pools and liquidity from a chain, and build arbitrage paths.
pub mod LpFetcher
pub mod Liquidity
pub mod Snapshot
pub mod TwoPool
pub mod ThreePool
pub mod Fetchers
pub mod SnapshotFile
