-- ===== src/Tests.antt =====
-- Small inputs, what the program does on them, and the theorems at inputs that meet their
-- hypotheses.
mod Toy
mod Graph
mod Arbitrage
mod LpFetcher
mod Fetchers
mod Liquidity
mod Snapshot
mod Numerals
mod SnapshotFile
mod Events
mod TwoPool
mod ThreePool
mod Pools
mod Managers
mod Helpers
mod Loading
mod Blacklist
mod Bootstrap
mod Callback
mod Exchange
mod Routers
mod Anvil
mod Bots
