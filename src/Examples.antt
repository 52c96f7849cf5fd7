-- ===== src/Examples.antt =====
-- Concrete wallets on which the theorems are applied.
mod Wallets
mod Scanning
mod Locking
mod Rounds
mod Monitoring
mod Webhooks
mod Display
mod Downloads
mod Burning
