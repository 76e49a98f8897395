-- ===== src/Tests.antt =====
-- Concrete journals on which the theorems are applied.
mod Toy
mod StorageRuns
mod PricingRuns
mod ProgramRuns
mod TransactionRuns
mod UpgradeRuns
mod PrecompileRuns
