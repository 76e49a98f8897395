-- ===== src/Storage.antt =====
-- ArbOS storage: crates/arb-revm/src/storage.
pub mod Space
pub mod Slot
pub mod Queue
pub mod L2Pricing
pub mod BlockHashes
pub mod AddressTable
pub mod AddressSet
pub mod BatchPosterTable
pub mod L1Pricing
pub mod Bytes
pub mod Packed
pub mod StylusParamLayout
pub mod Programs
pub mod SendMerkle
pub mod Features
pub mod Retryables
pub mod ArbosState
