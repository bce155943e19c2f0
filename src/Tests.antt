-- ===== src/Tests.antt =====
-- Concrete runs of the modelled code, and the theorems at concrete inputs.
mod Admission
mod Breaker
mod Batches
mod Certificates
mod Dimensions
mod Formulas
mod Integers
mod Obligations
mod Output
mod Parity
mod Pool
mod Receipts
mod Requests
mod Transport
