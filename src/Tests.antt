-- ===== src/Tests.antt =====
-- The theorems at concrete inputs.
mod Core
mod Auth
mod Registry
mod Policy
mod Dispatch
