-- ===== src/Pairing.antt =====
-- src/plaik_core/pairing.py. Code has the pairing code, Request the checks of a request's headers,
-- Store the stored credential and the sections that run under its lock, Consume `consume`.
pub mod Code
pub mod Request
pub mod Store
pub mod Sections
pub mod Consume
pub mod Held
pub mod Attempts
pub mod Guesses
pub mod Consumption
pub mod Issue
pub mod Readback
mod Examples
