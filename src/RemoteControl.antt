-- ===== src/RemoteControl.antt =====
-- src/plaik_core/remote_control.py. Hostname has `validate_dns_hostname`, Record the models and their
-- validators, Store the operations, Plan the gateway plan.
pub mod Hostname
pub mod Record
pub mod Store
pub mod Validity
pub mod Transition
pub mod Steps
pub mod Runs
pub mod Observation
pub mod Plan
mod Examples
