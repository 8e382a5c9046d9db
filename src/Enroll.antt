-- ===== src/Enroll.antt =====
-- src/enroll: the exchange of a one-time code for a device, and its Desk registration.
pub mod Provisioner
pub mod Registration
pub mod Fences
pub mod Remembered
pub mod Further
pub mod Installation
pub mod Agents
pub mod Exchange
pub mod Progress
pub mod Saga
pub mod Cleanup
pub mod Elsewhere
pub mod Partial
pub mod Claims
pub mod Stages
pub mod Flags
pub mod Rollback
pub mod Once
mod Examples
