-- ===== src/Tests.antt =====
-- The theorems at concrete inputs.
pub mod Memory
pub mod Sorting
pub mod Contracts
mod Config
mod Domain
mod Auth
mod Refresh
mod Handover
mod Login
mod Request
mod Sent
mod Redis
pub mod RoundTrip
mod Server
mod Setup
mod Ids
mod Logging
mod SingleUse
pub mod Tables
mod Stores
mod Port
pub mod Threads
pub mod Race
pub mod OneTable
mod Rotated
pub mod LoggedIn
pub mod LoggedOut
pub mod OneUser
mod Delivered
mod Guesses
mod Locked
