-- ===== src/Auth.antt =====
-- src/auth: the service over what it is given, and the theorems about its flows.
pub mod Deps
pub mod Service
pub mod Login
pub mod Effects
pub mod Lockout
pub mod Session
pub mod Reuse
pub mod Registration
pub mod Passwords
pub mod Verification
pub mod Touches
pub mod Steps
pub mod Strength
pub mod Warrants
pub mod Races
pub mod Openings
pub mod History
pub mod Strategy
pub mod Access
pub mod Flows
