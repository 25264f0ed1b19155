-- ===== src/Accounts.antt =====
-- The accounts of uni-srver.py: sign-in, sessions, second factors, and their administration.
pub mod Defs
pub mod Rows
pub mod Login
pub mod Settings
pub mod Profile
pub mod Admin
pub mod Calls
pub mod Edits
pub mod SettingEdits
pub mod SettingSteps
pub mod AdminEdits
pub mod Roles
pub mod Factors
pub mod SignIn
pub mod Passwords
pub mod Guesses
pub mod Counting
pub mod Lockout
mod Tests
