-- ===== src/Setup.antt =====
-- cmd/zeta-setup/main.go: the installer of libzeta.a.
pub mod Text
pub mod Trimming
pub mod Sums
pub mod Disk
pub mod Rules
pub mod Calls
pub mod Names
pub mod Download
pub mod Install
pub mod Commands
pub mod Writes
pub mod Fetches
pub mod Verified
pub mod Outcome
pub mod Placing
pub mod Installs
pub mod Versions
pub mod Uninstalls
pub mod Program
