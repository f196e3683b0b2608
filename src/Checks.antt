-- ===== src/Checks.antt =====
-- The release checks of contracts/: how a check ends, and its exit code.
pub mod Teal
pub mod Deployment
pub mod Arc56
pub mod Pinned

-- What ends a check early: CheckError, and any other exception.
pub data Failure : Type 0 where
  check_error crashed : Failure
