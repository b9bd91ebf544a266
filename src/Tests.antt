-- ===== src/Tests.antt =====
-- Concrete runs: the theorems at inputs where their conditions hold.
mod Files
mod Printing
mod Volumes
mod Hosted
mod Machine
mod Ram
mod Directories
mod Booting
