-- ===== src/Xpio.antt =====
-- luau/xpio_c.c: a module for each part of it, and the abstract views.
pub mod Address
pub mod Proc
pub mod GrowArray
pub mod Queue
pub mod Module
pub mod Spawn
pub mod Environ
pub mod Children
pub mod Clock
pub mod Socket
pub mod Options
pub mod Methods
pub mod Tasks
