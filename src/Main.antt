-- ===== src/Main.antt =====
-- src/main.cpp
pub mod Callback
pub mod Startup
pub mod Stopped
pub mod OfiSum
pub mod ViewChange
pub mod Config
pub mod ConfigValid
