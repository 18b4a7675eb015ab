-- ===== src/Input.antt =====
-- firmware/include/util: the decisions on inputs and on sleep.
pub mod Debouncer
pub mod Button
pub mod IdlePolicy
pub mod Queue
