-- ===== src/Status.antt =====
-- The conditions of a printer in order (print-core/src/model/printer.rs), and what the providers read
-- from a device: providers/windows/src/status.rs and providers/tcp/src/status.rs.
pub mod Order
pub mod Flags
pub mod Windows
pub mod Tcp
