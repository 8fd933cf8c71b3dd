-- ===== src/Buffer.antt =====
-- include/kernel/buffer: the byte ring of the UART driver and the stack of processes.
pub mod Ring
pub mod Stack
mod Tests
