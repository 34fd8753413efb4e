-- ===== src/Handler.antt =====
-- daemon/handler.c: what a handler thread does with a client.
pub mod Buffer
pub mod Fifo
pub mod History
pub mod Dataset
pub mod Sending
pub mod Sender
pub mod Life
