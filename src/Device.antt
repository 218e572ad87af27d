-- ===== src/Device.antt =====
-- The adapter's end of the serial protocol: atmega328p/source/gbridge.c.
pub mod State
pub mod Receive
pub mod Loop
pub mod Send
pub mod Fill
pub mod Inv
pub mod Safe
pub mod Handshake
pub mod Reply
pub mod Write
pub mod Malformed
pub mod Empty
pub mod Stream
pub mod Packet
pub mod Sock
