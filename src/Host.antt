-- ===== src/Host.antt =====
-- bridge/source/gbridge.c, the computer's end of the serial line, over the calls of libserialport.
pub mod Port
pub mod State
pub mod Receive
pub mod Loop
pub mod Send
pub mod Line
pub mod Packet
pub mod Stream
pub mod Wait
pub mod Shake
pub mod Sent
