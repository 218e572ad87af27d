-- ===== src/Serial.antt =====
-- The serial port of the adapter: atmega328p/source/serial.c. The two byte rings, the routines
-- that move bytes through them, and the two interrupt handlers.
pub mod Ring
pub mod Uart
