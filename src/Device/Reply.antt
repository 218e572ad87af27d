-- ===== src/Device/Reply.antt =====
-- The wait for a reply: what the handlers leave alone, and that `wait_cmd` ends.
pub mod Keeps
pub mod Wait
pub mod Ends
