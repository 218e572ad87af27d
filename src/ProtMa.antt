-- ===== src/ProtMa.antt =====
-- bridge/source/gbridge_prot_ma.c, which carries out the adapter's requests on the sockets.
pub mod MaCmd
pub mod State
pub mod Handlers
pub mod Requests
pub mod Answers
pub mod Aborts
pub mod Ignored
pub mod Fetch
pub mod Forward
