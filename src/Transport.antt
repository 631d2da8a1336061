-- ===== src/Transport.antt =====
-- The transport layer (cpp/libs/src/opendnp3/transport): an application fragment is cut into
-- segments of at most 249 bytes, each behind a header byte with FIR, FIN and a sequence number.
pub mod Header
pub mod Tx
pub mod Rx
pub mod Progress
pub mod RoundTrip
pub mod RxSpec
pub mod Layer
pub mod Sessions
pub mod Examples
