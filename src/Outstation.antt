-- ===== src/Outstation.antt =====
-- The outstation (opendnp3/outstation): the buffer of events that wait to be reported, and what it keeps of
-- requests.
pub mod EventCount
pub mod SoeRecord
pub mod EventBufferConfig
pub mod EventBuffer
pub mod ControlState
pub mod RequestHistory
pub mod DeferredRequest
mod Examples
mod RequestExamples
