-- ===== src/Channel.antt =====
-- The channel (cpp/libs/src/asiodnp3): the router between the physical layer and the link layers.
pub mod Router
mod Examples
