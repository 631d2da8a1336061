-- ===== src/Link.antt =====
-- The data link layer (cpp/libs/src/opendnp3/link).
pub mod Crc
pub mod Function
pub mod Header
pub mod HeaderLaws
pub mod Frame
pub mod Blocks
pub mod InPlace
pub mod Buffer
pub mod Validation
pub mod Parser
pub mod Context
pub mod PriStates
pub mod SecStates
pub mod Layer
pub mod Examples
