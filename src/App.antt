-- ===== src/App.antt =====
-- The application layer (opendnp3/app): the header of a fragment, and its objects.
pub mod ClassField
pub mod Objects
pub mod Range
pub mod Parser
pub mod FunctionCode
pub mod IinField
pub mod FragmentHeader
mod Examples
mod HeaderExamples
