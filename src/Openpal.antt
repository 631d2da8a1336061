-- ===== src/Openpal.antt =====
-- openpal, the portability layer under the protocol: sequence numbers and little-endian words.
-- A slice (RSlice, WSlice) is the list of its bytes.
pub mod SequenceNum
pub mod Serialization
