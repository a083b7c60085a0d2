-- ===== src/Payload.antt =====
-- `pack_payload` and `unpack_payload` of compost_rpc/compost_rpc.py: the bytes of arguments and results.
pub mod Types
pub mod Pack
pub mod Unpack
pub mod Slices
pub mod Received
mod Bytes
mod Fields
mod Strings
mod Steps
mod Values
mod Texts
pub mod Layout
pub mod Sizes
pub mod Tight
mod Offsets
pub mod StructSize
pub mod Shape
pub mod Typed
mod Delivers
pub mod RoundTrip
pub mod Runs
