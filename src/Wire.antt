-- ===== src/Wire.antt =====
-- `Header` and `Msg` of compost_rpc/compost_rpc.py: a message is four bytes of header and a payload
-- of whole 32-bit words. Bytes are numbers below 256.
pub mod Header
pub mod Msg
pub mod HeaderLaws
pub mod MsgLaws
mod Runs
