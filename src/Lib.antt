-- ===== src/Lib.antt =====
-- Compost RPC: a Python package that calls functions on a device, and the C code that it generates for
-- the device. A message is four bytes of header and a payload of whole 32-bit words.
--
-- compost_rpc/compost_rpc.py
--   MemUnit                      MemUnit.antt
--   BitU                         BitU.antt, against the bit string of BitString.antt
--   U64 to I8, struct formats    Numbers.antt
--   pack_payload, unpack_payload Payload/Pack.antt, Payload/Unpack.antt
--   struct                       Payload/Layout.antt
--   Header, Msg                  Wire/Header.antt, Wire/Msg.antt
--   Rpc, Endpoint                Protocol/Rpc.antt
--   rpc, Protocol                Protocol/Registry.antt
--   features, _validate_endpoint Protocol/Features.antt
--   TcpTransport, SerialTransport, StdioTransport  Transport/Stream.antt
--   UdpTransport, RawEthernetTransport, SocketCanFdTransport  Transport/Frames.antt
--   _Session                     Session.antt
--   Rpc.__call__                 Session/Call.antt
--   Generator                    Generator.antt
-- compost_rpc/lib/c/source_template.py, and what CCodeGenerator.generate adds to it
--   compost_header_load, _store  Runtime/Header.antt
--   compost_msg_process          Runtime/Process.antt
--   compost_u8_load and so on    Runtime/Numbers.antt
--   compost_bituint_load, fields Runtime/BitUint.antt
--   compost_alloc_next           Runtime/Alloc.antt
--   compost_slice_u8_get and so on  Runtime/Slices.antt
--   compost_str_new, compost_f32_load and so on  Runtime/Strings.antt
--
-- A call packs its arguments, and `_Session.rpc` sends them in a `Msg` under a fresh transaction number
-- and waits for the first thing that the listener thread puts into the queue. The device answers with
-- `compost_msg_process`, which runs the handler for the id. The listener gives messages under the number
-- 0 to the callbacks and puts the others into the queue.
--
-- A method that writes to its object returns the new one. A Python call that may raise returns a
-- `Result`. Bytes are numbers below 256, a buffer is a list of them, and a NULL pointer is `none`. The
-- thread and the callers meet in the queue only, so that a run is a sequence of events: what arrives
-- before a caller looks, and while it waits.
--
-- A payload has a list of types and a list of values. The buffer of 1024 bytes and the offset in bits are
-- passed from value to value; the size of a struct's class is that of its members without the bytes of
-- its strings and lists. Python's floats and texts are parameters with the laws of LibraryLaws.
-- Reader and writer do not move their offsets in the same way at a number; Payload/Received.antt says for
-- which types they meet again.
--
-- The loops of `BitU` and of compost_bituint_load and _store run on fuel, one round for each bit of the field: a
-- round places one bit at least. The loops of the transports run on as many rounds as there are bytes to
-- send or to receive: a round sends one byte at least, or finds one or raises. The loop over the
-- subscribers of a notification has as many rounds as there are subscribers, as callbacks may add
-- (`growth` of Environment, since a list that they extend forever is iterated forever) and one more;
-- Session/Rounds.antt is about their number.
--
-- The C runtime is built without COMPOST_DEBUG, so that assertions do nothing, but for
-- compost_header_store, which is modelled for both builds. A callback is quiet if it returns and leaves
-- the session alone; callbacks make no calls if they take nothing from the queue and register no RPC.
--
-- Parameters: the callbacks (what they do to the session, and whether they raise), what a session gets
-- from its transport and whether a send raises, sockets and ports, the serdes objects of a call, the
-- files that a code generator returns, and the handlers of the device (what they store). Not modelled: opening and closing of connections, the text of the generated
-- code but for the dispatch, the checks of annotations, the C# library, and console and file I/O.
--
-- Common.antt holds the names and lemmas that the modules share. Where a file X.antt has laws, they are
-- in the folder X, and X/Runs.antt has runs at concrete data.
pub mod Common
pub mod MemUnit
pub mod Numbers
pub mod BitString
pub mod BitU
pub mod Payload
pub mod Wire
pub mod Protocol
pub mod Transport
pub mod Session
pub mod Generator
pub mod Runtime
