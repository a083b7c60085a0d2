-- ===== src/Transport/Delivery.antt =====
-- A call's arguments from one side to the other: the payload, the message and the datagram together.
use compost_rpc.Common.{List}
use compost_rpc.Wire.Header.{Header}
use compost_rpc.Wire.Msg
use compost_rpc.Wire.Msg.{Msg}
use compost_rpc.Payload.Types.{Types}
