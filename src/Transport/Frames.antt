-- ===== src/Transport/Frames.antt =====
-- `UdpTransport`, `RawEthernetTransport` and `SocketCanFdTransport`: one message in each frame.
use compost_rpc.Common.{
  ℕ, ◌+◌, ◌-◌, ◌*◌, List, [], ◌∷◌, ◌++◌, Option, none, some, not, ltb, leb, ◌==◌, if◌then◌else◌,
  length, take, drop, replicate,
}
use compost_rpc.Common.BigEndian.{be_bytes}
use compost_rpc.Common.Result.{
  Result, ok, err, value_error, index_error, assertion_error, overflow_error, ◌>>=◌,
}

-- `frame += b"\x00" * (n - len(frame))` if the frame is shorter, and `ljust(n, b"\x00")`
unfoldable pub fill : ℕ → List ℕ → List ℕ
fill n frame = if ltb (length frame) n then frame ++ replicate (n - length frame) 0 else frame

-- `UdpTransport`: the datagram for a message, and what `recvfrom` gives of a datagram.
unfoldable pub udp_send : List ℕ → List ℕ
unfolding fill
udp_send msg = fill 64 msg

unfoldable pub udp_receive : List ℕ → List ℕ
udp_receive datagram = take 1500 datagram

-- `RawEthernetTransport`, with the two addresses that the constructor takes.
unfoldable pub mac_addresses : List ℕ → List ℕ → Result (List ℕ)
mac_addresses destination source =
    if not (length destination == 6)
    then err value_error
    else if not (length source == 6)
    then err value_error
    else ok (destination ++ source)

unfoldable pub ethernet_send : List ℕ → List ℕ → Result (List ℕ)
unfolding fill be_bytes
ethernet_send addresses msg =
    if ltb (length msg) 65536
    then ok (fill 64 (addresses ++ (be_bytes 2 (length msg) ++ msg)))
    else err overflow_error

unfoldable pub ethernet_receive : List ℕ → List ℕ
ethernet_receive frame = drop 14 (take 1536 frame)

abbrev pub canfd_mtu : ℕ
canfd_mtu = 72

-- `SocketCanFdTransport`. The format of the frame header is that of the machine: packing an id and a
-- length, and reading them.
module _ (pack_header : ℕ → ℕ → Result (List ℕ)) (unpack_header : List ℕ → ℕ × ℕ) where
  unfoldable pub can_send : ℕ → List ℕ → Result (List ℕ)
  unfolding fill
  can_send can_id_tx [] = err index_error
  can_send can_id_tx (words ∷ msg) = if ltb 64 (4 + 4 * words) then err value_error else (do
    header ← pack_header can_id_tx (4 + 4 * words)
    ok (fill canfd_mtu (header ++ (words ∷ msg))))

  -- The loop of `receive` over the frames that come in: with `none` it still waits. The frames behind
  -- the one that it takes stay.
  unfoldable pub can_receive : ℕ → List (List ℕ) → Option (Result (List ℕ) × List (List ℕ))
  can_receive can_id_rx [] = none
  can_receive can_id_rx (cf ∷ frames) =
      let (can_id, length_) = unpack_header (take 8 cf) in
      let later = can_receive can_id_rx frames in
      if not (length cf == canfd_mtu)
      then later
      else if not (can_id == can_id_rx)
      then later
      else if leb length_ 64
      then some (ok (take length_ (drop 8 cf)), frames)
      else some (err assertion_error, frames)
