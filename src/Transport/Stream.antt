-- ===== src/Transport/Stream.antt =====
-- `TcpTransport`, `SerialTransport` and `StdioTransport`: messages on a stream of bytes. `C` is the
-- state of the connection.
use compost_rpc.Common.{
  ℕ, zero, suc, ◌+◌, ◌-◌, true, false, List, [], ◌++◌, ltb, ◌==◌, if◌then◌else◌, length, drop,
}
use compost_rpc.Common.Result.{Result, ok, err, runtime_error, ◌>>=◌}
use compost_rpc.Wire.Header

-- `send`: the socket or the port takes some of the bytes and says how many, or raises. A round that does
-- not raise sends one byte at least, so `len(msg)` rounds are enough.
module _ {C : Type 0} (write : List ℕ → C → Result ℕ × C) where
  unfoldable pub send_loop : ℕ → List ℕ → ℕ → C → Result ℕ × C
  send_loop zero msg sent c = (ok sent, c)
  send_loop (suc fuel) msg sent c = elim (ltb sent (length msg)) [
    | false ↦ (ok sent, c)
    | true ↦
        let (written, c') = write (drop sent msg) c in
        elim written [ err e ↦ (err e, c') | ok n ↦ send_loop fuel msg (sent + n) c' ]
  ]

  unfoldable pub send : List ℕ → C → Result ℕ × C
  unfolding send_loop
  send msg c = send_loop (length msg) msg 0 c

-- `recv(n)` or `read(n)`: at most `n` bytes.
module _ {C : Type 0} (recv : ℕ → C → List ℕ × C) where
  -- The two `while` loops of `TcpTransport.receive`, which differ in the number of bytes wanted. After a
  -- piece that is not empty `received` is greater, so `wanted` rounds are enough.
  unfoldable pub receive_loop : ℕ → ℕ → ℕ → List ℕ → C → Result (List ℕ × C)
  receive_loop zero wanted received got c = ok (got, c)
  receive_loop (suc fuel) wanted received got c = elim (ltb received wanted) [
    | false ↦ ok (got, c)
    | true ↦
        let (piece, c') = recv (wanted - received) c in
        let got' = got ++ piece in
        elim (length got' == 0) [
          | true ↦ err runtime_error
          | false ↦ receive_loop fuel wanted (received + length got') got' c'
        ]
  ]

  unfoldable pub tcp_receive : C → Result (List ℕ × C)
  unfolding receive_loop Header.payload_byte_len
  tcp_receive c = do
    (header, c') ← receive_loop 4 4 0 [] c
    h ← Header.unpack header
    let payload_len_bytes = Header.payload_byte_len h
    (payload, c'') ← receive_loop payload_len_bytes payload_len_bytes 0 [] c'
    ok (header ++ payload, c'')

  -- `SerialTransport.receive` and `StdioTransport.receive`
  unfoldable pub serial_receive : C → Result (List ℕ × C)
  unfolding Header.payload_byte_len
  serial_receive c =
      let (header, c') = recv 4 c in
      if ltb (length header) 4 then err runtime_error else (do
        h ← Header.unpack header
        let (payload, c'') = recv (Header.payload_byte_len h) c'
        ok (header ++ payload, c''))
