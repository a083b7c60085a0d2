-- ===== src/Runtime/Process.antt =====
-- `compost_msg_process`, and the dispatch of `compost_invoke_switch` as the generator writes it for
-- a protocol. Assertions are those of a build without COMPOST_DEBUG: they do nothing. The sizes of the buffers are the lengths of the lists.
use compost_rpc.Common.{
  ℕ, zero, ◌+◌, ◌-◌, ◌*◌, ◌/◌, ◌%◌, Bool, true, false, not, ◌&&◌, ◌||◌, Option, none, some, List,
  [], ◌∷◌, ◌++◌, ltb, ◌==◌, if◌then◌else◌, length, take, drop,
}
use compost_rpc.Common.Int.{ℤ, pos}
use compost_rpc.Runtime.Header.{
  CompostHeader, compost_einval, compost_etxn, compost_header_load, store_buffer,
}

pub record CompostMsg : Type 0 where
  pub header : CompostHeader
  pub payload_buf_size : ℕ
  pub payload_buf : List ℕ

-- The parameter is a `uint16_t` and the result a `uint8_t`.
unfoldable pub compost_bytes_to_words : ℕ → ℕ
compost_bytes_to_words bytes = (bytes % 65536 + 3) / 4 % 256

-- One RPC of the protocol: its id, whether the handler returns a value, and the bytes that storing
-- that value writes, by the size of the transmit buffer, which the handler may allocate in, and the
-- request's payload. `reply` is the loading of the parameters, the call of the user's handler and the
-- storing of what it returns. Storing does not look at the size: where more is stored than the buffer
-- holds, the C code writes behind the buffer, and here the list gets longer.
pub record Case : Type 0 where
  pub rpc_id : ℕ
  pub returns : Bool
  pub reply : ℕ → List ℕ → List ℕ

unfoldable pub unknown_msg : ℕ
unknown_msg = 0xFEE

unfoldable pub compost_unknown_msg : CompostMsg → CompostMsg
unfolding unknown_msg
compost_unknown_msg tx = record tx { header = record tx.header { rpc_id = unknown_msg; wlen = 0 } }

-- The generated `invoke_…` of one RPC.
unfoldable pub invoke : Case → CompostMsg → CompostMsg → CompostMsg
unfolding compost_bytes_to_words
invoke c tx rx =
    if c.returns
    then (let stored = c.reply tx.payload_buf_size rx.payload_buf in
        record {
          header = record tx.header {
            wlen = compost_bytes_to_words (length stored);
            rpc_id = c.rpc_id;
          };
          payload_buf_size = tx.payload_buf_size;
          payload_buf = stored ++ drop (length stored) tx.payload_buf;
        })
    else record tx { header = record tx.header { wlen = 0; rpc_id = c.rpc_id } }

unfoldable pub compost_invoke_switch : List Case → CompostMsg → CompostMsg → CompostMsg
unfolding compost_unknown_msg invoke
compost_invoke_switch [] tx rx = compost_unknown_msg tx
compost_invoke_switch (c ∷ cs) tx rx =
    if c.rpc_id == rx.header.rpc_id then invoke c tx rx else compost_invoke_switch cs tx rx

-- The last step: the result, and the bytes of the transmit buffer.
unfoldable pub finish : List ℕ → CompostMsg → ℤ × List ℕ
finish tx_buf tx =
    if not (tx.header.txn == 0) || not (tx.header.wlen == 0)
    then (pos (4 + tx.header.wlen * 4), store_buffer (take 4 tx_buf ++ tx.payload_buf) tx.header)
    else (pos 0, take 4 tx_buf ++ tx.payload_buf)

unfoldable pub dispatch : List Case → List ℕ → List ℕ → CompostHeader → ℤ × List ℕ
unfolding compost_invoke_switch finish
dispatch cases tx_buf rx_buf rx_header =
    if not (rx_header.txn == 0) && rx_header.resp
    then (compost_etxn, tx_buf)
    else finish tx_buf (
        compost_invoke_switch cases
          (record {
            header = record { txn = rx_header.txn; resp = true; wlen = 0; rpc_id = 0 };
            payload_buf_size = length tx_buf - 4;
            payload_buf = drop 4 tx_buf;
          })
          (record {
            header = rx_header;
            payload_buf_size = length rx_buf - 4;
            payload_buf = drop 4 rx_buf;
          }))

-- `if (ret) return ret;`
unfoldable pub with_header : List Case → List ℕ → List ℕ → ℤ × Option CompostHeader → ℤ × List ℕ
unfolding dispatch
with_header cases tx_buf rx_buf (pos zero, some rx_header) = dispatch cases tx_buf rx_buf rx_header
with_header cases tx_buf rx_buf (ret, header) = (ret, tx_buf)

-- `struct CompostHeader rx_header;`: its fields are not set, and not read before they are loaded.
abbrev pub unset : CompostHeader
unset = record { wlen = 0; txn = 0; rpc_id = 0; resp = false }

-- A buffer is `none` for NULL.
unfoldable pub compost_msg_process : List Case → Option (List ℕ) → Option (List ℕ) → ℤ × List ℕ
unfolding with_header compost_header_load
compost_msg_process cases none rx = (compost_einval, [])
compost_msg_process cases (some tx_buf) none = (compost_einval, tx_buf)
compost_msg_process cases (some tx_buf) (some rx_buf) =
    if ltb (length rx_buf) 4 || ltb (length tx_buf) 4
    then (compost_einval, tx_buf)
    else with_header cases tx_buf rx_buf (compost_header_load (some rx_buf) (some unset))
