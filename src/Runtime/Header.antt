-- ===== src/Runtime/Header.antt =====
-- `compost_header_load` and `compost_header_store`. A buffer is `none` for NULL; one that is not
-- NULL holds four bytes at least. An `int` result is 0 or a negative code.
use compost_rpc.Common.{
  ℕ, ◌-◌, ◌*◌, ◌/◌, ◌%◌, ◌^◌, bit_and, bit_or, Bool, not, ◌&&◌, leb, Option, none, some, List, ◌==◌,
  if◌then◌else◌, get_or, set,
}
use compost_rpc.Common.Int.{ℤ, pos, negsuc}

pub record CompostHeader : Type 0 where
  pub wlen : ℕ
  pub txn : ℕ
  pub rpc_id : ℕ
  pub resp : Bool

abbrev pub compost_einval : ℤ
compost_einval = negsuc 21

abbrev pub compost_eflags : ℤ
compost_eflags = negsuc 90

abbrev pub compost_etxn : ℤ
compost_etxn = negsuc 91

-- The code, and `*header` behind the call.
unfoldable pub load_buffer : List ℕ → CompostHeader → ℤ × CompostHeader
load_buffer buf header =
    let rpc_id_hi = bit_and (get_or buf 2 0) 0x0F in
    let flags = bit_and (get_or buf 2 0) 0xF0 in
    if flags - bit_and flags 0x10 == 0
    then (
      pos 0,
      record {
        wlen = get_or buf 0 0;
        txn = get_or buf 1 0;
        resp = not (bit_and flags 0x10 == 0);
        rpc_id = bit_or (rpc_id_hi * 2 ^ 8) (get_or buf 3 0);
      },
    )
    else (compost_eflags, header)

-- `header` is `none` for NULL, and else what it points to.
unfoldable pub compost_header_load :
    Option (List ℕ) → Option CompostHeader → ℤ × Option CompostHeader
unfolding load_buffer
compost_header_load none header = (compost_einval, header)
compost_header_load (some buf) none = (compost_einval, none)
compost_header_load (some buf) (some header) =
    let (ret, loaded) = load_buffer buf header in (ret, some loaded)

-- `buf[i] = (uint8_t)v`
abbrev pub store_byte : List ℕ → ℕ → ℕ → List ℕ
store_byte buf i v = set buf i (v % 256)

unfoldable pub store_buffer : List ℕ → CompostHeader → List ℕ
store_buffer buf header =
    let with_txn = store_byte (store_byte buf 0 header.wlen) 1 header.txn in
    let with_id = store_byte with_txn 2 (header.rpc_id / 2 ^ 8) in
    let with_flags =
      if header.resp then store_byte with_id 2 (bit_or (get_or with_id 2 0) 0x10) else with_id in
    store_byte with_flags 3 header.rpc_id

-- `debug` says whether the assertion is compiled in. Where it fails the function does not return:
-- `none`.
unfoldable pub compost_header_store :
    Bool → Option (List ℕ) → CompostHeader → Option (ℤ × Option (List ℕ))
unfolding store_buffer
compost_header_store debug none header = some (compost_einval, none)
compost_header_store debug (some buf) header =
    if debug && not (leb header.rpc_id 0x0FFF)
    then none
    else some (pos 0, some (store_buffer buf header))
