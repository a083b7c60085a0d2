-- ===== src/Transport/Runs.antt =====
-- Messages on concrete connections.
use compost_rpc.Common.{
  ℕ, ◌+◌, ◌<◌, ◌≡◌, refl, subst, List, [], ◌∷◌, ◌++◌, some, min, arith, length, take, drop,
  replicate, leb, if◌then◌else◌, inl, false,
}
use compost_rpc.Common.BigEndian.{be_bytes, be_value}
use compost_rpc.Common.Result.{Result, ok}
use compost_rpc.Wire.Header
use compost_rpc.Wire.Header.{Header}
use compost_rpc.Wire.Msg
use compost_rpc.Wire.Msg.{Msg}
use compost_rpc.Payload.Runs.{some_bytes}
use compost_rpc.Transport.Stream.{send, receive_loop, tcp_receive, serial_receive}
use compost_rpc.Transport.Frames.{can_send, can_receive}
use compost_rpc.Transport.Delivery
use compost_rpc.Transport.SendLaws
use compost_rpc.Transport.SendLaws.{SendsSome}
use compost_rpc.Transport.TcpLaws
use compost_rpc.Transport.SerialLaws
use compost_rpc.Transport.SerialLaws.{ReadsAll}
use compost_rpc.Transport.CanLaws
use compost_rpc.Transport.CanLaws.{HeaderFormat, IsOther}

-- A port that takes at most three bytes at a time.
unfoldable write_three : List ℕ → List ℕ → Result ℕ × List ℕ
write_three b c = (ok (min 3 (length b)), c ++ take (min 3 (length b)) b)

write_three-SendsSome : SendsSome write_three (λ c. c)
unfolding write_three
write_three-SendsSome = record {
  count = λ b c. min 3 (length b);
  returns = λ b c h. refl;
  some = λ b c h. omega arith;
  at_most = λ b c. omega arith;
  taken = λ b c. refl;
}

abbrev eight_bytes : List ℕ
eight_bytes = 1 ∷ 7 ∷ 0 ∷ 5 ∷ 10 ∷ 20 ∷ 30 ∷ 40 ∷ []

send_all_example :
    ((send write_three eight_bytes []).0 ≡ ok 8)
    × ((send write_three eight_bytes []).1 ≡ eight_bytes)
send_all_example = SendLaws.send_all write_three (λ c. c) write_three-SendsSome eight_bytes []

-- A socket on which the bytes arrive in pieces.
unfoldable recv_piece : ℕ → List (List ℕ) → List ℕ × List (List ℕ)
recv_piece n [] = ([], [])
recv_piece n (p ∷ ps) = if leb (length p) n then (p, ps) else (take n p, drop n p ∷ ps)

receive_loop_ends_example :
    receive_loop recv_piece (4 + 7) 4 0 [] ((1 ∷ []) ∷ (2 ∷ 3 ∷ 4 ∷ []) ∷ [])
    ≡ receive_loop recv_piece 4 4 0 [] ((1 ∷ []) ∷ (2 ∷ 3 ∷ 4 ∷ []) ∷ [])
receive_loop_ends_example =
    TcpLaws.receive_loop_ends recv_piece 4 7 4 0 [] ((1 ∷ []) ∷ (2 ∷ 3 ∷ 4 ∷ []) ∷ []) (omega arith)

abbrev two_words : Header
two_words = record { len = 2; txn = 7; resp = false; rpc_id = 5 }

abbrev in_pieces : List (List ℕ)
in_pieces = (2 ∷ 7 ∷ 0 ∷ 5 ∷ []) ∷ (1 ∷ 2 ∷ 3 ∷ []) ∷ (4 ∷ 5 ∷ []) ∷ (6 ∷ 7 ∷ 8 ∷ []) ∷ []

tcp_receive_truncated_example :
    (tcp_receive recv_piece in_pieces
      ≡ ok (2 ∷ 7 ∷ 0 ∷ 5 ∷ 1 ∷ 2 ∷ 3 ∷ 4 ∷ 5 ∷ [], (6 ∷ 7 ∷ 8 ∷ []) ∷ []))
    × (9 < Header.msg_byte_len two_words)
unfolding recv_piece Header.unpack be_value
tcp_receive_truncated_example =
    TcpLaws.tcp_receive_truncated recv_piece in_pieces
      ((1 ∷ 2 ∷ 3 ∷ []) ∷ (4 ∷ 5 ∷ []) ∷ (6 ∷ 7 ∷ 8 ∷ []) ∷ [])
      ((4 ∷ 5 ∷ []) ∷ (6 ∷ 7 ∷ 8 ∷ []) ∷ []) ((6 ∷ 7 ∷ 8 ∷ []) ∷ []) (2 ∷ 7 ∷ 0 ∷ 5 ∷ [])
      (1 ∷ 2 ∷ 3 ∷ []) (4 ∷ 5 ∷ []) two_words refl refl refl refl (omega arith) (omega arith)
      (omega arith)

unfoldable read_line : ℕ → List ℕ → List ℕ × List ℕ
read_line n c = (take n c, drop n c)

read_line-ReadsAll : ReadsAll read_line (λ c. c)
unfolding read_line
read_line-ReadsAll = record { piece = λ n c h. refl; rest = λ n c h. refl }

three_bytes-pack :
    Msg.pack (Msg.from_data 7 false 5 (1 ∷ 2 ∷ 3 ∷ []))
    ≡ ok (
      record {
        header = record { len = 1; txn = 7; resp = false; rpc_id = 5 };
        payload = 1 ∷ 2 ∷ 3 ∷ 0 ∷ [];
      },
      1 ∷ 7 ∷ 0 ∷ 5 ∷ 1 ∷ 2 ∷ 3 ∷ 0 ∷ [],
    )
unfolding Msg.pack Msg.from_data Header.pack be_bytes
three_bytes-pack = refl

serial_receive-pack_example :
    (c' : List ℕ) × (serial_receive read_line (1 ∷ 7 ∷ 0 ∷ 5 ∷ 1 ∷ 2 ∷ 3 ∷ 0 ∷ 9 ∷ [])
      ≡ ok (1 ∷ 7 ∷ 0 ∷ 5 ∷ 1 ∷ 2 ∷ 3 ∷ 0 ∷ [], c'))
    × (c' ≡ 9 ∷ [])
serial_receive-pack_example =
    SerialLaws.serial_receive-pack read_line (λ c. c) read_line-ReadsAll 7 false 5 (1 ∷ 2 ∷ 3 ∷ [])
      (record {
        header = record { len = 1; txn = 7; resp = false; rpc_id = 5 };
        payload = 1 ∷ 2 ∷ 3 ∷ 0 ∷ [];
      })
      (1 ∷ 7 ∷ 0 ∷ 5 ∷ 1 ∷ 2 ∷ 3 ∷ 0 ∷ []) (9 ∷ []) (1 ∷ 7 ∷ 0 ∷ 5 ∷ 1 ∷ 2 ∷ 3 ∷ 0 ∷ 9 ∷ [])
      (omega arith) (omega arith) (omega arith) three_bytes-pack refl

abbrev six_ones : List ℕ
six_ones = 1 ∷ 1 ∷ 1 ∷ 1 ∷ 1 ∷ 1 ∷ []

-- A frame header of an id and a length.
unfoldable pack_header : ℕ → ℕ → Result (List ℕ)
pack_header id n = ok (id ∷ n ∷ 0 ∷ 0 ∷ 0 ∷ 0 ∷ 0 ∷ 0 ∷ [])

unfoldable unpack_header : List ℕ → ℕ × ℕ
unpack_header (id ∷ n ∷ _) = (id, n)
unpack_header _ = (0, 0)

pack_header-HeaderFormat : HeaderFormat pack_header unpack_header
unfolding pack_header unpack_header
pack_header-HeaderFormat = record {
  size = λ id n h e.
      let same : id ∷ n ∷ 0 ∷ 0 ∷ 0 ∷ 0 ∷ 0 ∷ 0 ∷ [] ≡ h = cc e in
      subst (λ h. length h ≡ 8) same refl;
  back = λ id n h e.
      let same : id ∷ n ∷ 0 ∷ 0 ∷ 0 ∷ 0 ∷ 0 ∷ 0 ∷ [] ≡ h = cc e in
      subst (λ h. unpack_header h ≡ (id, n)) same refl;
}

abbrev can_frame : List ℕ
can_frame = 9 ∷ 8 ∷ 0 ∷ 0 ∷ 0 ∷ 0 ∷ 0 ∷ 0 ∷ (eight_bytes ++ replicate 56 0)

can_receive-can_send_example :
    can_receive pack_header unpack_header 9 ((1 ∷ []) ∷ can_frame ∷ []) ≡ some (ok eight_bytes, [])
unfolding can_send pack_header IsOther
can_receive-can_send_example =
    CanLaws.can_receive-can_send pack_header unpack_header pack_header-HeaderFormat 9 1
      (7 ∷ 0 ∷ 5 ∷ 10 ∷ 20 ∷ 30 ∷ 40 ∷ []) can_frame ((1 ∷ []) ∷ []) [] refl refl
      (inl (λ e. omega (arith, e)), tt)

abbrev some_msg : Msg
some_msg = record {
  header = record { len = 4; txn = 7; resp = false; rpc_id = 5 };
  payload = some_bytes ++ (0 ∷ []);
}
