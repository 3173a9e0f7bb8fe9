-- ===== src/Examples/Streams.antt =====
-- Connections and descriptors.
use khipu_v_fhe.Prelude.{
  ℕ, ◌+◌, ◌≡◌, refl, List, [], ◌∷◌, ◌++◌, Bytes, true, false, text, length, ltb→lt, leb→le, none,
  some,
}
use khipu_v_fhe.Wire.{be64, be_loop}
use khipu_v_fhe.Transport.{
  Call, moved, failed, done, raised, Conn, write_all, send_loop, send_message, recv_message,
}
use khipu_v_fhe.Transport.Sending.{
  message, Left, Delivered, send_message_calm, send_message-Delivered,
}
use khipu_v_fhe.Transport.Receiving.{recv_message-send_message}
use khipu_v_fhe.Transport.Truncation.{eof_message, recv_message_truncated}
use khipu_v_fhe.Transport.Descriptors.{Socket, Address}
use khipu_v_fhe.Examples.{calm_calls}

abbrev payload : Bytes
payload = 65 ∷ 66 ∷ 67 ∷ 68 ∷ []

abbrev sender : Conn
sender = record { calls = calm_calls; sent = []; incoming = [] }

send_message_calm_example :
    (calls' : List Call) × (send_message payload sender
      ≡ (done tt, record sender { calls = calls'; sent = [] ++ message payload }))
    × Left calm_calls (8 + length payload) calls'
send_message_calm_example = send_message_calm payload sender tt (leb→le _ _ refl)

-- The peer goes away after four bytes.
abbrev broken : Conn
broken = record { calls = moved 3 ∷ failed (text "EPIPE") ∷ []; sent = []; incoming = [] }

send_message-Delivered_example :
    Delivered []
      (message payload)
      (send_message payload broken).0
      (send_message payload broken).1.sent
send_message-Delivered_example = send_message-Delivered payload broken

abbrev on_wire : Bytes
on_wire = 0 ∷ 0 ∷ 0 ∷ 0 ∷ 0 ∷ 0 ∷ 0 ∷ 4 ∷ payload

abbrev receiver : Conn
receiver = record { calls = calm_calls; sent = []; incoming = on_wire ++ (9 ∷ []) }

on_wire-message : on_wire ++ (9 ∷ []) ≡ message payload ++ (9 ∷ [])
unfolding be64 be_loop
on_wire-message = refl

sender_sent : on_wire ++ (9 ∷ []) ≡ (send_message payload sender).1.sent ++ (9 ∷ [])
unfolding be64 be_loop send_message write_all send_loop
sender_sent = refl

recv_message-send_message_example :
    ((send_message payload sender).0 ≡ done tt)
    × ((recv_message receiver).0 ≡ done payload)
    × ((recv_message receiver).1.incoming ≡ 9 ∷ [])
recv_message-send_message_example =
    recv_message-send_message payload (9 ∷ []) sender receiver (ltb→lt _ _ refl) tt
      (leb→le _ _ refl) tt (leb→le _ _ refl) refl sender_sent

-- The last byte of the payload never comes.
abbrev cut : Conn
cut = record {
  calls = calm_calls;
  sent = [];
  incoming = 0 ∷ 0 ∷ 0 ∷ 0 ∷ 0 ∷ 0 ∷ 0 ∷ 4 ∷ 65 ∷ 66 ∷ 67 ∷ [];
}

cut-message : cut.incoming ++ (68 ∷ []) ≡ message payload
unfolding be64 be_loop
cut-message = refl

recv_message_truncated_example : (recv_message cut).0 ≡ raised eof_message
recv_message_truncated_example =
    recv_message_truncated payload (68 ∷ []) cut (ltb→lt _ _ refl) tt (ltb→lt _ _ refl)
      (ltb→lt _ _ refl) cut-message

abbrev socket_of : ℕ → Socket
socket_of n = record { fd = some n }

abbrev addresses : List Address
addresses =
    record { opened = some 5; accepted = false }
    ∷ record { opened = none; accepted = true }
    ∷ record { opened = some 6; accepted = true }
    ∷ []
