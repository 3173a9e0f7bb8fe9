-- ===== src/Transport/Receiving.antt =====
-- `recv_message` gives the payload that the peer sent, however the stream is cut into chunks.
use khipu_v_fhe.Prelude.{
  ℕ, suc, ◌+◌, ◌-◌, ◌^◌, ◌≤◌, ◌<◌, ◌≡◌, refl, ap, subst, ◌∙◌, arith, min, List, [], ◌∷◌, ◌++◌,
  append_assoc, append-nil, Bytes, length, take, drop, length-drop, length-take, take-append-drop,
  take-append_le, drop-append_le, is_empty, if◌then◌else◌, ◌==◌, Bool, true, false,
}
use khipu_v_fhe.Wire.{be64}
use khipu_v_fhe.Wire.Order.{length-be64, from_be-be64}
use khipu_v_fhe.Transport.{
  Call, moved, eintr, closed, failed, done, Conn, pure, >>=-done, recv_loop, read_all, send_message,
  recv_message, recv_body,
}
use khipu_v_fhe.Transport.Sending.{IsCalm, moves, Left, message, send_message_calm}

module _ (throw_on_eof : Bool) where
  recv_loop_chunk :
      (k x : ℕ) (calls : List Call) (xs got rest : Bytes)
      → let j = min k (length xs) in
        recv_loop throw_on_eof (suc (length xs)) got (moved k ∷ calls) (x ∷ (xs ++ rest))
        ≡ recv_loop throw_on_eof
            (length (drop j xs))
            (got ++ (x ∷ take j xs))
            calls
            (drop j xs ++ rest)
  unfolding recv_loop
  recv_loop_chunk k x calls xs got rest =
      let j = min k (length xs) in
      let within : j ≤ length xs = omega arith in
      let left_over : length xs - length (take j xs) ≡ length (drop j xs) =
        omega (arith, length-take j xs, length-drop j xs) in
      ap
        (λ (m : Bytes).
          recv_loop throw_on_eof (length xs - length m) (got ++ (x ∷ m)) calls
            (drop j (xs ++ rest)))
        (take-append_le j xs rest within)
      ∙ ap
          (λ (d : Bytes).
            recv_loop throw_on_eof (length xs - length (take j xs)) (got ++ (x ∷ take j xs)) calls
              d)
          (drop-append_le j xs rest within)
      ∙ ap (λ (n : ℕ). recv_loop throw_on_eof n (got ++ (x ∷ take j xs)) calls (drop j xs ++ rest))
          left_over

  recv_loop_calm :
      (calls : List Call) (xs got rest : Bytes)
      → IsCalm calls
      → length xs ≤ moves calls
      → (calls' : List Call) × (recv_loop throw_on_eof (length xs) got calls (xs ++ rest)
          ≡ (done (got ++ xs), calls', rest))
        × Left calls (length xs) calls'
  unfolding recv_loop
  recv_loop_calm calls [] got rest c h =
      (calls, rw append-nil refl, record { calm = c; enough = omega arith })
  recv_loop_calm [] (x ∷ xs) got rest c h = absurd (omega arith)
  recv_loop_calm (moved k ∷ calls) (x ∷ xs) got rest c h =
      let j = min k (length xs) in
      let (calls', e, left) =
        recv_loop_calm calls (drop j xs) (got ++ (x ∷ take j xs)) rest c
          (omega (arith, length-drop j xs)) in
      (
        calls',
        recv_loop_chunk k x calls xs got rest
            ∙ e
            ∙ ap (λ t. (done t, calls', rest)) (append_assoc got (x ∷ take j xs) (drop j xs))
            ∙ rw (take-append-drop j xs) refl,
        record { calm = left.calm; enough = omega (arith, left.enough, length-drop j xs) },
      )
  recv_loop_calm (eintr ∷ calls) (x ∷ xs) got rest c h =
      let (calls', e, left) = recv_loop_calm calls (x ∷ xs) got rest c h in
      (calls', e, record { calm = left.calm; enough = left.enough })
  recv_loop_calm (closed ∷ calls) (x ∷ xs) got rest c h = elim c [ ]
  recv_loop_calm (failed e ∷ calls) (x ∷ xs) got rest c h = elim c [ ]

  pub read_all_calm :
      (xs rest : Bytes) (c : Conn)
      → IsCalm c.calls
      → length xs ≤ moves c.calls
      → c.incoming ≡ xs ++ rest
      → (calls' : List Call) × (read_all (length xs) throw_on_eof c
          ≡ (done xs, record c { calls = calls'; incoming = rest }))
        × Left c.calls (length xs) calls'
  unfolding read_all
  read_all_calm xs rest c calm h inc =
      let (calls', e, left) = recv_loop_calm c.calls xs [] rest calm h in
      (calls', rw (inc, e) refl, left)

is_empty-false : (xs : Bytes) → 0 < length xs → is_empty xs ≡ false
is_empty-false [] h = absurd (omega arith)
is_empty-false (x ∷ xs) h = refl

pub recv_body_lem :
    (payload : Bytes) (c : Conn)
    → length payload < 2 ^ 64
    → recv_body (be64 (length payload)) c ≡ read_all (length payload) true c
unfolding recv_body read_all recv_loop
recv_body_lem payload c small =
    let n : ℕ = length payload in
    rw (is_empty-false (be64 n) (omega (arith, length-be64 n)), from_be-be64 n small)
      (no_bytes payload c)
  where
    no_bytes :
        (xs : Bytes) (c : Conn)
        → (if length xs == 0 then pure [] else read_all (length xs) true) c
          ≡ read_all (length xs) true c
    no_bytes [] c = refl
    no_bytes (x ∷ xs) c =
        let some_left : (length (x ∷ xs) == 0) ≡ false = ground arith in
        ap (λ b. (if b then pure [] else read_all (length (x ∷ xs)) true) c) some_left

-- The receiver gets the payload of a message, which is shorter than 2 ^ 64 bytes, and leaves what
-- follows it on the stream, if no call fails and enough of them move bytes: wherever the chunks
-- begin and end.
pub recv_message_calm :
    (payload rest : Bytes) (c : Conn)
    → length payload < 2 ^ 64
    → IsCalm c.calls
    → 8 + length payload ≤ moves c.calls
    → c.incoming ≡ message payload ++ rest
    → (calls' : List Call) × (recv_message c
        ≡ (done payload, record c { calls = calls'; incoming = rest }))
unfolding recv_message
recv_message_calm payload rest c small calm h inc =
    let prefix = be64 (length payload) in
    let size = length-be64 (length payload) in
    let (calls1, e1, left1) =
      read_all_calm true prefix (payload ++ rest) c calm (omega (arith, size))
        (inc ∙ append_assoc prefix payload rest) in
    let c1 : Conn = record c { calls = calls1; incoming = payload ++ rest } in
    let (calls2, e2, left2) =
      read_all_calm true payload rest c1 left1.calm (omega (arith, left1.enough, size)) refl in
    (
      calls2,
      >>=-done (read_all 8 true) recv_body c
            (subst (λ n. read_all n true c ≡ (done prefix, c1)) size e1)
          ∙ recv_body_lem payload c1 small
          ∙ e2,
    )

-- What one end sends as the first message of a connection, shorter than 2 ^ 64 bytes, the other end
-- receives, and what comes later stays on the stream, if no call of either end fails or finds the peer
-- closed, and at each end as many calls move bytes as the message has bytes.
pub recv_message-send_message :
    (payload later : Bytes) (c d : Conn)
    → length payload < 2 ^ 64
    → IsCalm c.calls
    → 8 + length payload ≤ moves c.calls
    → IsCalm d.calls
    → 8 + length payload ≤ moves d.calls
    → c.sent ≡ []
    → d.incoming ≡ (send_message payload c).1.sent ++ later
    → ((send_message payload c).0 ≡ done tt)
      × ((recv_message d).0 ≡ done payload)
      × ((recv_message d).1.incoming ≡ later)
recv_message-send_message payload later c d small calm_c enough_c calm_d enough_d fresh link =
    let (calls, e, left) = send_message_calm payload c calm_c enough_c in
    let stream : (send_message payload c).1.sent ≡ message payload =
      ap (λ r. r.1.sent) e ∙ rw fresh refl in
    let (calls', e') =
      recv_message_calm payload later d small calm_d enough_d
        (link ∙ ap (λ t. t ++ later) stream) in
    (ap (λ r. r.0) e, ap (λ r. r.0) e', ap (λ r. r.1.incoming) e')
