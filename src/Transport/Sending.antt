-- ===== src/Transport/Sending.antt =====
-- `write_all` and `send_message` hand the peer the whole message however the calls split it.
use khipu_v_fhe.Prelude.{
  ℕ, suc, ◌+◌, ◌≤◌, ◌≡◌, refl, sym, ap, ◌∙◌, arith, List, [], ◌∷◌, ◌++◌, append_assoc, append-nil,
  Bytes, length, take, drop, length-drop, take-append-drop, is_empty, if◌then◌else◌,
}
use khipu_v_fhe.Wire.{be64}
use khipu_v_fhe.Wire.Order.{length-be64}
use khipu_v_fhe.Transport.{
  Call, moved, eintr, closed, failed, Io, Op, done, raised, waiting, Conn, ◌>>◌, pure, >>=-done,
  send_loop, write_all, send_message,
}

-- No call fails or reports a closed peer.
abbrev pub IsCalm : List Call → Type 0
IsCalm [] = Unit
IsCalm (moved k ∷ calls) = IsCalm calls
IsCalm (eintr ∷ calls) = IsCalm calls
IsCalm (closed ∷ calls) = ⊥
IsCalm (failed e ∷ calls) = ⊥

-- How many of the calls move bytes.
abbrev pub moves : List Call → ℕ
moves [] = 0
moves (moved k ∷ calls) = suc (moves calls)
moves (eintr ∷ calls) = moves calls
moves (closed ∷ calls) = moves calls
moves (failed e ∷ calls) = moves calls

-- The calls that are left when `n` bytes have gone over.
pub record Left (calls : List Call) (n : ℕ) (calls' : List Call) : Type 0 where
  pub calm : IsCalm calls'
  pub enough : moves calls ≤ moves calls' + n

split_chunk : (b k : ℕ) (bs out : Bytes) → (out ++ (b ∷ take k bs)) ++ drop k bs ≡ out ++ (b ∷ bs)
split_chunk b k bs out =
    append_assoc out (b ∷ take k bs) (drop k bs) ∙ rw (take-append-drop k bs) refl

pub send_loop_calm :
    (calls : List Call) (buf out : Bytes)
    → IsCalm calls
    → length buf ≤ moves calls
    → (calls' : List Call) × (send_loop buf calls out ≡ (done tt, calls', out ++ buf))
      × Left calls (length buf) calls'
unfolding send_loop
send_loop_calm calls [] out c h =
    (calls, rw append-nil refl, record { calm = c; enough = omega arith })
send_loop_calm [] (b ∷ bs) out c h = absurd (omega arith)
send_loop_calm (moved k ∷ calls) (b ∷ bs) out c h =
    let size = length-drop k bs in
    let (calls', e, left) =
      send_loop_calm calls (drop k bs) (out ++ (b ∷ take k bs)) c (omega (arith, size)) in
    (
      calls',
      e ∙ rw (split_chunk b k bs out) refl,
      record { calm = left.calm; enough = omega (arith, left.enough, size) },
    )
send_loop_calm (eintr ∷ calls) (b ∷ bs) out c h =
    let (calls', e, left) = send_loop_calm calls (b ∷ bs) out c h in
    (calls', e, record { calm = left.calm; enough = left.enough })
send_loop_calm (closed ∷ calls) (b ∷ bs) out c h = elim c [ ]
send_loop_calm (failed e ∷ calls) (b ∷ bs) out c h = elim c [ ]

-- What a peer has got of `buf` when the loop ends, in whatever way: a front of it, and all of it
-- if the loop is done.
pub record Delivered (out buf : Bytes) (r : Io (Unit {0})) (out' : Bytes) : Type 0 where
  pub missing : Bytes
  pub front : out' ++ missing ≡ out ++ buf
  pub whole : r ≡ done tt → missing ≡ []

pub send_loop-Delivered :
    (calls : List Call) (buf out : Bytes)
    → Delivered out buf (send_loop buf calls out).0 (send_loop buf calls out).2
unfolding send_loop
send_loop-Delivered calls [] out = record { missing = []; front = refl; whole = λ e. refl }
send_loop-Delivered [] (b ∷ bs) out = record { missing = b ∷ bs; front = refl; whole = λ e. cc }
send_loop-Delivered (moved k ∷ calls) (b ∷ bs) out =
    let d = send_loop-Delivered calls (drop k bs) (out ++ (b ∷ take k bs)) in
    record { missing = d.missing; front = d.front ∙ split_chunk b k bs out; whole = d.whole }
send_loop-Delivered (eintr ∷ calls) (b ∷ bs) out = send_loop-Delivered calls (b ∷ bs) out
send_loop-Delivered (closed ∷ calls) (b ∷ bs) out = record {
  missing = b ∷ bs;
  front = refl;
  whole = λ e. cc;
}
send_loop-Delivered (failed e ∷ calls) (b ∷ bs) out = record {
  missing = b ∷ bs;
  front = refl;
  whole = λ e. cc;
}

pub write_all_calm :
    (buf : Bytes) (c : Conn)
    → IsCalm c.calls
    → length buf ≤ moves c.calls
    → (calls' : List Call) × (write_all buf c
        ≡ (done tt, record c { calls = calls'; sent = c.sent ++ buf }))
      × Left c.calls (length buf) calls'
unfolding write_all
write_all_calm buf c calm h =
    let (calls', e, left) = send_loop_calm c.calls buf c.sent calm h in (calls', rw e refl, left)

write_all-Delivered :
    (buf : Bytes) (c : Conn) → Delivered c.sent buf (write_all buf c).0 (write_all buf c).1.sent
unfolding write_all
write_all-Delivered buf c = send_loop-Delivered c.calls buf c.sent

-- The bytes of a message on the stream.
abbrev pub message : Bytes → Bytes
message payload = be64 (length payload) ++ payload

-- If no call fails or finds the peer closed, and as many calls move bytes as the message has bytes, the
-- message is sent, whole and once, however many calls a signal interrupts.
pub send_message_calm :
    (payload : Bytes) (c : Conn)
    → IsCalm c.calls
    → 8 + length payload ≤ moves c.calls
    → (calls' : List Call) × (send_message payload c
        ≡ (done tt, record c { calls = calls'; sent = c.sent ++ message payload }))
      × Left c.calls (8 + length payload) calls'
unfolding send_message
send_message_calm [] c calm h =
    let size = length-be64 0 in
    let (calls', e, left) = write_all_calm (be64 0) c calm (omega (arith, size)) in
    (
      calls',
      >>=-done (write_all (be64 0)) (λ _. pure tt) c e ∙ rw append-nil refl,
      record { calm = left.calm; enough = omega (arith, left.enough, size) },
    )
send_message_calm (b ∷ bs) c calm h =
    let size = length-be64 (length (b ∷ bs)) in
    let (calls1, e1, left1) =
      write_all_calm (be64 (length (b ∷ bs))) c calm (omega (arith, size)) in
    let c1 : Conn = record c { calls = calls1; sent = c.sent ++ be64 (length (b ∷ bs)) } in
    let (calls2, e2, left2) =
      write_all_calm (b ∷ bs) c1 left1.calm (omega (arith, left1.enough, size)) in
    (
      calls2,
      >>=-done (write_all (be64 (length (b ∷ bs)))) (λ _. write_all (b ∷ bs)) c e1
          ∙ e2
          ∙ rw append_assoc refl,
      record { calm = left2.calm; enough = omega (arith, left1.enough, left2.enough, size) },
    )

-- Two writes in a row, as one.
after_first :
    (a b : Bytes) (k : Op (Unit {0})) (out : Bytes) (r : Io (Unit {0})) (c : Conn)
    → Delivered out a r c.sent
    → Delivered c.sent b (k c).0 (k c).1.sent
    → Delivered out (a ++ b) (((λ c'. (r, c')) >> k) c).0 (((λ c'. (r, c')) >> k) c).1.sent
after_first a b k out (done tt) c d e = record {
  missing = e.missing;
  front =
      e.front
      ∙ ap (λ t. t ++ b) (sym (append-nil c.sent) ∙ rw (d.whole refl) at d.front)
      ∙ append_assoc out a b;
  whole = e.whole;
}
after_first a b k out (raised x) c d e = record {
  missing = d.missing ++ b;
  front = sym (append_assoc c.sent d.missing b) ∙ ap (λ t. t ++ b) d.front ∙ append_assoc out a b;
  whole = λ q. cc;
}
after_first a b k out waiting c d e = record {
  missing = d.missing ++ b;
  front = sym (append_assoc c.sent d.missing b) ∙ ap (λ t. t ++ b) d.front ∙ append_assoc out a b;
  whole = λ q. cc;
}

payload-Delivered :
    (payload : Bytes) (c : Conn)
    → let k : Op (Unit {0}) = if is_empty payload then pure tt else write_all payload in
      Delivered c.sent payload (k c).0 (k c).1.sent
payload-Delivered [] c = record { missing = []; front = refl; whole = λ e. refl }
payload-Delivered (b ∷ bs) c = write_all-Delivered (b ∷ bs) c

-- Whatever the calls do, the peer gets a front of the message; if the call returns, all of it.
pub send_message-Delivered :
    (payload : Bytes) (c : Conn)
    → Delivered c.sent (message payload) (send_message payload c).0 (send_message payload c).1.sent
unfolding send_message
send_message-Delivered payload c =
    let prefix = be64 (length payload) in
    let w = write_all prefix c in
    after_first prefix payload (if is_empty payload then pure tt else write_all payload) c.sent w.0
      w.1 (write_all-Delivered prefix c) (payload-Delivered payload w.1)
