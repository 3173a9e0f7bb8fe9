-- ===== src/Transport/Truncation.antt =====
-- A peer that closes inside a message makes `recv_message` throw.
use khipu_v_fhe.Prelude.{
  ℕ, zero, suc, ◌+◌, ◌-◌, ◌^◌, ◌≤◌, ◌<◌, ◌≡◌, refl, ap, subst, ◌∙◌, arith, min, List, [], ◌∷◌, ◌++◌,
  Bytes, text, length, take, drop, length-append, length-drop, length-take, true, inl, inr, ltb,
  Bool-cases,
}
use khipu_v_fhe.Wire.{be64}
use khipu_v_fhe.Wire.Order.{length-be64}
use khipu_v_fhe.Transport.{
  Call, moved, eintr, closed, failed, Io, Op, done, raised, waiting, Conn, >>=-done, and_then,
  recv_loop, read_all, recv_body, recv_message,
}
use khipu_v_fhe.Transport.Sending.{IsCalm, moves, message}
use khipu_v_fhe.Transport.Receiving.{read_all_calm, recv_body_lem}

abbrev pub eof_message : List ℕ
eof_message = text "recv failed: unexpected EOF from peer (truncated message)"

recv_loop_short :
    (calls : List Call) (n : ℕ) (got inc : Bytes)
    → IsCalm calls
    → length inc < n
    → length inc < moves calls
    → (recv_loop true n got calls inc).0 ≡ raised eof_message
unfolding recv_loop
recv_loop_short calls zero got inc c h m = elim h [ ]
recv_loop_short [] (suc n) got inc c h m = elim m [ ]
recv_loop_short (moved k ∷ calls) (suc n) got [] c h m = ground arith
recv_loop_short (moved k ∷ calls) (suc n) got (b ∷ bs) c h m =
    recv_loop_short calls (n - length (take (min k n) bs)) (got ++ (b ∷ take (min k n) bs))
      (drop (min k n) bs) c (omega (arith, length-take (min k n) bs, length-drop (min k n) bs))
      (omega (arith, length-drop (min k n) bs))
recv_loop_short (eintr ∷ calls) (suc n) got inc c h m = recv_loop_short calls (suc n) got inc c h m
recv_loop_short (closed ∷ calls) (suc n) got inc c h m = elim c [ ]
recv_loop_short (failed e ∷ calls) (suc n) got inc c h m = elim c [ ]

read_all_short :
    (n : ℕ) (c : Conn)
    → IsCalm c.calls
    → length c.incoming < n
    → length c.incoming < moves c.calls
    → (read_all n true c).0 ≡ raised eof_message
unfolding read_all
read_all_short n c calm h m = recv_loop_short c.calls n [] c.incoming calm h m

and_then_raised :
    {A B : Type 0} (r : Io A × Conn) (f : A → Op B) (e : List ℕ)
    → r.0 ≡ raised e
    → (and_then r f).0 ≡ raised e
and_then_raised (done a, c) f e h = cc
and_then_raised (raised x, c) f e h = cc
and_then_raised (waiting, c) f e h = cc

-- A list and a longer list that begins alike.
front_of :
    (xs ys zs ms : Bytes)
    → ys ++ ms ≡ xs ++ zs
    → length xs ≤ length ys
    → (more : Bytes) × (ys ≡ xs ++ more) × (more ++ ms ≡ zs)
front_of [] ys zs ms e h = (ys, refl, e)
front_of (x ∷ xs) [] zs ms e h = absurd (omega arith)
front_of (x ∷ xs) (y ∷ ys) zs ms e h =
    let (more, p, q) = front_of xs ys zs ms (cc e) (omega arith) in
    let same : y ≡ x = cc e in (more, rw (p, same) refl, q)

-- If the stream ends inside a message, the receiver throws, however much of it came, provided that
-- no call fails and that they do not end before the stream does.
pub recv_message_truncated :
    (payload missing : Bytes) (c : Conn)
    → length payload < 2 ^ 64
    → IsCalm c.calls
    → length c.incoming < moves c.calls
    → 0 < length missing
    → c.incoming ++ missing ≡ message payload
    → (recv_message c).0 ≡ raised eof_message
unfolding recv_message
recv_message_truncated payload missing c small calm h some_missing split =
    let prefix = be64 (length payload) in
    let size = length-be64 (length payload) in
    let total : length c.incoming + length missing ≡ 8 + length payload = omega (
      arith,
      length-append c.incoming missing,
      ap length split,
      length-append prefix payload,
      size,
    ) in
    elim (Bool-cases (ltb (length c.incoming) 8)) [
      | inl early ↦
          and_then_raised (read_all 8 true c) recv_body eof_message
            (read_all_short 8 c calm (ground arith) h)
      | inr late ↦
          let (more, p, q) =
            front_of prefix c.incoming payload missing split (ground (arith, size)) in
          let lengths : length c.incoming ≡ 8 + length more =
            omega (arith, ap length p, length-append prefix more, size) in
          let (calls1, e1, left1) =
            read_all_calm true prefix more c calm (omega (arith, size, lengths)) p in
          let c1 : Conn = record c { calls = calls1; incoming = more } in
          ap (λ r. r.0)
            (>>=-done (read_all 8 true) recv_body c
              (subst (λ n. read_all n true c ≡ (done prefix, c1)) size e1))
          ∙ ap (λ r. r.0) (recv_body_lem payload c1 small)
          ∙ read_all_short (length payload) c1 left1.calm
              (omega (arith, total, lengths, some_missing))
              (omega (arith, left1.enough, lengths, size))
    ]
