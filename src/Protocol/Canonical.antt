-- ===== src/Protocol/Canonical.antt =====
-- What the server accepts as a request, and what it does not survive.
use khipu_v_fhe.Prelude.{
  ℕ, zero, suc, ◌%◌, ◌^◌, ◌<◌, ◌≤◌, ◌≡◌, refl, sym, ap, subst, ◌∙◌, arith, List, [], ◌∷◌, ◌++◌,
  append_assoc, Bytes, IsByte, All, ok, >>=-eq-ok, length, take, drop, take-append-drop,
}
use khipu_v_fhe.Wire.{be32, u32_of, BufReader, read_u32_be, read_blob, remaining}
use khipu_v_fhe.Wire.Reading.{Ahead, Ahead-advance, start-Ahead, length-buf, moved, read_u32_be_lem}
use khipu_v_fhe.Wire.Blobs.{blob, Took, read_blob-ok, All-drop}
use khipu_v_fhe.Protocol.{Request, build_request, read_blobs, read_counted, parse_request}
use khipu_v_fhe.Protocol.Requests.{blobs, counted, build_request-request_wire}

be32-u32_of :
    (b0 b1 b2 b3 : ℕ)
    → All IsByte (b0 ∷ b1 ∷ b2 ∷ b3 ∷ [])
    → (be32 (u32_of (b0 ∷ b1 ∷ b2 ∷ b3 ∷ [])) ≡ b0 ∷ b1 ∷ b2 ∷ b3 ∷ [])
      × (u32_of (b0 ∷ b1 ∷ b2 ∷ b3 ∷ []) < 2 ^ 32)
unfolding be32
be32-u32_of b0 b1 b2 b3 h = (ground arith, omega arith)

be32-take :
    (xs : Bytes)
    → All IsByte xs
    → 4 ≤ length xs
    → (be32 (u32_of (take 4 xs)) ≡ take 4 xs) × (u32_of (take 4 xs) < 2 ^ 32)
be32-take (b0 ∷ b1 ∷ b2 ∷ b3 ∷ xs) b h = be32-u32_of b0 b1 b2 b3 (omega arith)
be32-take _ b h = absurd (omega arith)

module _ (what : List ℕ) where
  read_u32_be-ok :
      (xs : Bytes) (n : ℕ) (r r' : BufReader)
      → Ahead r xs
      → All IsByte xs
      → read_u32_be what r ≡ ok (n, r')
      → (n < 2 ^ 32) × Took (be32 n) xs r'
  read_u32_be-ok xs n r r' a b h =
      let c = sym (read_u32_be_lem what a) ∙ h in
      let enough : 4 ≤ length xs = ground (arith, c) in
      let value : n ≡ u32_of (take 4 xs) = ground (arith, c) in
      let place : r' ≡ moved r 4 = ground (arith, c) in
      let (written, small) = be32-take xs b enough in
      let whole : xs ≡ be32 n ++ drop 4 xs = rw (value, written, take-append-drop 4 xs) refl in
      (
        rw value small,
        record {
          rest = drop 4 xs;
          split = whole;
          ahead =
              rw place
                (unfold be32 in Ahead-advance (be32 n) (drop 4 xs) (subst (Ahead r) whole a));
          bytes = All-drop IsByte 4 xs b;
        },
      )

  read_blobs-ok :
      (n : ℕ) (xs : Bytes) (vs : List Bytes) (r r' : BufReader)
      → Ahead r xs
      → All IsByte xs
      → read_blobs what n r ≡ ok (vs, r')
      → (length vs ≡ n) × Took (blobs vs) xs r'
  unfolding read_blobs
  read_blobs-ok zero xs vs r r' a b h =
      let none_read : [] ≡ vs = cc in
      let same : r ≡ r' = cc in
      (
        rw (← none_read) refl,
        record {
          rest = xs;
          split = rw (← none_read) refl;
          ahead = subst (λ q. Ahead q xs) same a;
          bytes = b;
        },
      )
  read_blobs-ok (suc n) xs vs r r' a b h =
      let ((v, r1), e1, h1) = >>=-eq-ok (read_blob what r) _ h in
      let ((vs', r2), e2, h2) = >>=-eq-ok (read_blobs what n r1) _ h1 in
      let p = read_blob-ok what xs v r r1 a b e1 in
      let (size, q) = read_blobs-ok n p.rest vs' r1 r2 p.ahead p.bytes e2 in
      let all_read : v ∷ vs' ≡ vs = cc h2 in
      let last : r2 ≡ r' = cc h2 in
      (
        rw (← all_read) (ap suc size),
        record {
          rest = q.rest;
          split = rw (← all_read) (
              p.split
              ∙ ap (λ t. blob v ++ t) q.split
              ∙ sym (append_assoc (blob v) (blobs vs') q.rest));
          ahead = subst (λ r. Ahead r q.rest) last q.ahead;
          bytes = q.bytes;
        },
      )

  read_counted-ok :
      (xs : Bytes) (vs : List Bytes) (r r' : BufReader)
      → Ahead r xs
      → All IsByte xs
      → read_counted what r ≡ ok (vs, r')
      → Took (counted vs) xs r'
  unfolding read_counted
  read_counted-ok xs vs r r' a b h =
      let ((n, r1), e1, h1) = >>=-eq-ok (read_u32_be what r) _ h in
      let (small, p) = read_u32_be-ok xs n r r1 a b e1 in
      let (size, q) = read_blobs-ok n p.rest vs r1 r' p.ahead p.bytes h1 in
      let e : length vs % 2 ^ 32 ≡ n = omega (arith, size, small) in
      record {
        rest = q.rest;
        split = rw e (
            p.split
            ∙ ap (λ t. be32 n ++ t) q.split
            ∙ sym (append_assoc (be32 n) (blobs vs) q.rest));
        ahead = q.ahead;
        bytes = q.bytes;
      }

  nothing_left : (xs : Bytes) {r : BufReader} → Ahead r xs → remaining r ≡ 0 → xs ≡ []
  unfolding remaining
  nothing_left [] a h = refl
  nothing_left (x ∷ xs) a h = absurd (omega (arith, length-buf a, a.fits, h))

  -- A buffer that fits a vector and that the server parses as a request holds exactly the bytes that
  -- the client writes for that request.
  pub build_request-parse_request :
      (trailing : List ℕ) (buf : Bytes) (q : Request)
      → length buf < 2 ^ 63
      → All IsByte buf
      → parse_request what trailing buf ≡ ok q
      → build_request q ≡ buf
  unfolding parse_request
  build_request-parse_request trailing buf q fits b h =
      let ((nonce, r1), e1, h1) = >>=-eq-ok (read_blob what (record { buf = buf; pos = 0 })) _ h in
      let p1 = read_blob-ok what buf nonce _ r1 (start-Ahead buf fits) b e1 in
      let ((keys, r2), e2, h2) = >>=-eq-ok (read_counted what r1) _ h1 in
      let p2 = read_counted-ok p1.rest keys r1 r2 p1.ahead p1.bytes e2 in
      let ((cts, r3), e3, h3) = >>=-eq-ok (read_counted what r2) _ h2 in
      let p3 = read_counted-ok p2.rest cts r2 r3 p2.ahead p2.bytes e3 in
      let ((wid, r4), e4, h4) = >>=-eq-ok (read_blob what r3) _ h3 in
      let p4 = read_blob-ok what p3.rest wid r3 r4 p3.ahead p3.bytes e4 in
      let left : p4.rest ≡ [] = nothing_left p4.rest p4.ahead (ground (arith, h4)) in
      let same : record { nonce = nonce; eval_keys = keys; input_cts = cts; workload_id = wid }
          ≡ q =
        ground (arith, h4) in
      let tail : p3.rest ≡ blob wid ++ [] = p4.split ∙ ap (λ t. blob wid ++ t) left in
      rw (← same) (
        build_request-request_wire _
        ∙ sym (
            p1.split
            ∙ ap (λ t. blob nonce ++ t)
                (p2.split
                  ∙ ap (λ t. counted keys ++ t) (p3.split ∙ ap (λ t. counted cts ++ t) tail))))
