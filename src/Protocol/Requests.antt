-- ===== src/Protocol/Requests.antt =====
-- What a client writes is what the server parses.
use khipu_v_fhe.Prelude.{
  ℕ, ◌%◌, ◌^◌, ◌<◌, ◌≡◌, refl, sym, ap, subst, ◌∙◌, arith, List, [], ◌∷◌, ◌++◌, append_assoc,
  append-nil, Bytes, ok, length,
}
use khipu_v_fhe.Wire.{be64, be32, BufReader, write_u32_be, write_blob, remaining}
use khipu_v_fhe.Wire.Reading.{Ahead, start-Ahead, length-buf}
use khipu_v_fhe.Wire.Blobs.{blob, read_blob-Ahead, read_u32_be-Ahead}
use khipu_v_fhe.Protocol.{
  Request, GpuRequest, write_blobs, write_counted, build_request, build_gpu_request, read_blobs,
  read_counted, parse_request, parse_gpu_request,
}

abbrev pub blobs : List Bytes → Bytes
blobs [] = []
blobs (b ∷ bs) = blob b ++ blobs bs

-- A counted list of blobs on the wire.
abbrev pub counted : List Bytes → Bytes
counted bs = be32 (length bs % 2 ^ 32) ++ blobs bs

pub write_blob_lem : (w v : Bytes) → write_blob w v ≡ w ++ blob v
unfolding write_blob
write_blob_lem w v = append_assoc w (be64 (length v)) v

write_blobs_lem : (w : Bytes) (bs : List Bytes) → write_blobs w bs ≡ w ++ blobs bs
unfolding write_blobs
write_blobs_lem w [] = sym (append-nil w)
write_blobs_lem w (b ∷ bs) =
    write_blobs_lem (write_blob w b) bs ∙ rw write_blob_lem (append_assoc w (blob b) (blobs bs))

pub write_counted_lem : (w : Bytes) (bs : List Bytes) → write_counted w bs ≡ w ++ counted bs
unfolding write_counted write_u32_be
write_counted_lem w bs =
    write_blobs_lem (w ++ be32 (length bs % 2 ^ 32)) bs
    ∙ append_assoc w (be32 (length bs % 2 ^ 32)) (blobs bs)

-- The bytes of a request, bracketed to the right.
abbrev pub request_wire : Request → Bytes
request_wire q =
    blob q.nonce ++ (counted q.eval_keys ++ (counted q.input_cts ++ (blob q.workload_id ++ [])))

pub build_request-request_wire : (q : Request) → build_request q ≡ request_wire q
unfolding build_request
build_request-request_wire q = simp (write_blob_lem, write_counted_lem, append_assoc, append-nil)

abbrev pub gpu_request_wire : GpuRequest → Bytes
gpu_request_wire q =
    blob q.nonce
    ++ (blob q.public_key
        ++ (counted q.eval_keys ++ (counted q.input_cts ++ (blob q.workload_id ++ []))))

pub build_gpu_request-gpu_request_wire : (q : GpuRequest) → build_gpu_request q ≡ gpu_request_wire q
unfolding build_gpu_request
build_gpu_request-gpu_request_wire q =
    simp (write_blob_lem, write_counted_lem, append_assoc, append-nil)

-- A reader that stands at the end of its buffer.
pub remaining-nil : {r : BufReader} → Ahead r [] → remaining r ≡ 0
unfolding remaining
remaining-nil a = omega (arith, length-buf a, a.fits)

module _ (what : List ℕ) where
  read_blobs-Ahead :
      (bs : List Bytes) (rest : Bytes) {r : BufReader}
      → Ahead r (blobs bs ++ rest)
      → (r' : BufReader) × (read_blobs what (length bs) r ≡ ok (bs, r')) × Ahead r' rest
  unfolding read_blobs
  read_blobs-Ahead [] rest {r} a = (r, refl, a)
  read_blobs-Ahead (b ∷ bs) rest {r} a =
      let (e, a') =
        read_blob-Ahead what b (blobs bs ++ rest)
          (subst (Ahead r) (append_assoc (blob b) (blobs bs) rest) a) in
      let (r', e', a'') = read_blobs-Ahead bs rest a' in (r', rw (e, e') refl, a'')

  pub read_counted-Ahead :
      (bs : List Bytes) (rest : Bytes) {r : BufReader}
      → length bs < 2 ^ 32
      → Ahead r (counted bs ++ rest)
      → (r' : BufReader) × (read_counted what r ≡ ok (bs, r')) × Ahead r' rest
  unfolding read_counted
  read_counted-Ahead bs rest {r} h a =
      let n : length bs % 2 ^ 32 ≡ length bs = omega arith in
      let (e, a') =
        read_u32_be-Ahead what (length bs % 2 ^ 32) (blobs bs ++ rest) (omega arith)
          (subst (Ahead r) (append_assoc (be32 (length bs % 2 ^ 32)) (blobs bs) rest) a) in
      let (r', e', a'') = read_blobs-Ahead bs rest a' in (r', rw (e, n, e') refl, a'')

  -- The server parses from a client's request exactly what the client put in, if the message fits
  -- a vector and the counts fit 32 bits.
  pub parse_request-build_request :
      (trailing : List ℕ) (q : Request)
      → length (build_request q) < 2 ^ 63
      → length q.eval_keys < 2 ^ 32
      → length q.input_cts < 2 ^ 32
      → parse_request what trailing (build_request q) ≡ ok q
  unfolding parse_request
  parse_request-build_request trailing q h hk hc =
      let a0 =
        start-Ahead (request_wire q) (omega (arith, h, ap length (build_request-request_wire q))) in
      let (e1, a1) = read_blob-Ahead what q.nonce _ a0 in
      let (r2, e2, a2) = read_counted-Ahead q.eval_keys _ hk a1 in
      let (r3, e3, a3) = read_counted-Ahead q.input_cts _ hc a2 in
      let (e4, a4) = read_blob-Ahead what q.workload_id [] a3 in
      rw (build_request-request_wire q, e1, e2, e3, e4, remaining-nil a4) refl

  -- The server of Prototype C parses from a client's request exactly what the client put in, the
  -- public key included, if the message fits a vector and the counts fit 32 bits.
  pub parse_gpu_request-build_gpu_request :
      (trailing : List ℕ) (q : GpuRequest)
      → length (build_gpu_request q) < 2 ^ 63
      → length q.eval_keys < 2 ^ 32
      → length q.input_cts < 2 ^ 32
      → parse_gpu_request what trailing (build_gpu_request q) ≡ ok q
  unfolding parse_gpu_request
  parse_gpu_request-build_gpu_request trailing q h hk hc =
      let a0 =
        start-Ahead (gpu_request_wire q)
          (omega (arith, h, ap length (build_gpu_request-gpu_request_wire q))) in
      let (e0, b) = read_blob-Ahead what q.nonce _ a0 in
      let (e1, a1) = read_blob-Ahead what q.public_key _ b in
      let (r2, e2, a2) = read_counted-Ahead q.eval_keys _ hk a1 in
      let (r3, e3, a3) = read_counted-Ahead q.input_cts _ hc a2 in
      let (e4, a4) = read_blob-Ahead what q.workload_id [] a3 in
      rw (build_gpu_request-gpu_request_wire q, e0, e1, e2, e3, e4, remaining-nil a4) refl
