-- ===== src/Protocol.antt =====
-- The messages between client and server: what client_main.cpp writes and server_main.cpp parses,
-- and the other way round.
pub mod Requests
pub mod Canonical
pub mod Responses
pub mod GpuResponses
use khipu_v_fhe.Prelude.{
  ℕ, zero, suc, List, [], ◌∷◌, ◌++◌, Bytes, Outcome, ok, throw, fault, ◌>>=◌, ◌>>◌, require, text,
  length, ◌==◌, ◌%◌, ◌^◌,
}
use khipu_v_fhe.Wire.{
  BufReader, write_u32_be, write_blob, read_u32_be, read_blob, read_string, remaining,
}

-- What a request carries. Prototype C sends a public key too.
pub record Request : Type 0 where
  pub nonce : Bytes
  pub eval_keys : List Bytes
  pub input_cts : List Bytes
  pub workload_id : List ℕ

pub record GpuRequest : Type 0 where
  pub request : Request
  pub open request use *
  pub public_key : Bytes

-- `for (const auto& k : blobs) w.write_blob(k);`
unfoldable pub write_blobs : Bytes → List Bytes → Bytes
write_blobs w [] = w
write_blobs w (b ∷ bs) = write_blobs (write_blob w b) bs

-- `w.write_u32_be(static_cast<uint32_t>(blobs.size()))`, then the blobs.
unfoldable pub write_counted : Bytes → List Bytes → Bytes
unfolding write_blobs
write_counted w bs = write_blobs (write_u32_be w (length bs % 2 ^ 32)) bs

unfoldable pub build_request : Request → Bytes
unfolding write_counted
build_request q =
    let w1 = write_blob [] q.nonce in
    let w2 = write_counted w1 q.eval_keys in
    let w3 = write_counted w2 q.input_cts in write_blob w3 q.workload_id

unfoldable pub build_gpu_request : GpuRequest → Bytes
unfolding write_counted
build_gpu_request q =
    let w1 = write_blob [] q.nonce in
    let w2 = write_blob w1 q.public_key in
    let w3 = write_counted w2 q.eval_keys in
    let w4 = write_counted w3 q.input_cts in write_blob w4 q.workload_id

-- `for (uint32_t i = 0; i < n; ++i) blobs.push_back(r.read_blob());`
unfoldable pub read_blobs : List ℕ → ℕ → BufReader → Outcome (List Bytes × BufReader)
read_blobs what zero r = ok ([], r)
read_blobs what (suc n) r = do
  (b, r') ← read_blob what r
  (bs, r'') ← read_blobs what n r'
  ok (b ∷ bs, r'')

unfoldable pub read_counted : List ℕ → BufReader → Outcome (List Bytes × BufReader)
unfolding read_blobs
read_counted what r = do (n, r') ← read_u32_be what r; read_blobs what n r'

-- The parse of a request in `handle_client`. `what` is the message of the reader, `trailing` that
-- of the check that nothing is left.
unfoldable pub parse_request : List ℕ → List ℕ → Bytes → Outcome Request
unfolding read_counted
parse_request what trailing buf = do
  (nonce, r1) ← read_blob what (record { buf = buf; pos = 0 })
  (eval_keys, r2) ← read_counted what r1
  (input_cts, r3) ← read_counted what r2
  (workload_id, r4) ← read_string what r3
  require (remaining r4 == 0) trailing
  ok (record {
    nonce = nonce;
    eval_keys = eval_keys;
    input_cts = input_cts;
    workload_id = workload_id;
  })

-- The same in Prototype C, whose request has the client's public key behind the nonce.
unfoldable pub parse_gpu_request : List ℕ → List ℕ → Bytes → Outcome GpuRequest
unfolding read_counted
parse_gpu_request what trailing buf = do
  (nonce, r0) ← read_blob what (record { buf = buf; pos = 0 })
  (public_key, r1) ← read_blob what r0
  (eval_keys, r2) ← read_counted what r1
  (input_cts, r3) ← read_counted what r2
  (workload_id, r4) ← read_string what r3
  require (remaining r4 == 0) trailing
  ok (record {
    request = record {
      nonce = nonce;
      eval_keys = eval_keys;
      input_cts = input_cts;
      workload_id = workload_id;
    };
    public_key = public_key;
  })

-- The response of Prototypes A and E: the ciphertext, the transcript and the quote.
pub record Response : Type 0 where
  pub output_ct : Bytes
  pub transcript_json : List ℕ
  pub quote : Bytes

unfoldable pub build_response : Response → Bytes
build_response p = write_blob (write_blob (write_blob [] p.output_ct) p.transcript_json) p.quote

-- The client's reading of it.
unfoldable pub parse_response : List ℕ → List ℕ → Bytes → Outcome Response
parse_response what trailing buf = do
  (output_ct, r1) ← read_blob what (record { buf = buf; pos = 0 })
  (transcript_json, r2) ← read_string what r1
  (quote, r3) ← read_blob what r2
  require (remaining r3 == 0) trailing
  ok (record { output_ct = output_ct; transcript_json = transcript_json; quote = quote })

-- `build_error_response`: no ciphertext, the message in JSON, no quote.
unfoldable pub build_error_response : List ℕ → Bytes
unfolding build_response
build_error_response msg = build_response (record {
  output_ct = [];
  transcript_json = text "{\"error\":\"" ++ (msg ++ text "\"}");
  quote = [];
})

-- The response of Prototypes C and D: the evidence of the GPU stands before the quote.
pub record GpuResponse : Type 0 where
  pub output_ct : Bytes
  pub transcript_json : List ℕ
  pub gpu_evidence : Bytes
  pub quote : Bytes

unfoldable pub build_gpu_response : GpuResponse → Bytes
build_gpu_response p =
    let w1 = write_blob [] p.output_ct in
    let w2 = write_blob w1 p.transcript_json in
    let w3 = write_blob w2 p.gpu_evidence in write_blob w3 p.quote

-- That client's reading of a response. It does not ask whether anything is left.
unfoldable pub parse_gpu_response : List ℕ → Bytes → Outcome GpuResponse
parse_gpu_response what buf = do
  (output_ct, r1) ← read_blob what (record { buf = buf; pos = 0 })
  (transcript_json, r2) ← read_string what r1
  (gpu_evidence, r3) ← read_blob what r2
  (quote, r4) ← read_blob what r3
  ok (record {
    output_ct = output_ct;
    transcript_json = transcript_json;
    gpu_evidence = gpu_evidence;
    quote = quote;
  })
