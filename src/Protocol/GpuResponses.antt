-- ===== src/Protocol/GpuResponses.antt =====
-- The responses of Prototypes C and D, where an error has a part less than the client reads.
use khipu_v_fhe.Prelude.{
  ℕ, ◌^◌, ◌<◌, ◌≡◌, refl, ap, arith, List, [], ◌++◌, append_assoc, append-nil, Bytes, ok, fault,
  false, is_empty, length, text,
}
use khipu_v_fhe.Wire.{BufReader, read_blob, be_loop, be64}
use khipu_v_fhe.Wire.Reading.{Ahead, start-Ahead, read_blob_cases}
use khipu_v_fhe.Wire.Blobs.{blob, read_blob-Ahead}
use khipu_v_fhe.Protocol.{
  Response, build_error_response, GpuResponse, build_gpu_response, parse_gpu_response,
}
use khipu_v_fhe.Protocol.Requests.{write_blob_lem}
use khipu_v_fhe.Protocol.Responses.{response_wire, build_response-response_wire}

abbrev gpu_response_wire : GpuResponse → Bytes
gpu_response_wire p =
    blob p.output_ct ++ (blob p.transcript_json ++ (blob p.gpu_evidence ++ (blob p.quote ++ [])))

build_gpu_response-gpu_response_wire :
    (p : GpuResponse) → build_gpu_response p ≡ gpu_response_wire p
unfolding build_gpu_response
build_gpu_response-gpu_response_wire p = simp (write_blob_lem, append_assoc, append-nil)

-- The client of Prototype C or D reads from a response exactly what the server put in, if the message
-- fits a vector.
pub parse_gpu_response-build_gpu_response :
    (what : List ℕ) (p : GpuResponse)
    → length (build_gpu_response p) < 2 ^ 63
    → parse_gpu_response what (build_gpu_response p) ≡ ok p
unfolding parse_gpu_response
parse_gpu_response-build_gpu_response what p h =
    let a0 =
      start-Ahead (gpu_response_wire p)
        (omega (arith, h, ap length (build_gpu_response-gpu_response_wire p))) in
    let (e1, a1) = read_blob-Ahead what p.output_ct _ a0 in
    let (e2, a2) = read_blob-Ahead what p.transcript_json _ a1 in
    let (e3, a3) = read_blob-Ahead what p.gpu_evidence _ a2 in
    let (e4, a4) = read_blob-Ahead what p.quote [] a3 in
    rw (build_gpu_response-gpu_response_wire p, e1, e2, e3, e4) refl

pub build_gpu_response_filled : (p : GpuResponse) → is_empty (build_gpu_response p) ≡ false
build_gpu_response_filled p =
    rw (build_gpu_response-gpu_response_wire p) (unfold be64 be_loop in refl)

read_blob-nil : (what : List ℕ) {r : BufReader} → Ahead r [] → read_blob what r ≡ fault
read_blob-nil what a = read_blob_cases what a tt

-- An error response has three parts, and the client of Prototype C or D reads four: on every error
-- that the server reports in a message that fits a vector, the client reads behind the end of it.
pub parse_gpu_response-build_error_response :
    (what msg : List ℕ)
    → length (build_error_response msg) < 2 ^ 63
    → parse_gpu_response what (build_error_response msg) ≡ fault
unfolding parse_gpu_response build_error_response
parse_gpu_response-build_error_response what msg h =
    let json = text "{\"error\":\"" ++ (msg ++ text "\"}") in
    let p : Response = record { output_ct = []; transcript_json = json; quote = [] } in
    let a0 =
      start-Ahead (response_wire p)
        (omega (arith, h, ap length (build_response-response_wire p))) in
    let (e1, a1) = read_blob-Ahead what [] _ a0 in
    let (e2, a2) = read_blob-Ahead what json _ a1 in
    let (e3, a3) = read_blob-Ahead what [] [] a2 in
    rw (build_response-response_wire p, e1, e2, e3, read_blob-nil what a3) refl
