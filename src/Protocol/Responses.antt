-- ===== src/Protocol/Responses.antt =====
-- What the server answers is what the client reads, an error included.
use khipu_v_fhe.Prelude.{
  ℕ, ◌^◌, ◌<◌, ◌≡◌, refl, ap, arith, List, [], ◌++◌, append_assoc, append-nil, Bytes, ok, length,
  false, is_empty,
}
use khipu_v_fhe.Wire.{be_loop, be64}
use khipu_v_fhe.Wire.Reading.{start-Ahead}
use khipu_v_fhe.Wire.Blobs.{blob, read_blob-Ahead}
use khipu_v_fhe.Protocol.{Response, build_response, parse_response}
use khipu_v_fhe.Protocol.Requests.{write_blob_lem, remaining-nil}

abbrev pub response_wire : Response → Bytes
response_wire p = blob p.output_ct ++ (blob p.transcript_json ++ (blob p.quote ++ []))

pub build_response-response_wire : (p : Response) → build_response p ≡ response_wire p
unfolding build_response
build_response-response_wire p = simp (write_blob_lem, append_assoc, append-nil)

-- The client reads from a response exactly what the server put in, if the message fits a vector.
pub parse_response-build_response :
    (what trailing : List ℕ) (p : Response)
    → length (build_response p) < 2 ^ 63
    → parse_response what trailing (build_response p) ≡ ok p
unfolding parse_response
parse_response-build_response what trailing p h =
    let a0 =
      start-Ahead (response_wire p)
        (omega (arith, h, ap length (build_response-response_wire p))) in
    let (e1, a1) = read_blob-Ahead what p.output_ct _ a0 in
    let (e2, a2) = read_blob-Ahead what p.transcript_json _ a1 in
    let (e3, a3) = read_blob-Ahead what p.quote [] a2 in
    rw (build_response-response_wire p, e1, e2, e3, remaining-nil a3) refl

-- A response is not empty, since each part has its size before it.
pub build_response_filled : (p : Response) → is_empty (build_response p) ≡ false
build_response_filled p = rw (build_response-response_wire p) (unfold be64 be_loop in refl)
