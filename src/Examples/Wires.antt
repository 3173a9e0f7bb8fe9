-- ===== src/Examples/Wires.antt =====
-- The messages of the protocol, and hexadecimal texts.
use khipu_v_fhe.Prelude.{
  ℕ, ◌≡◌, refl, [], ◌∷◌, ◌++◌, Bytes, ok, fault, text, length, ltb, ltb→lt, if◌then◌else◌,
}
use khipu_v_fhe.Wire.{
  be_loop, be64, from_be, write_blob, BufReader, copy, read, read_u32_be, read_blob, remaining,
}
use khipu_v_fhe.Wire.Order.{from_be-be64}
use khipu_v_fhe.Wire.Reading.{Ahead, start-Ahead, blob_size, after_prefix, read_blob_cases}
use khipu_v_fhe.Protocol.{
  Request, GpuRequest, build_request, parse_request, build_response, read_blobs, read_counted,
}
use khipu_v_fhe.Protocol.{GpuResponse, parse_gpu_response, build_error_response}
use khipu_v_fhe.Protocol.GpuResponses.{parse_gpu_response-build_error_response}
use khipu_v_fhe.Protocol.Canonical.{build_request-parse_request}
use khipu_v_fhe.Hex.{from_hex, hex_pairs, hex_val}
use khipu_v_fhe.Examples.{are_bytes→, sample_request}

from_be-be64_example : from_be 0 (be64 66051) ≡ 66051
from_be-be64_example = from_be-be64 66051 (ltb→lt _ _ refl)

-- A blob of two bytes, and one byte behind it.
abbrev sample_buf : Bytes
sample_buf = 0 ∷ 0 ∷ 0 ∷ 0 ∷ 0 ∷ 0 ∷ 0 ∷ 2 ∷ 65 ∷ 66 ∷ 9 ∷ []

abbrev sample_reader : BufReader
sample_reader = record { buf = sample_buf; pos = 0 }

sample_reader-Ahead : Ahead sample_reader sample_buf
sample_reader-Ahead = start-Ahead sample_buf (ltb→lt _ _ refl)

read_blob_cases_example : read_blob (text "short") sample_reader ≡ (
    if ltb (length sample_buf) 8
    then fault
    else after_prefix (text "short") (blob_size sample_buf) sample_reader sample_buf)
read_blob_cases_example =
    read_blob_cases (text "short") sample_reader-Ahead (are_bytes→ sample_buf refl)

abbrev request_bytes : Bytes
request_bytes =
    (0 ∷ 0 ∷ 0 ∷ 0 ∷ 0 ∷ 0 ∷ 0 ∷ 1 ∷ 7 ∷ [])
    ++ ((0 ∷ 0 ∷ 0 ∷ 0 ∷ [])
        ++ ((0 ∷ 0 ∷ 0 ∷ 0 ∷ []) ++ (0 ∷ 0 ∷ 0 ∷ 0 ∷ 0 ∷ 0 ∷ 0 ∷ 1 ∷ b'n' ∷ [])))

abbrev small_request : Request
small_request = record { nonce = 7 ∷ []; eval_keys = []; input_cts = []; workload_id = b'n' ∷ [] }

request_bytes-parsed : parse_request (text "short") (text "long") request_bytes ≡ ok small_request
unfolding parse_request read_counted read_blobs read_blob read_u32_be read copy remaining from_be
request_bytes-parsed = refl

build_request-parse_request_example : build_request small_request ≡ request_bytes
build_request-parse_request_example =
    build_request-parse_request (text "short") (text "long") request_bytes small_request
      (ltb→lt _ _ refl) (are_bytes→ request_bytes refl) request_bytes-parsed

abbrev sample_gpu_request : GpuRequest
sample_gpu_request = record { request = sample_request; public_key = 8 ∷ 9 ∷ [] }

abbrev sample_gpu_response : GpuResponse
sample_gpu_response = record {
  output_ct = 1 ∷ 2 ∷ [];
  transcript_json = text "{}";
  gpu_evidence = 4 ∷ [];
  quote = 3 ∷ [];
}

parse_gpu_response-build_error_response_example :
    parse_gpu_response (text "short") (build_error_response (text "unknown workload: x")) ≡ fault
unfolding build_error_response build_response write_blob be64 be_loop
parse_gpu_response-build_error_response_example =
    parse_gpu_response-build_error_response (text "short") (text "unknown workload: x")
      (ltb→lt _ _ refl)

upper_read : from_hex (text "AB0f") ≡ ok (171 ∷ 15 ∷ [])
unfolding from_hex hex_pairs hex_val
upper_read = refl

abbrev one_byte : ℕ → Bytes
one_byte b = b ∷ []
