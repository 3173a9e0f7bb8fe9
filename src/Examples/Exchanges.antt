-- ===== src/Examples/Exchanges.antt =====
-- Whole exchanges between the client and the server.
use khipu_v_fhe.Prelude.{
  ℕ, ◌≡◌, ◌⊎◌, refl, inl, ◌∙◌, List, [], ◌∷◌, reverse, Bytes, ok, text, ltb→lt, some,
}
use khipu_v_fhe.Libraries.{str}
use khipu_v_fhe.Libraries.Instances.{flat_json, flat_json-IsJson, short_blake3, object}
use khipu_v_fhe.Hex.{to_hex}
use khipu_v_fhe.Wire.{be_loop, be64, be32, write_u32_be, write_blob}
use khipu_v_fhe.Transcript.{
  Transcript, to_fields, to_json, without_timings, compute_transcript_hash, generate_transcript,
  transcript_of_hash, hash_concatenated,
}
use khipu_v_fhe.Protocol.{
  Request, Response, build_request, write_counted, write_blobs, build_response, parse_request,
  parse_response, build_error_response,
}
use khipu_v_fhe.Protocol.Responses.{parse_response-build_response}
use khipu_v_fhe.Verifier.{
  measurement, token_measurement, jwt_payload, find_char, base64url_decode, base64url_char,
  b64_decode, pad_loop, pad_at, cut_padding, appraisal_measurement, find_measurement,
  report_measurement,
}
use khipu_v_fhe.Attestation.{report_data}
use khipu_v_fhe.Verifier.Soundness.{Reported}
use khipu_v_fhe.Server.{
  find_workload, load_key, load_keys, read_ciphertexts, timed, quoted, attest, respond, stage,
  dispatch, evaluate,
}
use khipu_v_fhe.Server.Handling.{Evaluates, respond_cases, respond-Evaluates}
use khipu_v_fhe.Server.Serving.{
  Runs, sent_transcript, respond-check_response, attest-Runs, check_response-Runs,
}
use khipu_v_fhe.Client.{contains_text, response_error, trailing_error, check_response}
use khipu_v_fhe.Client.Trust.{check_response_trusted}
use khipu_v_fhe.Examples.{
  are_bytes→, sample_request, flat_nav, flat_text, trusting_dcap, sample_quote, sample_tdx,
  plain_fhe, noop, sample_registry, sample_times,
}
use khipu_v_fhe.Protocol.{GpuResponse}

-- The workload returns its first input.
abbrev pub sample_output : Bytes
sample_output = 4 ∷ 5 ∷ 6 ∷ []

sample-Evaluates :
    Evaluates flat_json short_blake3 sample_tdx plain_fhe sample_registry [] sample_request
      sample_output
unfolding find_workload load_keys load_key read_ciphertexts
sample-Evaluates = record {
  workload = noop;
  found = refl;
  cc = tt;
  made = refl;
  loaded_keys = (3 ∷ []) ∷ (1 ∷ 2 ∷ []) ∷ [];
  loaded = refl;
  inputs = (4 ∷ 5 ∷ 6 ∷ []) ∷ [];
  input_cts = refl;
  result = sample_output;
  evaluated = refl;
  serialized = refl;
}

abbrev pub expected : Transcript
expected =
    generate_transcript short_blake3 sample_request.nonce sample_request.eval_keys
      sample_request.input_cts sample_output

abbrev pub digest : Bytes
digest = short_blake3.hash (flat_text (to_fields (without_timings expected)))

abbrev dcap : khipu_v_fhe.Verifier.Dcap
dcap = trusting_dcap (report_data digest)

pub digest-computed : compute_transcript_hash short_blake3 flat_json expected ≡ ok digest
unfolding compute_transcript_hash to_json
digest-computed = refl

sample-Reported : Reported flat_json flat_nav dcap sample_quote (report_data digest) []
unfolding measurement token_measurement jwt_payload find_char base64url_decode base64url_char
    b64_decode pad_loop pad_at cut_padding appraisal_measurement find_measurement report_measurement
    report_data to_hex to_fields without_timings generate_transcript transcript_of_hash
    hash_concatenated
sample-Reported = record {
  meas = object ((text "tdx_reportdata", str (to_hex (reverse (report_data digest)))) ∷ []);
  found = refl;
  shown = refl;
  bytes = are_bytes→ (report_data digest) refl;
  size = refl;
  mr_td = inl refl;
}

abbrev pub json : List ℕ
json =
    flat_text (to_fields (sent_transcript short_blake3 sample_request sample_output sample_times))

sample-Runs :
    Runs flat_json flat_nav dcap short_blake3 sample_tdx sample_request [] sample_output
      sample_times
unfolding to_json contains_text to_fields timed quoted generate_transcript transcript_of_hash
    hash_concatenated to_hex build_response write_blob be64 be_loop
sample-Runs = record {
  digest = digest;
  hashed = digest-computed;
  quote = sample_quote;
  made = refl;
  reported = sample-Reported;
  json = json;
  written = refl;
  no_error = refl;
  fits = ltb→lt _ _ refl;
}

respond-check_response_example :
    (resp : Bytes) × (respond flat_json short_blake3 sample_tdx plain_fhe sample_registry []
        (build_request sample_request)
        sample_times
      ≡ ok resp)
    × (check_response flat_json flat_nav dcap short_blake3 sample_request [] resp
        ≡ ok (some sample_output))
unfolding build_request write_counted write_blobs write_blob write_u32_be be64 be_loop be32
respond-check_response_example =
    respond-check_response flat_json flat_nav dcap short_blake3 sample_tdx plain_fhe sample_registry
      [] sample_request [] sample_output sample_times flat_json-IsJson
      (are_bytes→ sample_request.nonce refl) (ltb→lt _ _ refl) (ltb→lt _ _ refl) (ltb→lt _ _ refl)
      sample-Evaluates sample-Runs

abbrev answered : Response
answered = record { output_ct = sample_output; transcript_json = json; quote = sample_quote }

answered-parsed :
    parse_response response_error trailing_error (build_response answered) ≡ ok answered
unfolding sample-Runs
answered-parsed =
    parse_response-build_response response_error trailing_error answered sample-Runs.fits

answered-accepted :
    check_response flat_json flat_nav dcap short_blake3 sample_request [] (build_response answered)
    ≡ ok (some sample_output)
unfolding sample-Runs
answered-accepted =
    check_response-Runs flat_json flat_nav dcap short_blake3 sample_tdx sample-Runs flat_json-IsJson
      (are_bytes→ sample_request.nonce refl)

check_response_trusted_example :
    (sample_output ≡ answered.output_ct)
    × ((h : Bytes) × (compute_transcript_hash short_blake3 flat_json expected ≡ ok h)
        × (report_data digest ≡ report_data h))
check_response_trusted_example =
    check_response_trusted flat_json flat_nav dcap short_blake3 flat_json-IsJson sample_request []
      (build_response answered) answered sample_output (report_data digest)
      (are_bytes→ sample_request.nonce refl) answered-parsed sample-Reported answered-accepted

answer_given :
    respond flat_json short_blake3 sample_tdx plain_fhe sample_registry []
      (build_request sample_request)
      sample_times
    ≡ ok (build_response answered)
unfolding sample-Runs build_request write_counted write_blobs write_blob write_u32_be be64 be_loop
    be32
answer_given =
    respond-Evaluates flat_json short_blake3 sample_tdx plain_fhe sample_registry [] sample_request
      sample_output sample_times (ltb→lt _ _ refl) (ltb→lt _ _ refl) (ltb→lt _ _ refl)
      sample-Evaluates
    ∙ attest-Runs flat_json flat_nav dcap short_blake3 sample_tdx sample-Runs

respond_cases_example :
    ((q : Request) × (out : Bytes) × (parse_request khipu_v_fhe.Server.reader_error
          khipu_v_fhe.Server.trailing_error
          (build_request sample_request)
        ≡ ok q)
      × Evaluates flat_json short_blake3 sample_tdx plain_fhe sample_registry [] q out
      × (attest flat_json short_blake3 sample_tdx q out sample_times
          ≡ ok (build_response answered)))
    ⊎ ((e : List ℕ) × (build_response answered ≡ build_error_response e))
respond_cases_example =
    respond_cases flat_json short_blake3 sample_tdx plain_fhe sample_registry []
      (build_request sample_request) sample_times (build_response answered) answer_given

abbrev plain_response : GpuResponse
plain_response = record {
  output_ct = sample_output;
  transcript_json = json;
  gpu_evidence = [];
  quote = sample_quote;
}

abbrev key_digest : Bytes
key_digest = hash_concatenated short_blake3 sample_request.eval_keys
