-- ===== src/Examples/GpuServing.antt =====
-- An exchange of Prototype C over the libraries of the other examples.
use khipu_v_fhe.Prelude.{
  ℕ, ◌≡◌, ◌⊎◌, refl, inl, ◌∙◌, List, [], ◌∷◌, ◌≢◌, reverse, Bytes, ok, throw, text, ltb→lt, none,
}
use khipu_v_fhe.Libraries.{str}
use khipu_v_fhe.Libraries.Instances.{flat_json, short_blake3, object}
use khipu_v_fhe.Hex.{to_hex}
use khipu_v_fhe.Wire.{be_loop, be64, be32, write_u32_be, write_blob}
use khipu_v_fhe.Transcript.{
  to_fields, to_json, without_timings, generate_transcript, transcript_of_hash, hash_concatenated,
}
use khipu_v_fhe.Evidence.{GpuEvidencePackage, serialize, write_part, le32, nonce_array}
use khipu_v_fhe.Evidence.Adapter.{init, collect_evidence}
use khipu_v_fhe.Protocol.{
  GpuRequest, build_gpu_request, write_counted, write_blobs, build_gpu_response, parse_gpu_request,
  build_error_response,
}
use khipu_v_fhe.Verifier.{
  Dcap, measurement, token_measurement, jwt_payload, find_char, base64url_decode, base64url_char,
  b64_decode, pad_loop, pad_at, cut_padding, appraisal_measurement, find_measurement,
  report_measurement,
}
use khipu_v_fhe.Attestation.{
  report_data, compute_gpu_evidence_digest, compute_heterogeneous_binding_digest,
}
use khipu_v_fhe.Verifier.Soundness.{Reported}
use khipu_v_fhe.Server.{find_workload, timed, quoted, reader_error, trailing_error}
use khipu_v_fhe.Client.{contains_text}
use khipu_v_fhe.Client.Gpu.{bound}
use khipu_v_fhe.GpuServer.{
  GpuFhe, GpuGlobals, GpuWorkload, load_gpu_keys, load_gpu_key, read_gpu_ciphertexts, attest_gpu,
  respond_gpu,
}
use khipu_v_fhe.GpuServer.Handling.{GpuEvaluates, respond_gpu-GpuEvaluates, respond_gpu_cases}
use khipu_v_fhe.GpuServer.Exchange.{GpuRuns, gpu_response, attest_gpu-GpuRuns}
use khipu_v_fhe.Examples.{
  are_bytes→, sample_request, flat_nav, trusting_dcap, sample_quote, sample_tdx, first_input,
  sample_times,
}
use khipu_v_fhe.Examples.Adapters.{one_gpu}
use khipu_v_fhe.Examples.Exchanges.{sample_output, digest, digest-computed, json}

abbrev gpu_fhe : GpuFhe
gpu_fhe = record {
  Context = Unit {0};
  Keys = List Bytes;
  PublicKey = Bytes;
  Ciphertext = Bytes;
  deserialize_public_key = ok;
  get_crypto_context = λ pk. ok tt;
  deserialize_eval_mult_key = λ kb keys. (throw (text "mult"), keys);
  deserialize_eval_sum_key = λ kb keys. (ok tt, kb ∷ keys);
  deserialize_eval_automorphism_key = λ kb keys. (ok tt, keys);
  deserialize_ciphertext = ok;
  serialize_ciphertext = ok;
}

abbrev gpu_noop : GpuWorkload gpu_fhe
gpu_noop = record { eval = λ cc g inputs. first_input inputs }

abbrev gpu_registry : List (List ℕ × GpuWorkload gpu_fhe)
gpu_registry = (text "noop", gpu_noop) ∷ []

abbrev gpu_request : GpuRequest
gpu_request = record { request = sample_request; public_key = 8 ∷ 9 ∷ [] }

abbrev started : GpuGlobals gpu_fhe
started = record { keys = []; client_pk = none }

sample-GpuEvaluates :
    GpuEvaluates flat_json short_blake3 sample_tdx one_gpu gpu_fhe gpu_registry [] gpu_request
      sample_output
unfolding find_workload load_gpu_keys load_gpu_key read_gpu_ciphertexts
sample-GpuEvaluates = record {
  workload = gpu_noop;
  found = refl;
  pk = 8 ∷ 9 ∷ [];
  pk_read = refl;
  loaded = refl;
  cc = tt;
  cc_eq = refl;
  inputs = (4 ∷ 5 ∷ 6 ∷ []) ∷ [];
  inputs_eq = refl;
  result = sample_output;
  evaluated = refl;
  serialized = refl;
}

abbrev sample_package : GpuEvidencePackage
sample_package = record {
  evidence_json = text "[{}]";
  detached_eat = [];
  claims_json = [];
  nonce = nonce_array sample_request.nonce;
}

abbrev bound_digest : Bytes
bound_digest = bound short_blake3 (serialize sample_package) digest

abbrev gpu_dcap : Dcap
gpu_dcap = trusting_dcap (report_data bound_digest)

bound-Reported : Reported flat_json flat_nav gpu_dcap sample_quote (report_data bound_digest) []
unfolding measurement token_measurement jwt_payload find_char base64url_decode base64url_char
    b64_decode pad_loop pad_at cut_padding appraisal_measurement find_measurement report_measurement
    report_data to_hex to_fields without_timings generate_transcript transcript_of_hash
    hash_concatenated compute_gpu_evidence_digest compute_heterogeneous_binding_digest serialize
    write_part le32 nonce_array
bound-Reported = record {
  meas = object ((text "tdx_reportdata", str (to_hex (reverse (report_data bound_digest)))) ∷ []);
  found = refl;
  shown = refl;
  bytes = are_bytes→ (report_data bound_digest) refl;
  size = refl;
  mr_td = inl refl;
}

some_json : sample_package.evidence_json ≢ []
some_json e = cc

sample-GpuRuns :
    GpuRuns flat_json flat_nav gpu_dcap short_blake3 sample_tdx one_gpu sample_request []
      sample_output sample_times
unfolding init collect_evidence to_json contains_text to_fields timed quoted generate_transcript
    transcript_of_hash hash_concatenated to_hex build_gpu_response write_blob be64 be_loop serialize
    write_part le32 nonce_array
sample-GpuRuns = record {
  started = refl;
  pkg = sample_package;
  collected = refl;
  json_size = ltb→lt _ _ refl;
  eat_size = ltb→lt _ _ refl;
  claims_size = ltb→lt _ _ refl;
  json_filled = some_json;
  digest = digest;
  hashed = digest-computed;
  quote = sample_quote;
  made = refl;
  reported = bound-Reported;
  json = json;
  written = refl;
  no_error = refl;
  fits = ltb→lt _ _ refl;
}

abbrev gpu_answer : Bytes
gpu_answer =
    build_gpu_response
      (gpu_response flat_json flat_nav gpu_dcap short_blake3 sample_tdx one_gpu sample-GpuRuns)

gpu_answer_eq :
    (respond_gpu flat_json short_blake3 sample_tdx one_gpu gpu_fhe gpu_registry
      (build_gpu_request gpu_request)
      sample_times
      started).0
    ≡ ok gpu_answer
unfolding build_gpu_request write_counted write_blobs write_blob write_u32_be be64 be_loop be32
gpu_answer_eq =
    respond_gpu-GpuEvaluates flat_json short_blake3 sample_tdx one_gpu gpu_fhe gpu_registry started
      gpu_request sample_output sample_times (ltb→lt _ _ refl) (ltb→lt _ _ refl) (ltb→lt _ _ refl)
      sample-GpuEvaluates
    ∙ attest_gpu-GpuRuns flat_json flat_nav gpu_dcap short_blake3 sample_tdx one_gpu sample-GpuRuns

respond_gpu_cases_example :
    ((e : List ℕ) × (gpu_answer ≡ build_error_response e))
    ⊎ ((q : GpuRequest) × (out : Bytes) × (parse_gpu_request reader_error trailing_error
            (build_gpu_request gpu_request)
          ≡ ok q)
        × GpuEvaluates flat_json short_blake3 sample_tdx one_gpu gpu_fhe gpu_registry [] q out
        × (attest_gpu flat_json short_blake3 sample_tdx one_gpu q.request out sample_times
            ≡ ok gpu_answer))
respond_gpu_cases_example =
    respond_gpu_cases flat_json short_blake3 sample_tdx one_gpu gpu_fhe gpu_registry
      (build_gpu_request gpu_request) sample_times started gpu_answer gpu_answer_eq
