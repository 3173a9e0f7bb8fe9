-- ===== src/Examples/GpuClients.antt =====
-- A run of the client of Prototype C against its server.
use khipu_v_fhe.Prelude.{
  ℕ, ◌≡◌, refl, inl, List, [], ◌∷◌, ◌≢◌, reverse, Bytes, ok, throw, text, ltb→lt, none, some,
}
use khipu_v_fhe.Libraries.{str}
use khipu_v_fhe.Libraries.Instances.{flat_json, flat_json-IsJson, short_blake3, object}
use khipu_v_fhe.Hex.{to_hex}
use khipu_v_fhe.Wire.{be_loop, be64, be32, write_u32_be, write_blob}
use khipu_v_fhe.Transcript.{
  to_fields, to_json, without_timings, generate_transcript, transcript_of_hash, hash_concatenated,
}
use khipu_v_fhe.Evidence.{GpuEvidencePackage, serialize, write_part, le32, nonce_array}
use khipu_v_fhe.Evidence.Adapter.{init, collect_evidence}
use khipu_v_fhe.Protocol.{
  GpuRequest, build_gpu_request, write_counted, write_blobs, build_gpu_response,
}
use khipu_v_fhe.Verifier.{
  Dcap, measurement, token_measurement, jwt_payload, find_char, base64url_decode, base64url_char,
  b64_decode, pad_loop, pad_at, cut_padding, appraisal_measurement, find_measurement,
  report_measurement,
}
use khipu_v_fhe.Attestation.{
  report_data, compute_gpu_evidence_digest, compute_heterogeneous_binding_digest,
}
use khipu_v_fhe.Verifier.Soundness.{Reported}
use khipu_v_fhe.Server.{find_workload, timed, quoted}
use khipu_v_fhe.Client.{contains_text}
use khipu_v_fhe.Client.Arguments.{defaults}
use khipu_v_fhe.Client.Main.{
  random_nonce, Outside, find_spec, encrypt_seeded, spec_inputs, input_blobs,
}
use khipu_v_fhe.Client.Gpu.Main.{
  GpuKeyWriting, GpuPrepared, serialize_eval_keys, gpu_prepare, gpu_client_main,
}
use khipu_v_fhe.GpuServer.Running.{gpu_client_main-respond_gpu}
use khipu_v_fhe.Server.Serving.{sent_transcript}
use khipu_v_fhe.Client.Gpu.{bound}
use khipu_v_fhe.GpuServer.{
  GpuFhe, GpuGlobals, GpuWorkload, load_gpu_keys, load_gpu_key, read_gpu_ciphertexts, respond_gpu,
}
use khipu_v_fhe.GpuServer.Handling.{GpuEvaluates}
use khipu_v_fhe.GpuServer.Exchange.{GpuRuns}
use khipu_v_fhe.Examples.{
  are_bytes→, flat_nav, flat_text, trusting_dcap, sample_quote, sample_tdx, first_input,
  sample_times,
}
use khipu_v_fhe.Examples.Adapters.{one_gpu}
use khipu_v_fhe.Examples.ClientRuns.{
  clear_client, client_workload, client_registry, random_bytes, client_request, output, digest,
  exit, client-digest, no_options, noop_found,
}
use khipu_v_fhe.Examples.Circuits.{counting}

abbrev key_writing : GpuKeyWriting clear_client
key_writing = record {
  serialize_eval_mult_key = λ keys. ok (1 ∷ 2 ∷ []);
  serialize_eval_automorphism_key = λ keys. ok (3 ∷ []);
  serialize_public_key = λ kp. ok (8 ∷ 9 ∷ []);
}

abbrev gpu_fhe : GpuFhe
gpu_fhe = record {
  Context = Unit {0};
  Keys = List Bytes;
  PublicKey = Bytes;
  Ciphertext = Bytes;
  deserialize_public_key = ok;
  get_crypto_context = λ pk. ok tt;
  deserialize_eval_mult_key = λ kb keys. (throw (text "mult"), keys);
  deserialize_eval_sum_key = λ kb keys. (ok tt, kb ∷ keys);
  deserialize_eval_automorphism_key = λ kb keys. (ok tt, keys);
  deserialize_ciphertext = ok;
  serialize_ciphertext = ok;
}

abbrev gpu_noop : GpuWorkload gpu_fhe
gpu_noop = record { eval = λ cc g inputs. first_input inputs }

abbrev gpu_registry : List (List ℕ × GpuWorkload gpu_fhe)
gpu_registry = (text "noop", gpu_noop) ∷ []

abbrev full_request : GpuRequest
full_request = record { request = client_request; public_key = 8 ∷ 9 ∷ [] }

abbrev started : GpuGlobals gpu_fhe
started = record { keys = []; client_pk = none }

sample-GpuEvaluates :
    GpuEvaluates flat_json short_blake3 sample_tdx one_gpu gpu_fhe gpu_registry [] full_request
      output
unfolding find_workload load_gpu_keys load_gpu_key read_gpu_ciphertexts
sample-GpuEvaluates = record {
  workload = gpu_noop;
  found = refl;
  pk = 8 ∷ 9 ∷ [];
  pk_read = refl;
  loaded = refl;
  cc = tt;
  cc_eq = refl;
  inputs = (4 ∷ 5 ∷ 6 ∷ []) ∷ [];
  inputs_eq = refl;
  result = output;
  evaluated = refl;
  serialized = refl;
}

abbrev sample_package : GpuEvidencePackage
sample_package = record {
  evidence_json = text "[{}]";
  detached_eat = [];
  claims_json = [];
  nonce = nonce_array client_request.nonce;
}

abbrev bound_digest : Bytes
bound_digest = bound short_blake3 (serialize sample_package) digest

abbrev gpu_dcap : Dcap
gpu_dcap = trusting_dcap (report_data bound_digest)

bound-Reported : Reported flat_json flat_nav gpu_dcap sample_quote (report_data bound_digest) []
unfolding measurement token_measurement jwt_payload find_char base64url_decode base64url_char
    b64_decode pad_loop pad_at cut_padding appraisal_measurement find_measurement report_measurement
    report_data to_hex to_fields without_timings generate_transcript transcript_of_hash
    hash_concatenated compute_gpu_evidence_digest compute_heterogeneous_binding_digest serialize
    write_part le32 nonce_array
bound-Reported = record {
  meas = object ((text "tdx_reportdata", str (to_hex (reverse (report_data bound_digest)))) ∷ []);
  found = refl;
  shown = refl;
  bytes = are_bytes→ (report_data bound_digest) refl;
  size = refl;
  mr_td = inl refl;
}

some_json : sample_package.evidence_json ≢ []
some_json e = cc

sample-GpuRuns :
    GpuRuns flat_json flat_nav gpu_dcap short_blake3 sample_tdx one_gpu client_request [] output
      sample_times
unfolding init collect_evidence to_json contains_text to_fields timed quoted generate_transcript
    transcript_of_hash hash_concatenated to_hex build_gpu_response write_blob be64 be_loop serialize
    write_part le32 nonce_array
sample-GpuRuns = record {
  started = refl;
  pkg = sample_package;
  collected = refl;
  json_size = ltb→lt _ _ refl;
  eat_size = ltb→lt _ _ refl;
  claims_size = ltb→lt _ _ refl;
  json_filled = some_json;
  digest = digest;
  hashed = client-digest;
  quote = sample_quote;
  made = refl;
  reported = bound-Reported;
  json = flat_text (to_fields (sent_transcript short_blake3 client_request output sample_times));
  written = refl;
  no_error = refl;
  fits = ltb→lt _ _ refl;
}

abbrev prepared_client : GpuPrepared clear_client key_writing short_blake3
prepared_client = record {
  cc = tt;
  kp = 7;
  key_hash = hash_concatenated short_blake3 client_request.eval_keys;
  request = full_request;
}

-- The connection brings the message to the server and its answer back.
abbrev world : Outside clear_client
world = record {
  urandom = some random_bytes;
  mnist = none;
  exchange = λ host port req.
      (respond_gpu flat_json short_blake3 sample_tdx one_gpu gpu_fhe gpu_registry req sample_times
        started).0;
}

client-prepared :
    gpu_prepare clear_client key_writing short_blake3 world (text "noop") client_workload
    ≡ ok prepared_client
unfolding gpu_prepare random_nonce serialize_eval_keys input_blobs spec_inputs find_spec
    encrypt_seeded
client-prepared = refl

gpu_client_main-respond_gpu_example :
    gpu_client_main clear_client key_writing short_blake3 flat_json flat_nav gpu_dcap
      client_registry world []
    ≡ ok exit
unfolding build_gpu_request write_counted write_blobs write_blob write_u32_be be64 be_loop be32
gpu_client_main-respond_gpu_example =
    gpu_client_main-respond_gpu clear_client key_writing short_blake3 flat_json flat_nav gpu_dcap
      sample_tdx one_gpu gpu_fhe client_registry world [] defaults client_workload prepared_client
      gpu_registry started output sample_times (counting 3) (3 ∷ 7 ∷ []) flat_json-IsJson
      (are_bytes→ random_bytes refl) no_options noop_found client-prepared (ltb→lt _ _ refl)
      (ltb→lt _ _ refl) (ltb→lt _ _ refl) sample-GpuEvaluates sample-GpuRuns refl refl refl
