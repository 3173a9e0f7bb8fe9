-- ===== src/Examples/ClientRuns.antt =====
-- A run of the client of Prototype A against the server.
use khipu_v_fhe.Prelude.{
  ℕ, ◌≡◌, refl, inl, List, [], ◌∷◌, reverse, Bytes, true, ok, text, ltb→lt, none, some,
}
use khipu_v_fhe.Libraries.{str}
use khipu_v_fhe.Libraries.Instances.{flat_json, flat_json-IsJson, short_blake3, object}
use khipu_v_fhe.Hex.{to_hex}
use khipu_v_fhe.Wire.{be_loop, be64, be32, write_u32_be, write_blob}
use khipu_v_fhe.Transcript.{
  Transcript, to_fields, to_json, without_timings, compute_transcript_hash, generate_transcript,
  transcript_of_hash, hash_concatenated,
}
use khipu_v_fhe.Protocol.{Request, build_request, write_counted, write_blobs, build_response}
use khipu_v_fhe.Verifier.{
  measurement, token_measurement, jwt_payload, find_char, base64url_decode, base64url_char,
  b64_decode, pad_loop, pad_at, cut_padding, appraisal_measurement, find_measurement,
  report_measurement,
}
use khipu_v_fhe.Attestation.{report_data}
use khipu_v_fhe.Verifier.Soundness.{Reported}
use khipu_v_fhe.Server.{
  find_workload, load_key, load_keys, read_ciphertexts, timed, quoted, respond,
}
use khipu_v_fhe.Server.Handling.{Evaluates}
use khipu_v_fhe.Server.Serving.{Runs, sent_transcript}
use khipu_v_fhe.Client.{contains_text}
use khipu_v_fhe.Client.Arguments.{defaults, run_with, parse_args}
use khipu_v_fhe.Client.Main.{
  random_nonce, ClientFhe, Exit, ClientWorkload, Outside, Prepared, find_spec,
  serialize_all_eval_keys, encrypt_seeded, spec_inputs, input_blobs, prepare, client_main,
}
use khipu_v_fhe.Client.Main.Running.{client_main-respond}
use khipu_v_fhe.Examples.{
  are_bytes→, flat_nav, flat_text, trusting_dcap, sample_quote, sample_tdx, plain_fhe, noop,
  sample_registry, sample_times,
}
use khipu_v_fhe.Examples.Circuits.{numbers, clear_ckks, counting}
use khipu_v_fhe.Examples.Clients.{first_digit}

abbrev pub clear_client : ClientFhe (clear_ckks 32)
clear_client = record {
  Context = Unit {0};
  KeyPair = ℕ;
  Keys = List ℕ;
  no_keys = [];
  key_gen = λ cc. ok 7;
  eval_mult_key_gen = λ cc kp keys. ok (kp ∷ keys);
  serialize_eval_mult_key = λ keys kp. ok (true, 1 ∷ 2 ∷ []);
  serialize_eval_automorphism_key = λ keys kp. ok (true, 3 ∷ []);
  gen_input_vec = λ slots seed. seed ∷ slots ∷ [];
  encrypt = λ cc kp v. ok (counting 3);
  encryption =
      λ cc kp. record { stod = first_digit; encrypt_packed = λ v noise lvl. ok (counting lvl) };
  serialize_ciphertext = λ ct. ok (4 ∷ 5 ∷ 6 ∷ []);
  deserialize_ciphertext = λ b. ok (counting 3);
  decrypt = λ cc kp ct. ok (ct.left_over ∷ kp ∷ []);
}

abbrev pub client_workload : ClientWorkload clear_client
client_workload = record { make_context = ok tt; gen_keys = none }

abbrev pub client_registry : List (List ℕ × ClientWorkload clear_client)
client_registry = (text "noop", client_workload) ∷ []

abbrev pub random_bytes : Bytes
random_bytes = 9 ∷ 1 ∷ 2 ∷ 3 ∷ 4 ∷ 5 ∷ 6 ∷ 7 ∷ 8 ∷ 9 ∷ 10 ∷ 11 ∷ 12 ∷ 13 ∷ 14 ∷ 255 ∷ []

abbrev pub client_request : Request
client_request = record {
  nonce = random_bytes;
  eval_keys = (1 ∷ 2 ∷ []) ∷ (3 ∷ []) ∷ [];
  input_cts = (4 ∷ 5 ∷ 6 ∷ []) ∷ [];
  workload_id = text "noop";
}

abbrev prepared_client : Prepared clear_client
prepared_client = record { cc = tt; kp = 7; request = client_request }

-- The connection brings the message to the server and its answer back.
abbrev world : Outside clear_client
world = record {
  urandom = some random_bytes;
  mnist = none;
  exchange = λ host port req.
      respond flat_json short_blake3 sample_tdx plain_fhe sample_registry [] req sample_times;
}

client-prepared : prepare clear_client world (text "noop") client_workload ≡ ok prepared_client
unfolding prepare random_nonce serialize_all_eval_keys input_blobs spec_inputs find_spec
    encrypt_seeded
client-prepared = refl

abbrev pub output : Bytes
output = 4 ∷ 5 ∷ 6 ∷ []

client-Evaluates :
    Evaluates flat_json short_blake3 sample_tdx plain_fhe sample_registry [] client_request output
unfolding find_workload load_keys load_key read_ciphertexts
client-Evaluates = record {
  workload = noop;
  found = refl;
  cc = tt;
  made = refl;
  loaded_keys = (3 ∷ []) ∷ (1 ∷ 2 ∷ []) ∷ [];
  loaded = refl;
  inputs = output ∷ [];
  input_cts = refl;
  result = output;
  evaluated = refl;
  serialized = refl;
}

abbrev expected : Transcript
expected =
    generate_transcript short_blake3 client_request.nonce client_request.eval_keys
      client_request.input_cts output

abbrev pub digest : Bytes
digest = short_blake3.hash (flat_text (to_fields (without_timings expected)))

abbrev dcap : khipu_v_fhe.Verifier.Dcap
dcap = trusting_dcap (report_data digest)

pub client-digest : compute_transcript_hash short_blake3 flat_json expected ≡ ok digest
unfolding compute_transcript_hash to_json
client-digest = refl

client-Reported : Reported flat_json flat_nav dcap sample_quote (report_data digest) []
unfolding measurement token_measurement jwt_payload find_char base64url_decode base64url_char
    b64_decode pad_loop pad_at cut_padding appraisal_measurement find_measurement report_measurement
    report_data to_hex to_fields without_timings generate_transcript transcript_of_hash
    hash_concatenated
client-Reported = record {
  meas = object ((text "tdx_reportdata", str (to_hex (reverse (report_data digest)))) ∷ []);
  found = refl;
  shown = refl;
  bytes = are_bytes→ (report_data digest) refl;
  size = refl;
  mr_td = inl refl;
}

client-Runs :
    Runs flat_json flat_nav dcap short_blake3 sample_tdx client_request [] output sample_times
unfolding to_json contains_text to_fields timed quoted generate_transcript transcript_of_hash
    hash_concatenated to_hex build_response write_blob be64 be_loop
client-Runs = record {
  digest = digest;
  hashed = client-digest;
  quote = sample_quote;
  made = refl;
  reported = client-Reported;
  json = flat_text (to_fields (sent_transcript short_blake3 client_request output sample_times));
  written = refl;
  no_error = refl;
  fits = ltb→lt _ _ refl;
}

pub no_options : parse_args defaults [] ≡ ok (run_with defaults)
unfolding parse_args
no_options = refl

pub noop_found : find_workload (text "noop") client_registry ≡ some client_workload
unfolding find_workload
noop_found = refl

abbrev pub exit : Exit numbers
exit = record { code = 0; decrypted = some (3 ∷ 7 ∷ []) }

client_main-respond_example :
    client_main clear_client flat_json flat_nav dcap short_blake3 client_registry world [] ≡ ok exit
unfolding build_request write_counted write_blobs write_blob write_u32_be be64 be_loop be32
client_main-respond_example =
    client_main-respond clear_client flat_json flat_nav dcap short_blake3 sample_tdx plain_fhe
      client_registry world [] defaults client_workload prepared_client sample_registry [] output
      sample_times (counting 3) (3 ∷ 7 ∷ []) flat_json-IsJson (are_bytes→ random_bytes refl)
      no_options noop_found client-prepared (ltb→lt _ _ refl) (ltb→lt _ _ refl) (ltb→lt _ _ refl)
      client-Evaluates client-Runs refl refl refl
