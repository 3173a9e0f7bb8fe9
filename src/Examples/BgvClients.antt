-- ===== src/Examples/BgvClients.antt =====
-- A run of the client of Prototype E against its server.
use khipu_v_fhe.Prelude.{true, false, ℕ, ◌∷◌, [], List, Bytes, ok, text, some, none, pos}
use khipu_v_fhe.Libraries.Instances.{flat_json, short_blake3}
use khipu_v_fhe.Transcript.{generate_transcript}
use khipu_v_fhe.Attestation.{report_data}
use khipu_v_fhe.Bgv.{BgvTranscript, bgv_fields, bgv_without_timings, bgv_timed, bgv_respond}
use khipu_v_fhe.Bgv.Main.{BgvClientFhe, BgvClientWorkload, BgvExit, BgvOutside, BgvPrepared}
use khipu_v_fhe.Examples.{flat_text, trusting_dcap, sample_tdx, plain_fhe, sample_registry}
use khipu_v_fhe.Examples.ClientRuns.{random_bytes, client_request, output}
use khipu_v_fhe.Examples.BgvRunning.{bgv_times}

abbrev clear_bgv : BgvClientFhe
clear_bgv = record {
  Context = Unit {0};
  KeyPair = ℕ;
  Keys = List ℕ;
  Ciphertext = Bytes;
  no_keys = [];
  key_gen = λ cc. ok 7;
  eval_mult_key_gen = λ cc kp keys. ok (kp ∷ keys);
  serialize_eval_mult_key = λ keys cc. ok (true, 1 ∷ 2 ∷ []);
  serialize_eval_sum_key = λ keys cc. ok (false, []);
  serialize_eval_automorphism_key = λ keys cc. ok (true, 3 ∷ []);
  gen_input_vec = λ slots seed. pos seed ∷ pos slots ∷ [];
  encrypt = λ cc kp v. ok (4 ∷ 5 ∷ 6 ∷ []);
  serialize_ciphertext = λ ct. ok ct;
  deserialize_ciphertext = λ b. ok b;
  decrypt = λ cc kp ct slots. ok (pos kp ∷ pos slots ∷ []);
}

abbrev client_workload : BgvClientWorkload clear_bgv
client_workload = record { make_context = ok tt; gen_keys = none }

abbrev client_registry : List (List ℕ × BgvClientWorkload clear_bgv)
client_registry = (text "noop", client_workload) ∷ []

abbrev prepared_client : BgvPrepared clear_bgv
prepared_client = record { cc = tt; kp = 7; request = client_request }

abbrev before_quote : BgvTranscript
before_quote =
    bgv_timed
      (generate_transcript short_blake3 client_request.nonce client_request.eval_keys
        client_request.input_cts output)
      bgv_times

abbrev digest : Bytes
digest = short_blake3.hash (flat_text (bgv_fields (bgv_without_timings before_quote)))

abbrev dcap : khipu_v_fhe.Verifier.Dcap
dcap = trusting_dcap (report_data digest)

-- The connection brings the message to the server and its answer back.
abbrev world : BgvOutside clear_bgv
world = record {
  urandom = some random_bytes;
  exchange = λ host port req.
      bgv_respond flat_json short_blake3 sample_tdx plain_fhe sample_registry [] req bgv_times;
}

abbrev exit : BgvExit
exit = record { code = 0; decrypted = some (pos 7 ∷ pos 64 ∷ []) }
