-- ===== src/Examples/ZkServing.antt =====
-- A server of Prototype B over the proof system in the clear, and its client.
use khipu_v_fhe.Prelude.{
  ℕ, ◌≡◌, ◌↔◌, ◌⊎◌, ◌<◌, ◌^◌, refl, List, [], ◌∷◌, Bytes, true, false, Outcome, ok, throw, fault,
  text, length, ltb→lt, some,
}
use khipu_v_fhe.Libraries.Instances.{flat_json, short_blake3}
use khipu_v_fhe.Wire.{be_loop, be64, be32, write_u32_be, write_blob}
use khipu_v_fhe.Protocol.{build_request, write_counted, write_blobs}
use khipu_v_fhe.Protocol.Requests.{parse_request-build_request}
use khipu_v_fhe.Server.{find_workload}
use khipu_v_fhe.Evidence.{le32}
use khipu_v_fhe.Hex.{to_hex}
use khipu_v_fhe.Zk.{setup, prove, prove_with, serialize_public_inputs, element}
use khipu_v_fhe.Zk.Keys.{initial}
use khipu_v_fhe.Zk.Messages.{zk_fields, zk_to_json, ZkResponse, build_zk_response, build_transcript}
use khipu_v_fhe.Zk.Server.{
  ZkFhe, ZkWorkload, ZkRun, Globals, respond_zk, dispatch_zk, evaluate_zk, compute, report,
  load_zk_keys, deserialize_eval_key_by_index, read_zk_ciphertexts, two_passes, prove_system,
  third_pass, zk_transcript, zk_reader_error, zk_trailing_error,
}
use khipu_v_fhe.Zk.Server.Independence.{respond_zk_eq}
use khipu_v_fhe.Zk.Server.Serving.{Sends, respond_zk-Sends}
use khipu_v_fhe.Zk.Client.{check_zk_response}
use khipu_v_fhe.Zk.Client.Accepting.{
  IsUnproved, check_zk_response_iff, Decrypts, respond_zk-check_zk_response,
}
use khipu_v_fhe.Zk.Verifying.{Proves}
use khipu_v_fhe.Client.{contains_text}
use khipu_v_fhe.Examples.{sample_request}
use khipu_v_fhe.Examples.Proofs.{clear_snark, clear_snark-IsSnark}

abbrev zk_fhe : ZkFhe clear_snark
zk_fhe = record {
  Context = Unit {0};
  Keys = List Bytes;
  Ciphertext = Bytes;
  ProofSystem = ℕ;
  no_keys = [];
  enable = λ f cc. cc;
  deserialize_eval_mult_key = λ kb keys. (ok true, kb ∷ keys);
  deserialize_eval_sum_key = λ kb keys. (ok true, kb ∷ keys);
  deserialize_eval_automorphism_key = λ kb keys. (ok true, kb ∷ keys);
  deserialize_ciphertext = ok;
  serialize_ciphertext = ok;
  proof_system = λ cc. 0;
  set_mode = λ m ps. ps;
  get_constraint_system = λ ps. ps;
  num_constraints = λ cs. 1;
  primary_input = λ ps. 3 ∷ 4 ∷ [];
  auxiliary_input = λ ps. 2;
}

abbrev first : List Bytes → Outcome Bytes
first [] = throw (text "no input")
first (ct ∷ cts) = ok ct

abbrev zk_noop : ZkWorkload clear_snark zk_fhe
zk_noop = record {
  make_context = ok tt;
  eval = λ cc keys inputs. first inputs;
  eval_zk = some (λ keys ps inputs. ok ([], 9));
}

abbrev registry : List (List ℕ × ZkWorkload clear_snark zk_fhe)
registry = (text "noop", zk_noop) ∷ []

abbrev zk_run : ZkRun
zk_run = record {
  eval_us = 11;
  witness_us = 12;
  proof_us = 13;
  loading_us = 14;
  transcript_us = 15;
  max_rss = 16;
  generator_seed = 1;
  prover_seed = 2;
}

abbrev fresh : Globals clear_snark zk_fhe
fresh = record { keys = []; cache = initial clear_snark }

abbrev used : Globals clear_snark zk_fhe
used = record {
  keys = (7 ∷ []) ∷ [];
  cache = record { cached_pk = some 5; cached_vk = some 5; keypair_valid = true };
}

abbrev request : Bytes
request = build_request sample_request

respond_zk_eq_example :
    (respond_zk clear_snark zk_fhe flat_json short_blake3 registry request zk_run fresh).0
    ≡ (respond_zk clear_snark zk_fhe flat_json short_blake3 registry request zk_run used).0
respond_zk_eq_example =
    respond_zk_eq clear_snark zk_fhe flat_json short_blake3 registry request zk_run fresh used

respond_zk-Sends_example :
    Sends clear_snark zk_fhe flat_json short_blake3 registry request zk_run
      (initial clear_snark)
      (respond_zk clear_snark zk_fhe flat_json short_blake3 registry request zk_run fresh)
respond_zk-Sends_example =
    respond_zk-Sends clear_snark zk_fhe flat_json short_blake3 registry request zk_run
      (initial clear_snark) clear_snark-IsSnark []

abbrev sample_response : ZkResponse
sample_response = record {
  output_ct = 4 ∷ 5 ∷ [];
  transcript_json = text "{}";
  proof = 2 ∷ [];
  public_inputs = 0 ∷ 0 ∷ 0 ∷ 0 ∷ [];
  vk = 9 ∷ [];
}

check_zk_response_iff_example :
    (check_zk_response clear_snark (build_zk_response sample_response) ≡ ok (some (4 ∷ 5 ∷ [])))
    ↔ (contains_text (text "\"error\"") (text "{}") ≡ false)
      × ((4 ∷ 5 ∷ []) ≡ sample_response.output_ct)
      × (IsUnproved sample_response ⊎ Proves clear_snark (2 ∷ []) (0 ∷ 0 ∷ 0 ∷ 0 ∷ []) (9 ∷ []))
unfolding build_zk_response write_blob be64 be_loop
check_zk_response_iff_example =
    check_zk_response_iff clear_snark sample_response (4 ∷ 5 ∷ []) (ltb→lt _ _ refl)

abbrev result_of : Outcome Bytes → Bytes
result_of (ok bytes) = bytes
result_of (throw e) = []
result_of fault = []

abbrev answered : Bytes
answered =
    result_of (respond_zk clear_snark zk_fhe flat_json short_blake3 registry request zk_run used).0

request-fits : length request < 2 ^ 63
unfolding build_request write_counted write_blobs write_blob write_u32_be be64 be_loop be32
request-fits = ltb→lt _ _ refl

answered_eq :
    (respond_zk clear_snark zk_fhe flat_json short_blake3 registry request zk_run used).0
    ≡ ok answered
unfolding respond_zk dispatch_zk evaluate_zk compute report find_workload load_zk_keys
    deserialize_eval_key_by_index read_zk_ciphertexts two_passes prove_system third_pass setup prove
    prove_with serialize_public_inputs zk_to_json zk_fields
answered_eq =
    rw
      (parse_request-build_request zk_reader_error zk_trailing_error sample_request request-fits
        (ltb→lt _ _ refl) (ltb→lt _ _ refl))
      refl

answered-fits : length answered < 2 ^ 63
unfolding respond_zk dispatch_zk evaluate_zk compute report find_workload load_zk_keys
    deserialize_eval_key_by_index read_zk_ciphertexts two_passes prove_system third_pass setup prove
    prove_with serialize_public_inputs zk_to_json zk_fields build_zk_response write_blob be64
    be_loop le32 element zk_transcript build_transcript to_hex
answered-fits =
    rw
      (parse_request-build_request zk_reader_error zk_trailing_error sample_request request-fits
        (ltb→lt _ _ refl) (ltb→lt _ _ refl))
      (ltb→lt _ _ refl)

respond_zk-check_zk_response_example :
    Decrypts clear_snark zk_fhe flat_json short_blake3 registry request zk_run answered
respond_zk-check_zk_response_example =
    respond_zk-check_zk_response clear_snark zk_fhe flat_json short_blake3 clear_snark-IsSnark
      registry request zk_run used answered answered_eq answered-fits
