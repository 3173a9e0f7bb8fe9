-- ===== src/Examples/ZkClients.antt =====
-- A run of the client of Prototype B.
use khipu_v_fhe.Prelude.{
  ℕ, ◌+◌, ◌*◌, ◌≡◌, ◌<◌, ◌≤◌, refl, inr, List, [], ◌∷◌, Bytes, true, false, ok, fault, text, length,
  ltb→lt, some, none, pos, negsuc,
}
use khipu_v_fhe.Wire.{be_loop, be64, write_blob}
use khipu_v_fhe.Server.{find_workload}
use khipu_v_fhe.Client.{contains_text}
use khipu_v_fhe.Client.Arguments.{stoi, skip_spaces, leading_digits}
use khipu_v_fhe.Client.Main.{random_nonce}
use khipu_v_fhe.Zk.{deserialize_public_inputs, read_elements}
use khipu_v_fhe.Zk.Verifying.{Proves}
use khipu_v_fhe.Zk.Messages.{ZkResponse, build_zk_response}
use khipu_v_fhe.Zk.Client.{check_zk_response}
use khipu_v_fhe.Zk.Client.Accepting.{check_zk_response_iff}
use khipu_v_fhe.Zk.Client.Options.{zk_defaults, zk_run_with, zk_parse_args, overridden}
use khipu_v_fhe.Zk.Client.Main.{
  zk_seed, ZkClientFhe, ZkExit, ZkClientWorkload, ZkOutside, zk_gen_input_vec,
  zk_serialize_all_eval_keys, zk_inputs, zk_prepare, zk_decrypt_output, zk_run_workload,
  zk_run_client, zk_started, zk_client_main,
}
use khipu_v_fhe.Zk.Client.Main.Deciding.{ZkDecrypts, zk_client_main-ZkDecrypts}
use khipu_v_fhe.Zk.Client.Main.Overriding.{with_sizes, zk_started-with_sizes}
use khipu_v_fhe.Zk.Client.Main.Seeds.{EncryptsAll, zk_inputs_bounds}
use khipu_v_fhe.Examples.Proofs.{clear_snark}

abbrev zk_client : ZkClientFhe
zk_client = record {
  Context = Unit {0};
  KeyPair = ℕ;
  Keys = List ℕ;
  Ciphertext = Bytes;
  no_keys = [];
  key_gen = λ cc. ok 7;
  eval_mult_key_gen = λ cc kp keys. ok (kp ∷ keys);
  serialize_eval_mult_key = λ keys cc. ok (true, 1 ∷ 2 ∷ []);
  serialize_eval_sum_key = λ keys cc. ok (false, []);
  serialize_eval_automorphism_key = λ keys cc. ok (true, 3 ∷ []);
  draws = λ slots seed. seed ∷ [];
  encrypt = λ cc kp v. ok (4 ∷ 5 ∷ []);
  serialize_ciphertext = λ ct. ok ct;
  deserialize_ciphertext = λ b. ok b;
  decrypt = λ cc kp ct slots. ok (pos kp ∷ pos slots ∷ []);
}

abbrev client_registry : List (List ℕ × ZkClientWorkload zk_client)
client_registry = (text "noop", record { make_context = ok tt; gen_keys = none }) ∷ []

-- A response whose proof is accepted.
abbrev proved_response : ZkResponse
proved_response = record {
  output_ct = 4 ∷ 5 ∷ [];
  transcript_json = text "{}";
  proof = 9 ∷ [];
  public_inputs = 0 ∷ 0 ∷ 0 ∷ 0 ∷ [];
  vk = 9 ∷ [];
}

response-Proves :
    Proves clear_snark proved_response.proof proved_response.public_inputs proved_response.vk
unfolding deserialize_public_inputs read_elements
response-Proves = record {
  proof_filled = refl;
  vk_filled = refl;
  vk = 9;
  vk_read = refl;
  proof = 9;
  proof_read = refl;
  inputs = [];
  inputs_read = refl;
  valid = refl;
}

response_accepted :
    check_zk_response clear_snark (build_zk_response proved_response) ≡ ok (some (4 ∷ 5 ∷ []))
unfolding build_zk_response write_blob be64 be_loop contains_text
response_accepted =
    (check_zk_response_iff clear_snark proved_response (4 ∷ 5 ∷ []) (ltb→lt _ _ refl)).1
      (refl, refl, inr response-Proves)

abbrev outside : ZkOutside zk_client
outside = record {
  urandom = none;
  exchange = λ host port req. ok (build_zk_response proved_response);
}

abbrev args : List (List ℕ)
args = text "--workload" ∷ text "noop" ∷ text "--seed" ∷ text "7" ∷ []

abbrev zk_exit : ZkExit
zk_exit = record { code = 0; decrypted = some (pos 7 ∷ pos 64 ∷ []) }

zk_run : zk_client_main zk_client clear_snark client_registry outside args ≡ ok zk_exit
unfolding zk_client_main zk_run_client zk_run_workload zk_prepare zk_inputs zk_gen_input_vec
    zk_serialize_all_eval_keys zk_seed zk_decrypt_output zk_parse_args overridden find_workload
    random_nonce stoi skip_spaces leading_digits
zk_run = rw response_accepted refl

zk_client_main-ZkDecrypts_example :
    ZkDecrypts zk_client clear_snark client_registry outside args (pos 7 ∷ pos 64 ∷ [])
    × (zk_exit.code ≡ 0)
zk_client_main-ZkDecrypts_example =
    zk_client_main-ZkDecrypts zk_client clear_snark client_registry outside args zk_exit
      (pos 7 ∷ pos 64 ∷ []) zk_run refl

zk_started-with_sizes_example :
    zk_started zk_client clear_snark client_registry outside
      (zk_run_with (with_sizes zk_defaults (pos 9) (negsuc 0)))
    ≡ zk_started zk_client clear_snark client_registry outside (zk_run_with zk_defaults)
zk_started-with_sizes_example =
    zk_started-with_sizes zk_client clear_snark client_registry outside zk_defaults (pos 9)
      (negsuc 0) refl

client-EncryptsAll : EncryptsAll zk_client tt 7
client-EncryptsAll v = (4 ∷ 5 ∷ [], 4 ∷ 5 ∷ [], refl, refl)

zk_inputs_bounds_example :
    (42 + 1 * 123 < 2_147_483_648
      → (blobs : List Bytes) × (zk_inputs zk_client tt 7 zk_defaults 2 0 ≡ ok blobs)
        × (length blobs ≡ 2))
    × (2_147_483_648 ≤ 42 + 1 * 123 → zk_inputs zk_client tt 7 zk_defaults 2 0 ≡ fault)
zk_inputs_bounds_example =
    zk_inputs_bounds zk_client tt 7 client-EncryptsAll zk_defaults 64 42 refl refl 1
