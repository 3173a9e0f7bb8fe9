-- ===== src/Bgv/Main.antt =====
-- The client of Prototype E: main of tee-vfhe-bgvrns/src/client/client_main.cpp. The arguments and the
-- nonce are those of Prototype A. OpenFHE, the pseudo-random vectors and the connection are parameters.
pub mod Running
use khipu_v_fhe.Prelude.{
  ℕ, zero, suc, ◌+◌, ◌*◌, List, [], ◌∷◌, ◌++◌, Bytes, Bool, Outcome, ok, throw, fault, ◌>>=◌, catch,
  text, Option, none, some, ℤ,
}
use khipu_v_fhe.Libraries.{Blake3, JsonLib}
use khipu_v_fhe.Protocol.{Request, build_request}
use khipu_v_fhe.Verifier.{JsonNav, Dcap}
use khipu_v_fhe.Server.{find_workload}
use khipu_v_fhe.Client.Arguments.{Options, defaults, Parsed, run_with, exit_with, parse_args}
use khipu_v_fhe.Client.Main.{random_nonce, WorkloadSpec, find_spec, kept}
use khipu_v_fhe.Bgv.{bgv_check_response}

abbrev pub bgv_spec : List ℕ → ℕ → ℕ → ℕ → WorkloadSpec
bgv_spec id num_inputs slots seed_b = record {
  id = id;
  num_inputs = num_inputs;
  slots = slots;
  seed_a = 42;
  seed_b = seed_b;
}

-- `kWorkloads`
abbrev pub bgv_workload_specs : List WorkloadSpec
bgv_workload_specs =
    bgv_spec (text "noop") 1 64 0
    ∷ bgv_spec (text "toy") 2 64 123
    ∷ bgv_spec (text "small") 4 64 123
    ∷ bgv_spec (text "medium") 6 64 123
    ∷ bgv_spec (text "BGV-Add-4K") 2 4096 123
    ∷ bgv_spec (text "BGV-Mul-4K") 2 4096 123
    ∷ []

-- What the client calls of OpenFHE. `Keys` are the maps of evaluation keys that all contexts share.
pub record BgvClientFhe : Type 1 where
  pub Context : Type 0
  pub KeyPair : Type 0
  pub Keys : Type 0
  pub Ciphertext : Type 0
  pub no_keys : Keys
  pub key_gen : Context → Outcome KeyPair
  pub eval_mult_key_gen : Context → KeyPair → Keys → Outcome Keys
  pub serialize_eval_mult_key : Keys → Context → Outcome (Bool × Bytes)
  pub serialize_eval_sum_key : Keys → Context → Outcome (Bool × Bytes)
  pub serialize_eval_automorphism_key : Keys → Context → Outcome (Bool × Bytes)
  pub gen_input_vec : ℕ → ℕ → List ℤ
  pub encrypt : Context → KeyPair → List ℤ → Outcome Ciphertext
  pub serialize_ciphertext : Ciphertext → Outcome Bytes
  pub deserialize_ciphertext : Bytes → Outcome Ciphertext
  pub decrypt : Context → KeyPair → Ciphertext → ℕ → Outcome (List ℤ)

-- The exit code, and the values that were decrypted, if it came to that.
pub record BgvExit : Type 0 where
  pub code : ℕ
  pub decrypted : Option (List ℤ)

abbrev pub slots_of : Option WorkloadSpec → ℕ
slots_of none = 64
slots_of (some spec) = spec.slots

module _ (F : BgvClientFhe) where
  open F use {
    Context, KeyPair, Keys, Ciphertext, no_keys, key_gen, eval_mult_key_gen,
    serialize_eval_mult_key, serialize_eval_sum_key, serialize_eval_automorphism_key, gen_input_vec,
    encrypt, serialize_ciphertext, deserialize_ciphertext, decrypt,
  }

  -- An entry of the client's registry; `gen_keys` may be empty.
  pub record BgvClientWorkload : Type 0 where
    pub make_context : Outcome Context
    pub gen_keys : Option (Context → KeyPair → Keys → Outcome Keys)

  unfoldable pub bgv_serialize_all_eval_keys : Keys → Context → Outcome (List Bytes)
  bgv_serialize_all_eval_keys keys cc = do
    mult ← serialize_eval_mult_key keys cc
    sums ← serialize_eval_sum_key keys cc
    auto ← serialize_eval_automorphism_key keys cc
    ok (kept mult ++ (kept sums ++ kept auto))

  -- The inputs from `i` on: `int seed = spec->seed_a + i * spec->seed_b;`
  unfoldable pub bgv_inputs : Context → KeyPair → WorkloadSpec → ℕ → ℕ → Outcome (List Bytes)
  bgv_inputs cc kp spec zero i = ok []
  bgv_inputs cc kp spec (suc n) i = do
    ct ← encrypt cc kp (gen_input_vec spec.slots (spec.seed_a + i * spec.seed_b))
    s ← serialize_ciphertext ct
    blobs ← bgv_inputs cc kp spec n (suc i)
    ok (s ∷ blobs)

  unfoldable pub bgv_input_blobs : Context → KeyPair → Option WorkloadSpec → Outcome (List Bytes)
  bgv_input_blobs cc kp none = ok []
  bgv_input_blobs cc kp (some spec) = bgv_inputs cc kp spec spec.num_inputs 0

  abbrev pub bgv_generated :
      Option (Context → KeyPair → Keys → Outcome Keys) → Context → KeyPair → Outcome Keys
  bgv_generated none cc kp = ok no_keys
  bgv_generated (some gen_keys) cc kp = gen_keys cc kp no_keys

  -- What is outside of the program: the random bytes, and what comes back from a host and a port for a
  -- message.
  pub record BgvOutside : Type 0 where
    pub urandom : Option Bytes
    pub exchange : List ℕ → ℕ → Bytes → Outcome Bytes

  -- The secrets of a run and what it sends.
  pub record BgvPrepared : Type 0 where
    pub cc : Context
    pub kp : KeyPair
    pub request : Request

  unfoldable pub bgv_prepare : BgvOutside → List ℕ → BgvClientWorkload → Outcome BgvPrepared
  bgv_prepare world workload_id workload = do
    cc ← workload.make_context
    kp ← key_gen cc
    keys ← bgv_generated workload.gen_keys cc kp
    keys' ← eval_mult_key_gen cc kp keys
    eval_keys ← bgv_serialize_all_eval_keys keys' cc
    input_cts ← bgv_input_blobs cc kp (find_spec workload_id bgv_workload_specs)
    ok (record {
      cc = cc;
      kp = kp;
      request = record {
        nonce = random_nonce world.urandom 16;
        eval_keys = eval_keys;
        input_cts = input_cts;
        workload_id = workload_id;
      };
    })

  -- From the verified output on, for a plaintext of so many slots.
  unfoldable pub bgv_decrypt_output : BgvPrepared → ℕ → Option Bytes → Outcome BgvExit
  bgv_decrypt_output p slots none = ok (record { code = 1; decrypted = none })
  bgv_decrypt_output p slots (some output_ct_bytes) = do
    output_ct ← deserialize_ciphertext output_ct_bytes
    dec ← decrypt p.cc p.kp output_ct slots
    ok (record { code = 0; decrypted = some dec })

  module _ (J : JsonLib) (N : JsonNav J) (D : Dcap) (B : Blake3) where
    unfoldable pub bgv_run_workload : BgvOutside → Options → BgvClientWorkload → Outcome BgvExit
    bgv_run_workload world o workload = do
      p ← bgv_prepare world o.workload_id workload
      resp ← world.exchange o.host o.port (build_request p.request)
      output ← bgv_check_response J N D B p.request o.expected_mr_td resp
      bgv_decrypt_output p (slots_of (find_spec o.workload_id bgv_workload_specs)) output

    abbrev pub bgv_run_found : BgvOutside → Options → Option BgvClientWorkload → Outcome BgvExit
    bgv_run_found world o none = ok (record { code = 1; decrypted = none })
    bgv_run_found world o (some workload) = bgv_run_workload world o workload

    unfoldable pub bgv_run_client :
        List (List ℕ × BgvClientWorkload) → BgvOutside → Options → Outcome BgvExit
    bgv_run_client registry world o =
        catch (bgv_run_found world o (find_workload o.workload_id registry))
          (λ e. ok (record { code = 1; decrypted = none }))

    abbrev pub bgv_started :
        List (List ℕ × BgvClientWorkload) → BgvOutside → Parsed → Outcome BgvExit
    bgv_started registry world (exit_with code) = ok (record { code = code; decrypted = none })
    bgv_started registry world (run_with o) = bgv_run_client registry world o

    unfoldable pub bgv_client_main :
        List (List ℕ × BgvClientWorkload) → BgvOutside → List (List ℕ) → Outcome BgvExit
    bgv_client_main registry world args = parse_args defaults args >>= bgv_started registry world
