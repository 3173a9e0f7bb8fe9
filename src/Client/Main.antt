-- ===== src/Client/Main.antt =====
-- The whole client: main of tee-vfhe/src/client/client_main.cpp. OpenFHE, the pseudo-random vectors of
-- the standard library and the connection to the server are parameters.
pub mod Running
pub mod Deciding
use khipu_v_fhe.Prelude.{
  ℕ, zero, suc, ◌+◌, ◌*◌, ◌%◌, List, [], ◌∷◌, ◌++◌, map, Bytes, Bool, true, false, not, ◌&&◌,
  Outcome, ok, throw, fault, ◌>>=◌, catch, text, length, is_empty, bytes_eq, ◌==◌, leb,
  if◌then◌else◌, Option, none, some,
}
use khipu_v_fhe.Libraries.{Blake3, JsonLib}
use khipu_v_fhe.Protocol.{Request, build_request}
use khipu_v_fhe.Verifier.{JsonNav, Dcap}
use khipu_v_fhe.Server.{find_workload}
use khipu_v_fhe.Workloads.{Scalars, Ckks, range}
use khipu_v_fhe.Client.{check_response}
use khipu_v_fhe.Client.Arguments.{Options, defaults, Parsed, run_with, exit_with, parse_args}
use khipu_v_fhe.Client.Mnist.{Stream, Encryption, gen_logreg_inputs}

-- `static_cast<uint8_t>(i * 31u + 7u)`
abbrev pub fallback_nonce : ℕ → Bytes
fallback_nonce n = map (λ i. (i * 31 + 7) % 256) (range n 0)

-- With what /dev/urandom gave, if it could be opened.
unfoldable pub random_nonce : Option Bytes → ℕ → Bytes
random_nonce none n = fallback_nonce n
random_nonce (some bytes) n = if length bytes == n then bytes else fallback_nonce n

pub record WorkloadSpec : Type 0 where
  pub id : List ℕ
  pub num_inputs : ℕ
  pub slots : ℕ
  pub seed_a : ℕ
  pub seed_b : ℕ

abbrev pub spec_of : List ℕ → ℕ → ℕ → ℕ → WorkloadSpec
spec_of id num_inputs slots seed_b = record {
  id = id;
  num_inputs = num_inputs;
  slots = slots;
  seed_a = 42;
  seed_b = seed_b;
}

-- `kWorkloads`
abbrev pub workload_specs : List WorkloadSpec
workload_specs =
    spec_of (text "toy") 2 32 123
    ∷ spec_of (text "small") 1 32 0
    ∷ spec_of (text "medium") 1 64 0
    ∷ spec_of (text "micro_add") 2 32 123
    ∷ spec_of (text "micro_mul") 2 32 123
    ∷ spec_of (text "micro_mul_rescale") 2 32 123
    ∷ spec_of (text "micro_rotate") 1 32 0
    ∷ spec_of (text "app_matvec") 1 256 0
    ∷ spec_of (text "app_inference") 1 128 0
    ∷ spec_of (text "noop") 1 32 0
    ∷ spec_of (text "logistic-regression") 21 32_768 0
    ∷ []

unfoldable pub find_spec : List ℕ → List WorkloadSpec → Option WorkloadSpec
find_spec workload_id [] = none
find_spec workload_id (s ∷ specs) =
    let rest = find_spec workload_id specs in if bytes_eq s.id workload_id then some s else rest

-- What the client calls of OpenFHE. `Keys` are the maps of evaluation keys that all contexts share.
pub record ClientFhe {A : Scalars} (C : Ckks A) : Type 1 where
  pub Context : Type 0
  pub KeyPair : Type 0
  pub Keys : Type 0
  pub no_keys : Keys
  pub key_gen : Context → Outcome KeyPair
  pub eval_mult_key_gen : Context → KeyPair → Keys → Outcome Keys
  pub serialize_eval_mult_key : Keys → KeyPair → Outcome (Bool × Bytes)
  pub serialize_eval_automorphism_key : Keys → KeyPair → Outcome (Bool × Bytes)
  pub gen_input_vec : ℕ → ℕ → List A.Scalar
  pub encrypt : Context → KeyPair → List A.Scalar → Outcome C.Ciphertext
  pub encryption : Context → KeyPair → Encryption C
  pub serialize_ciphertext : C.Ciphertext → Outcome Bytes
  pub deserialize_ciphertext : Bytes → Outcome C.Ciphertext
  pub decrypt : Context → KeyPair → C.Ciphertext → Outcome (List A.Scalar)

-- A blob that could be written and is not empty is kept.
abbrev pub kept : Bool × Bytes → List Bytes
kept (success, s) = if success && not (is_empty s) then s ∷ [] else []

-- The exit code, and the values that were decrypted, if it came to that.
pub record Exit (A : Scalars) : Type 0 where
  pub code : ℕ
  pub decrypted : Option (List A.Scalar)

module _ {A : Scalars} {C : Ckks A} (F : ClientFhe C) where
  open C use {Ciphertext}
  open F use {
    Context, KeyPair, Keys, no_keys, key_gen, eval_mult_key_gen, serialize_eval_mult_key,
    serialize_eval_automorphism_key, gen_input_vec, encrypt, encryption, serialize_ciphertext,
    deserialize_ciphertext, decrypt,
  }

  -- An entry of the client's registry; `gen_keys` may be empty.
  pub record ClientWorkload : Type 0 where
    pub make_context : Outcome Context
    pub gen_keys : Option (Context → KeyPair → Keys → Outcome Keys)

  unfoldable pub serialize_all_eval_keys : Keys → KeyPair → Outcome (List Bytes)
  serialize_all_eval_keys keys kp = do
    mult ← serialize_eval_mult_key keys kp
    auto ← serialize_eval_automorphism_key keys kp
    ok (kept mult ++ kept auto)

  unfoldable pub serialize_ciphertexts : List Ciphertext → Outcome (List Bytes)
  serialize_ciphertexts [] = ok []
  serialize_ciphertexts (ct ∷ cts) = do
    s ← serialize_ciphertext ct
    blobs ← serialize_ciphertexts cts
    ok (s ∷ blobs)

  unfoldable pub encrypt_seeded : Context → KeyPair → ℕ → ℕ → Outcome Bytes
  encrypt_seeded cc kp slots seed =
      encrypt cc kp (gen_input_vec slots seed) >>= serialize_ciphertext

  unfoldable pub spec_inputs : Context → KeyPair → Option WorkloadSpec → Outcome (List Bytes)
  spec_inputs cc kp none = ok []
  spec_inputs cc kp (some spec) = do
    s_a ← encrypt_seeded cc kp spec.slots spec.seed_a
    if leb 2 spec.num_inputs
        then (encrypt_seeded cc kp spec.slots spec.seed_b >>= λ s_b. ok (s_a ∷ s_b ∷ []))
        else ok (s_a ∷ [])

  unfoldable pub input_blobs : Context → KeyPair → Stream → List ℕ → Outcome (List Bytes)
  input_blobs cc kp file workload_id =
      if bytes_eq workload_id (text "logistic-regression")
      then (gen_logreg_inputs (encryption cc kp) file >>= serialize_ciphertexts)
      else spec_inputs cc kp (find_spec workload_id workload_specs)

  abbrev pub generated :
      Option (Context → KeyPair → Keys → Outcome Keys) → Context → KeyPair → Outcome Keys
  generated none cc kp = ok no_keys
  generated (some gen_keys) cc kp = gen_keys cc kp no_keys

  -- What is outside of the program: the random bytes, the file of the training data, and what comes
  -- back from a host and a port for a message.
  pub record Outside : Type 0 where
    pub urandom : Option Bytes
    pub mnist : Stream
    pub exchange : List ℕ → ℕ → Bytes → Outcome Bytes

  -- The secrets of a run and what it sends.
  pub record Prepared : Type 0 where
    pub cc : Context
    pub kp : KeyPair
    pub request : Request

  unfoldable pub prepare : Outside → List ℕ → ClientWorkload → Outcome Prepared
  prepare world workload_id workload = do
    cc ← workload.make_context
    kp ← key_gen cc
    keys ← generated workload.gen_keys cc kp
    keys' ← eval_mult_key_gen cc kp keys
    eval_keys ← serialize_all_eval_keys keys' kp
    input_cts ← input_blobs cc kp world.mnist workload_id
    ok (record {
      cc = cc;
      kp = kp;
      request = record {
        nonce = random_nonce world.urandom 16;
        eval_keys = eval_keys;
        input_cts = input_cts;
        workload_id = workload_id;
      };
    })

  -- From the verified output on.
  unfoldable pub decrypt_output : Prepared → Option Bytes → Outcome (Exit A)
  decrypt_output p none = ok (record { code = 1; decrypted = none })
  decrypt_output p (some output_ct_bytes) = do
    output_ct ← deserialize_ciphertext output_ct_bytes
    dec ← decrypt p.cc p.kp output_ct
    ok (record { code = 0; decrypted = some dec })

  module _ (J : JsonLib) (N : JsonNav J) (D : Dcap) (B : Blake3) where
    -- The `try` block of main for a workload of the registry.
    unfoldable pub run_workload : Outside → Options → ClientWorkload → Outcome (Exit A)
    run_workload world o workload = do
      p ← prepare world o.workload_id workload
      resp ← world.exchange o.host o.port (build_request p.request)
      output ← check_response J N D B p.request o.expected_mr_td resp
      decrypt_output p output

    abbrev pub run_found : Outside → Options → Option ClientWorkload → Outcome (Exit A)
    run_found world o none = ok (record { code = 1; decrypted = none })
    run_found world o (some workload) = run_workload world o workload

    unfoldable pub run_client :
        List (List ℕ × ClientWorkload) → Outside → Options → Outcome (Exit A)
    run_client registry world o =
        catch (run_found world o (find_workload o.workload_id registry))
          (λ e. ok (record { code = 1; decrypted = none }))

    abbrev pub started : List (List ℕ × ClientWorkload) → Outside → Parsed → Outcome (Exit A)
    started registry world (exit_with code) = ok (record { code = code; decrypted = none })
    started registry world (run_with o) = run_client registry world o

    -- On the arguments behind the program's name.
    unfoldable pub client_main :
        List (List ℕ × ClientWorkload) → Outside → List (List ℕ) → Outcome (Exit A)
    client_main registry world args = parse_args defaults args >>= started registry world
