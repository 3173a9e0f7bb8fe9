-- ===== src/Client/Gpu/Main.antt =====
-- The whole client of Prototypes C and D: main of gpucc-vfhe/src/client/client_main.cpp. Its
-- arguments, nonce and inputs are those of Prototype A.
use khipu_v_fhe.Prelude.{
  ℕ, ◌+◌, List, [], ◌∷◌, Bytes, Outcome, ok, ◌>>=◌, catch, length, Option, none, some,
}
use khipu_v_fhe.Libraries.{Blake3, JsonLib}
use khipu_v_fhe.Transcript.{hash_concatenated}
use khipu_v_fhe.Protocol.{GpuRequest, build_gpu_request}
use khipu_v_fhe.Verifier.{JsonNav, Dcap}
use khipu_v_fhe.Server.{find_workload}
use khipu_v_fhe.Workloads.{Scalars, Ckks}
use khipu_v_fhe.Client.Arguments.{Options, defaults, Parsed, run_with, exit_with, parse_args}
use khipu_v_fhe.Client.Main.{
  random_nonce, ClientFhe, Exit, ClientWorkload, Outside, input_blobs, generated,
}
use khipu_v_fhe.Client.Gpu.{check_gpu_response}

pub record EvalKeysResult : Type 0 where
  pub blobs : List Bytes
  pub combined_hash : Bytes
  pub total_size : ℕ

-- What this client calls of OpenFHE besides: the keys of all contexts and the public key as they are
-- written. Whether the writing of the keys succeeded is not asked.
pub record GpuKeyWriting {A : Scalars} {C : Ckks A} (F : ClientFhe C) : Type 0 where
  pub serialize_eval_mult_key : F.Keys → Outcome Bytes
  pub serialize_eval_automorphism_key : F.Keys → Outcome Bytes
  pub serialize_public_key : F.KeyPair → Outcome Bytes

module _ {A : Scalars} {C : Ckks A} (F : ClientFhe C) (W : GpuKeyWriting F) (B : Blake3) where
  unfoldable pub serialize_eval_keys : F.Keys → Outcome EvalKeysResult
  serialize_eval_keys keys = do
    mult ← W.serialize_eval_mult_key keys
    auto ← W.serialize_eval_automorphism_key keys
    ok (record {
      blobs = mult ∷ auto ∷ [];
      combined_hash = hash_concatenated B (mult ∷ auto ∷ []);
      total_size = length mult + length auto;
    })

  -- The secrets of a run, the digest of its keys, and what it sends.
  pub record GpuPrepared : Type 0 where
    pub cc : F.Context
    pub kp : F.KeyPair
    pub key_hash : Bytes
    pub request : GpuRequest

  unfoldable pub gpu_prepare : Outside F → List ℕ → ClientWorkload F → Outcome GpuPrepared
  gpu_prepare world workload_id workload = do
    cc ← workload.make_context
    kp ← F.key_gen cc
    keys ← generated F workload.gen_keys cc kp
    keys' ← F.eval_mult_key_gen cc kp keys
    eval_keys ← serialize_eval_keys keys'
    public_key ← W.serialize_public_key kp
    input_cts ← input_blobs F cc kp world.mnist workload_id
    ok (record {
      cc = cc;
      kp = kp;
      key_hash = eval_keys.combined_hash;
      request = record {
        request = record {
          nonce = random_nonce world.urandom 16;
          eval_keys = eval_keys.blobs;
          input_cts = input_cts;
          workload_id = workload_id;
        };
        public_key = public_key;
      };
    })

  unfoldable pub gpu_decrypt_output : GpuPrepared → Option Bytes → Outcome (Exit A)
  gpu_decrypt_output p none = ok (record { code = 1; decrypted = none })
  gpu_decrypt_output p (some output_ct_bytes) = do
    output_ct ← F.deserialize_ciphertext output_ct_bytes
    dec ← F.decrypt p.cc p.kp output_ct
    ok (record { code = 0; decrypted = some dec })

  module _ (J : JsonLib) (N : JsonNav J) (D : Dcap) where
    unfoldable pub gpu_run_workload : Outside F → Options → ClientWorkload F → Outcome (Exit A)
    gpu_run_workload world o workload = do
      p ← gpu_prepare world o.workload_id workload
      resp ← world.exchange o.host o.port (build_gpu_request p.request)
      output ← check_gpu_response J N D B p.request.request p.key_hash o.expected_mr_td resp
      gpu_decrypt_output p output

    abbrev pub gpu_run_found : Outside F → Options → Option (ClientWorkload F) → Outcome (Exit A)
    gpu_run_found world o none = ok (record { code = 1; decrypted = none })
    gpu_run_found world o (some workload) = gpu_run_workload world o workload

    unfoldable pub gpu_run_client :
        List (List ℕ × ClientWorkload F) → Outside F → Options → Outcome (Exit A)
    gpu_run_client registry world o =
        catch (gpu_run_found world o (find_workload o.workload_id registry))
          (λ e. ok (record { code = 1; decrypted = none }))

    abbrev pub gpu_started :
        List (List ℕ × ClientWorkload F) → Outside F → Parsed → Outcome (Exit A)
    gpu_started registry world (exit_with code) = ok (record { code = code; decrypted = none })
    gpu_started registry world (run_with o) = gpu_run_client registry world o

    unfoldable pub gpu_client_main :
        List (List ℕ × ClientWorkload F) → Outside F → List (List ℕ) → Outcome (Exit A)
    gpu_client_main registry world args = parse_args defaults args >>= gpu_started registry world
