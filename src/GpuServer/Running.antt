-- ===== src/GpuServer/Running.antt =====
-- A whole run of the client of Prototype C against an honest server.
use khipu_v_fhe.Prelude.{
  ℕ, ◌^◌, ◌<◌, ◌≡◌, refl, sym, subst, List, Bytes, IsByte, All, ok, >>=-eq-ok, ok_same, length,
  some,
}
use khipu_v_fhe.Libraries.{Blake3, JsonLib, IsJson}
use khipu_v_fhe.Transcript.{hash_concatenated}
use khipu_v_fhe.Protocol.{build_gpu_request}
use khipu_v_fhe.Verifier.{JsonNav, Dcap}
use khipu_v_fhe.Attestation.{Tdx}
use khipu_v_fhe.Evidence.Adapter.{Nvat}
use khipu_v_fhe.Server.{Times, find_workload}
use khipu_v_fhe.Workloads.{Scalars, Ckks}
use khipu_v_fhe.Client.Arguments.{Options, defaults, run_with, parse_args}
use khipu_v_fhe.Client.Main.{
  random_nonce, ClientFhe, ClientWorkload, Outside, input_blobs, generated,
}
use khipu_v_fhe.Client.Main.Running.{AreBytes, random_nonce_lem}
use khipu_v_fhe.Client.Gpu.Main.{
  EvalKeysResult, GpuKeyWriting, serialize_eval_keys, GpuPrepared, gpu_prepare, gpu_decrypt_output,
  gpu_run_workload, gpu_run_client, gpu_client_main,
}
use khipu_v_fhe.GpuServer.{GpuFhe, GpuGlobals, GpuWorkload, respond_gpu}
use khipu_v_fhe.GpuServer.Handling.{GpuEvaluates}
use khipu_v_fhe.GpuServer.Exchange.{GpuRuns, respond_gpu-check_gpu_response}

module _ {A : Scalars} {C : Ckks A} (F : ClientFhe C) (W : GpuKeyWriting F) (B : Blake3) where
  combined :
      (keys : F.Keys) (r : EvalKeysResult)
      → serialize_eval_keys F W B keys ≡ ok r
      → r.combined_hash ≡ hash_concatenated B r.blobs
  unfolding serialize_eval_keys
  combined keys r h =
      let (mult, e0, h0) = >>=-eq-ok (W.serialize_eval_mult_key keys) _ h in
      let (auto, e1, h1) = >>=-eq-ok (W.serialize_eval_automorphism_key keys) _ h0 in
      subst (λ (r : EvalKeysResult). r.combined_hash ≡ hash_concatenated B r.blobs) (ok_same h1)
        refl

  -- What a prepared request is known to hold.
  record GpuPrepares (world : Outside F) (p : GpuPrepared F W B) : Type 0 where
    nonce : p.request.nonce ≡ random_nonce world.urandom 16
    hashed : p.key_hash ≡ hash_concatenated B p.request.eval_keys

  gpu_prepare→ :
      (world : Outside F) (id : List ℕ) (workload : ClientWorkload F) (p : GpuPrepared F W B)
      → gpu_prepare F W B world id workload ≡ ok p
      → GpuPrepares world p
  unfolding gpu_prepare
  gpu_prepare→ world id workload p h =
      let (cc, e0, h0) = >>=-eq-ok workload.make_context _ h in
      let (kp, e1, h1) = >>=-eq-ok (F.key_gen cc) _ h0 in
      let (keys, e2, h2) = >>=-eq-ok (generated F workload.gen_keys cc kp) _ h1 in
      let (keys', e3, h3) = >>=-eq-ok (F.eval_mult_key_gen cc kp keys) _ h2 in
      let (r, e4, h4) = >>=-eq-ok (serialize_eval_keys F W B keys') _ h3 in
      let (pk, e5, h5) = >>=-eq-ok (W.serialize_public_key kp) _ h4 in
      let (input_cts, e6, h6) = >>=-eq-ok (input_blobs F cc kp world.mnist id) _ h5 in
      subst (GpuPrepares world) (ok_same h6) (record { nonce = refl; hashed = combined keys' r e4 })

  -- For options that are read and a workload that is known, a client of Prototype C whose keys and
  -- inputs are made exits with 0 and the values of the output, if the connection brings back the
  -- answer of a server that can evaluate the request and attest it with the evidence of its GPU, and
  -- the output can be decrypted.
  pub gpu_client_main-respond_gpu :
      (J : JsonLib) (N : JsonNav J) (D : Dcap) (T : Tdx) (V : Nvat) (S : GpuFhe)
      (registry : List (List ℕ × ClientWorkload F)) (world : Outside F) (args : List (List ℕ))
      (o : Options) (workload : ClientWorkload F) (p : GpuPrepared F W B)
      (server_registry : List (List ℕ × GpuWorkload S)) (g : GpuGlobals S) (out : Bytes)
      (times : Times) (output_ct : C.Ciphertext) (dec : List A.Scalar)
      → IsJson J
      → AreBytes world.urandom
      → parse_args defaults args ≡ ok (run_with o)
      → find_workload o.workload_id registry ≡ some workload
      → gpu_prepare F W B world o.workload_id workload ≡ ok p
      → length (build_gpu_request p.request) < 2 ^ 63
      → length p.request.eval_keys < 2 ^ 32
      → length p.request.input_cts < 2 ^ 32
      → GpuEvaluates J B T V S server_registry g.keys p.request out
      → GpuRuns J N D B T V p.request.request o.expected_mr_td out times
      → world.exchange o.host o.port (build_gpu_request p.request)
        ≡ (respond_gpu J B T V S server_registry (build_gpu_request p.request) times g).0
      → F.deserialize_ciphertext out ≡ ok output_ct
      → F.decrypt p.cc p.kp output_ct ≡ ok dec
      → gpu_client_main F W B J N D registry world args
        ≡ ok (record { code = 0; decrypted = some dec })
  unfolding gpu_client_main gpu_run_client gpu_run_workload gpu_decrypt_output
  gpu_client_main-respond_gpu J N D T V S registry world args o workload p server_registry g out
        times output_ct dec L random read found prepared h hk hc e r delivered deserialized
        decrypted =
      let holds = gpu_prepare→ world o.workload_id workload p prepared in
      let nonce : All IsByte p.request.nonce =
        subst (All IsByte) (sym holds.nonce) (random_nonce_lem world.urandom 16 random).0 in
      let (resp, answered, accepted) =
        respond_gpu-check_gpu_response J N D B T V S server_registry g p.request o.expected_mr_td
          out times L nonce h hk hc e r in
      let known = holds.hashed in
      rw (read, found, prepared, delivered, answered, known, accepted, deserialized, decrypted) refl
