-- ===== src/Client/Main/Running.antt =====
-- A whole run of the client against an honest server.
use khipu_v_fhe.Prelude.{
  ℕ, zero, suc, ◌+◌, ◌*◌, ◌%◌, ◌^◌, ◌<◌, ◌≡◌, refl, sym, ap, subst, arith, List, map, Bytes, IsByte,
  All, ok, >>=-eq-ok, ok_same, length, ◌==◌, ==_iff, Bool-cases, inl, inr, Option, none, some,
}
use khipu_v_fhe.Libraries.{Blake3, JsonLib, IsJson}
use khipu_v_fhe.Protocol.{build_request}
use khipu_v_fhe.Verifier.{JsonNav, Dcap}
use khipu_v_fhe.Attestation.{Tdx}
use khipu_v_fhe.Server.{Fhe, Workload, Times, find_workload, respond}
use khipu_v_fhe.Server.Handling.{Evaluates}
use khipu_v_fhe.Server.Serving.{Runs, respond-check_response}
use khipu_v_fhe.Workloads.{Scalars, Ckks, range}
use khipu_v_fhe.Client.Arguments.{Options, defaults, run_with, parse_args}
use khipu_v_fhe.Client.Main.{
  random_nonce, ClientFhe, ClientWorkload, Outside, Prepared, generated, serialize_all_eval_keys,
  input_blobs, prepare, decrypt_output, run_workload, run_client, client_main,
}

-- What /dev/urandom gives are bytes.
abbrev pub AreBytes : Option Bytes → Type 0
AreBytes none = Unit {0}
AreBytes (some bytes) = All IsByte bytes

fallback_bytes : (k d : ℕ) → All IsByte (map (λ i. (i * 31 + 7) % 256) (range k d))
fallback_bytes zero d = tt
fallback_bytes (suc k) d = (omega arith, fallback_bytes k (suc d))

fallback_length : (k d : ℕ) → length (map (λ i. (i * 31 + 7) % 256) (range k d)) ≡ k
fallback_length zero d = refl
fallback_length (suc k) d = ap suc (fallback_length k (suc d))

-- The nonce has the length that was asked for and consists of bytes, whether /dev/urandom can be read
-- or not.
pub random_nonce_lem :
    (bytes : Option Bytes) (n : ℕ)
    → AreBytes bytes
    → All IsByte (random_nonce bytes n) × (length (random_nonce bytes n) ≡ n)
unfolding random_nonce
random_nonce_lem none n h = (fallback_bytes n 0, fallback_length n 0)
random_nonce_lem (some bytes) n h = elim (Bool-cases (length bytes == n)) [
  | inl full ↦ rw full (h, (==_iff (length bytes) n).0 full)
  | inr short ↦ rw short (fallback_bytes n 0, fallback_length n 0)
]

module _ {A : Scalars} {C : Ckks A} (F : ClientFhe C) where
  prepare-nonce :
      (world : Outside F) (id : List ℕ) (workload : ClientWorkload F) (p : Prepared F)
      → prepare F world id workload ≡ ok p
      → p.request.nonce ≡ random_nonce world.urandom 16
  unfolding prepare
  prepare-nonce world id workload p h =
      let (cc, e0, h0) = >>=-eq-ok workload.make_context _ h in
      let (kp, e1, h1) = >>=-eq-ok (F.key_gen cc) _ h0 in
      let (keys, e2, h2) = >>=-eq-ok (generated F workload.gen_keys cc kp) _ h1 in
      let (keys', e3, h3) = >>=-eq-ok (F.eval_mult_key_gen cc kp keys) _ h2 in
      let (eval_keys, e4, h4) = >>=-eq-ok (serialize_all_eval_keys F keys' kp) _ h3 in
      let (input_cts, e5, h5) = >>=-eq-ok (input_blobs F cc kp world.mnist id) _ h4 in
      let made : record {
        cc = cc;
        kp = kp;
        request = record {
          nonce = random_nonce world.urandom 16;
          eval_keys = eval_keys;
          input_cts = input_cts;
          workload_id = id;
        };
      }
          ≡ p =
        ok_same h5 in
      ap (λ (p : Prepared F). p.request.nonce) (sym made)

  -- For options that are read and a workload that is known, a client whose keys and inputs are made
  -- exits with 0 and the values of the output, if the connection brings back the answer of a server
  -- that can evaluate the request and attest it, and the output can be decrypted.
  pub client_main-respond :
      (J : JsonLib) (N : JsonNav J) (D : Dcap) (B : Blake3) (T : Tdx) (S : Fhe)
      (registry : List (List ℕ × ClientWorkload F)) (world : Outside F) (args : List (List ℕ))
      (o : Options) (workload : ClientWorkload F) (p : Prepared F)
      (server_registry : List (List ℕ × Workload S)) (keys : S.Keys) (out : Bytes) (times : Times)
      (output_ct : C.Ciphertext) (dec : List A.Scalar)
      → IsJson J
      → AreBytes world.urandom
      → parse_args defaults args ≡ ok (run_with o)
      → find_workload o.workload_id registry ≡ some workload
      → prepare F world o.workload_id workload ≡ ok p
      → length (build_request p.request) < 2 ^ 63
      → length p.request.eval_keys < 2 ^ 32
      → length p.request.input_cts < 2 ^ 32
      → Evaluates J B T S server_registry keys p.request out
      → Runs J N D B T p.request o.expected_mr_td out times
      → world.exchange o.host o.port (build_request p.request)
        ≡ respond J B T S server_registry keys (build_request p.request) times
      → F.deserialize_ciphertext out ≡ ok output_ct
      → F.decrypt p.cc p.kp output_ct ≡ ok dec
      → client_main F J N D B registry world args ≡ ok (record { code = 0; decrypted = some dec })
  unfolding client_main run_client run_workload decrypt_output
  client_main-respond J N D B T S registry world args o workload p server_registry keys out times
        output_ct dec L random read found prepared h hk hc e r delivered deserialized decrypted =
      let nonce : All IsByte p.request.nonce =
        subst (All IsByte) (sym (prepare-nonce world o.workload_id workload p prepared))
          (random_nonce_lem world.urandom 16 random).0 in
      let (resp, answered, accepted) =
        respond-check_response J N D B T S server_registry keys p.request o.expected_mr_td out times
          L nonce h hk hc e r in
      rw (read, found, prepared, delivered, answered, accepted, deserialized, decrypted) refl
