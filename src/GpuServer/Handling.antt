-- ===== src/GpuServer/Handling.antt =====
-- When the server of Prototype C answers with evidence, and what it evaluates with.
use khipu_v_fhe.Prelude.{
  ℕ, ◌≡◌, ◌<◌, ◌^◌, ◌⊎◌, inl, inr, refl, ◌∙◌, List, ◌++◌, Bytes, Outcome, ok, throw, fault, text,
  length, Option, none, some,
}
use khipu_v_fhe.Libraries.{Blake3, JsonLib}
use khipu_v_fhe.Attestation.{Tdx}
use khipu_v_fhe.Evidence.Adapter.{Nvat}
use khipu_v_fhe.Protocol.{GpuRequest, build_gpu_request, parse_gpu_request, build_error_response}
use khipu_v_fhe.Protocol.Requests.{parse_gpu_request-build_gpu_request}
use khipu_v_fhe.Server.{find_workload, Times, stage_on, leaving, reader_error, trailing_error}
use khipu_v_fhe.GpuServer.{
  GpuFhe, GpuGlobals, GpuWorkload, set_client_public_key, load_gpu_keys, read_gpu_ciphertexts,
  attest_gpu, compute_gpu, evaluate_gpu, dispatch_gpu, respond_gpu,
}

module _ (J : JsonLib) (B : Blake3) (T : Tdx) (N : Nvat) (F : GpuFhe) where
  open F use {
    Context, Keys, PublicKey, Ciphertext, deserialize_public_key, get_crypto_context,
    serialize_ciphertext,
  }

  -- The workload is in the registry and every stage of its evaluation succeeds. It sees the public
  -- key of this request, and its evaluation keys on top of those that were in the maps.
  pub record GpuEvaluates (registry : List (List ℕ × GpuWorkload F)) (keys : Keys) (q : GpuRequest)
      (out : Bytes) : Type 0 where
    pub workload : GpuWorkload F
    pub found : find_workload q.workload_id registry ≡ some workload
    pub pk : PublicKey
    pub pk_read : deserialize_public_key q.public_key ≡ ok pk
    pub loaded : (load_gpu_keys F 0 q.eval_keys keys).0 ≡ ok tt
    pub cc : Context
    pub cc_eq : get_crypto_context pk ≡ ok cc
    pub inputs : List Ciphertext
    pub inputs_eq : read_gpu_ciphertexts F q.input_cts ≡ ok inputs
    pub result : Ciphertext
    pub evaluated :
        workload.eval cc
          (record { keys = (load_gpu_keys F 0 q.eval_keys keys).1; client_pk = some pk })
          inputs
        ≡ ok result
    pub serialized : serialize_ciphertext result ≡ ok out

  -- Then the server attests the output.
  pub respond_gpu-GpuEvaluates :
      (registry : List (List ℕ × GpuWorkload F)) (g : GpuGlobals F) (q : GpuRequest) (out : Bytes)
      (times : Times)
      → length (build_gpu_request q) < 2 ^ 63
      → length q.eval_keys < 2 ^ 32
      → length q.input_cts < 2 ^ 32
      → GpuEvaluates registry g.keys q out
      → (respond_gpu J B T N F registry (build_gpu_request q) times g).0
        ≡ attest_gpu J B T N q.request out times
  unfolding respond_gpu dispatch_gpu evaluate_gpu compute_gpu set_client_public_key
  respond_gpu-GpuEvaluates registry g q out times h hk hc e =
      rw
        (
          parse_gpu_request-build_gpu_request reader_error trailing_error q h hk hc,
          e.found,
          e.pk_read,
          e.loaded,
          e.cc_eq,
          e.inputs_eq,
          e.evaluated,
          e.serialized,
        )
        refl

  module _ (registry : List (List ℕ × GpuWorkload F)) (keys : Keys) (req : Bytes)
      (times : Times) where
    -- What an answer can be.
    unfoldable pub GpuSends : Outcome Bytes × GpuGlobals F → Type 0
    GpuSends (ok resp, g) =
        ((e : List ℕ) × (resp ≡ build_error_response e))
        ⊎ ((q : GpuRequest) × (out : Bytes) × (parse_gpu_request reader_error trailing_error req
              ≡ ok q)
            × GpuEvaluates registry keys q out
            × (attest_gpu J B T N q.request out times ≡ ok resp))
    GpuSends (throw e, g) = Unit
    GpuSends (fault, g) = Unit

    stage_on-GpuSends :
        {A : Type 0} (prefix : List ℕ) (o : Outcome A) (g : GpuGlobals F)
        (next : A → GpuGlobals F → Outcome Bytes × GpuGlobals F)
        → ((a : A) → o ≡ ok a → GpuSends (next a g))
        → GpuSends (stage_on build_error_response prefix (o, g) next)
    unfolding GpuSends
    stage_on-GpuSends prefix (ok a) g next h = h a refl
    stage_on-GpuSends prefix (throw e) g next h = inl (prefix ++ e, refl)
    stage_on-GpuSends prefix fault g next h = tt

    leaving-GpuSends :
        (o : Outcome Context) (g : GpuGlobals F)
        (next : Context → GpuGlobals F → Outcome Bytes × GpuGlobals F)
        → ((a : Context) → o ≡ ok a → GpuSends (next a g))
        → GpuSends (leaving (o, g) next)
    unfolding GpuSends
    leaving-GpuSends (ok a) g next h = h a refl
    leaving-GpuSends (throw e) g next h = tt
    leaving-GpuSends fault g next h = tt

    refused-GpuSends : (e : List ℕ) (g : GpuGlobals F) → GpuSends (ok (build_error_response e), g)
    unfolding GpuSends
    refused-GpuSends e g = inl (e, refl)

    attested-GpuSends :
        (q : GpuRequest) (out : Bytes) (g : GpuGlobals F)
        → parse_gpu_request reader_error trailing_error req ≡ ok q
        → GpuEvaluates registry keys q out
        → (o : Outcome Bytes) → attest_gpu J B T N q.request out times ≡ o
        → GpuSends (o, g)
    unfolding GpuSends
    attested-GpuSends q out g parsed e (ok resp) h = inr (q, out, parsed, e, h)
    attested-GpuSends q out g parsed e (throw msg) h = tt
    attested-GpuSends q out g parsed e fault h = tt

    found-GpuSends :
        (q : GpuRequest) (client_pk : Option PublicKey)
        → parse_gpu_request reader_error trailing_error req ≡ ok q
        → (o : Option (GpuWorkload F)) → find_workload q.workload_id registry ≡ o
        → GpuSends
            (dispatch_gpu J B T N F o q times (record { keys = keys; client_pk = client_pk }))
    unfolding dispatch_gpu evaluate_gpu compute_gpu set_client_public_key
    found-GpuSends q client_pk parsed none found =
        refused-GpuSends (text "unknown workload: " ++ q.workload_id) _
    found-GpuSends q client_pk parsed (some w) found =
        stage_on-GpuSends (text "bad public key: ") (deserialize_public_key q.public_key) _ _
          (λ pk pk_read.
            stage_on-GpuSends (text "bad eval key: ") (load_gpu_keys F 0 q.eval_keys keys).0 _ _
              (λ u loaded. leaving-GpuSends (get_crypto_context pk) _ _ (λ cc cc_eq.
                stage_on-GpuSends (text "bad ciphertext: ") (read_gpu_ciphertexts F q.input_cts) _ _
                  (λ inputs inputs_eq.
                    stage_on-GpuSends (text "eval failed: ")
                      (w.eval cc
                        (record {
                          keys = (load_gpu_keys F 0 q.eval_keys keys).1;
                          client_pk = some pk;
                        })
                        inputs)
                      _ _
                      (λ result evaluated.
                        stage_on-GpuSends (text "serialize failed: ") (serialize_ciphertext result)
                          _ _
                          (λ out serialized.
                            attested-GpuSends q out _ parsed
                              (record {
                                workload = w;
                                found = found;
                                pk = pk;
                                pk_read = pk_read;
                                loaded = loaded;
                                cc = cc;
                                cc_eq = cc_eq;
                                inputs = inputs;
                                inputs_eq = inputs_eq;
                                result = result;
                                evaluated = evaluated;
                                serialized = serialized;
                              })
                              _ refl))))))

    respond_gpu-GpuSends :
        (client_pk : Option PublicKey)
        → GpuSends (
            respond_gpu J B T N F registry req times
              (record { keys = keys; client_pk = client_pk }))
    unfolding respond_gpu
    respond_gpu-GpuSends client_pk =
        stage_on-GpuSends (text "bad request: ") (parse_gpu_request reader_error trailing_error req)
          _ (λ q g. dispatch_gpu J B T N F (find_workload q.workload_id registry) q times g)
          (λ q parsed.
            found-GpuSends q client_pk parsed (find_workload q.workload_id registry) refl)

  cases_of :
      (registry : List (List ℕ × GpuWorkload F)) (keys : Keys) (req : Bytes) (times : Times)
      (r : Outcome Bytes × GpuGlobals F) (resp : Bytes)
      → GpuSends registry keys req times r
      → r.0 ≡ ok resp
      → ((e : List ℕ) × (resp ≡ build_error_response e))
        ⊎ ((q : GpuRequest) × (out : Bytes) × (parse_gpu_request reader_error trailing_error req
              ≡ ok q)
            × GpuEvaluates registry keys q out
            × (attest_gpu J B T N q.request out times ≡ ok resp))
  unfolding GpuSends
  cases_of registry keys req times (ok r, g) resp (inl (e, same)) h = inl (e, cc)
  cases_of registry keys req times (ok r, g) resp (inr (q, out, parsed, e, attested)) h =
      inr (q, out, parsed, e, attested ∙ h)
  cases_of registry keys req times (throw e, g) resp sends h = cc
  cases_of registry keys req times (fault, g) resp sends h = cc

  -- Whatever the request and the state: an answer of Prototype C is an error response, or the request
  -- was parsed and evaluated with the client's own public key, and the answer attests the output.
  pub respond_gpu_cases :
      (registry : List (List ℕ × GpuWorkload F)) (req : Bytes) (times : Times) (g : GpuGlobals F)
      (resp : Bytes)
      → (respond_gpu J B T N F registry req times g).0 ≡ ok resp
      → ((e : List ℕ) × (resp ≡ build_error_response e))
        ⊎ ((q : GpuRequest) × (out : Bytes) × (parse_gpu_request reader_error trailing_error req
              ≡ ok q)
            × GpuEvaluates registry g.keys q out
            × (attest_gpu J B T N q.request out times ≡ ok resp))
  respond_gpu_cases registry req times g resp h =
      cases_of registry g.keys req times (respond_gpu J B T N F registry req times g) resp
        (respond_gpu-GpuSends registry g.keys req times g.client_pk) h
