-- ===== src/Server/Handling.antt =====
-- When the server answers with evidence, and when with an error.
use khipu_v_fhe.Prelude.{
  ℕ, ◌^◌, ◌<◌, ◌≡◌, ◌⊎◌, inl, inr, refl, List, ◌++◌, Bytes, Outcome, ok, throw, fault, >>=-eq-ok,
  text, length, Option, none, some,
}
use khipu_v_fhe.Libraries.{Blake3, JsonLib}
use khipu_v_fhe.Attestation.{Tdx}
use khipu_v_fhe.Protocol.{Request, build_request, parse_request, build_error_response}
use khipu_v_fhe.Protocol.Requests.{parse_request-build_request}
use khipu_v_fhe.Server.{
  Fhe, Workload, find_workload, Times, stage, reader_error, trailing_error, load_keys,
  read_ciphertexts, attest, evaluate, dispatch, respond,
}

-- A stage that answers at all passes its value on or answers with an error.
stage_cases {ℓ} :
    {A : Type ℓ} (prefix : List ℕ) (m : Outcome A) (next : A → Outcome Bytes) {resp : Bytes}
    → stage prefix m next ≡ ok resp
    → ((a : A) × (m ≡ ok a) × (next a ≡ ok resp)) ⊎ ((e : List ℕ) × (resp ≡ build_error_response e))
unfolding stage
stage_cases prefix (ok a) next h = inl (a, refl, h)
stage_cases prefix (throw e) next h = inr (prefix ++ e, cc)
stage_cases prefix fault next h = cc

module _ (J : JsonLib) (B : Blake3) (T : Tdx) (F : Fhe) where
  open F use {Context, Keys, Ciphertext, serialize_ciphertext}

  -- The workload is in the registry and every stage of its evaluation succeeds.
  pub record Evaluates (registry : List (List ℕ × Workload F)) (keys : Keys) (q : Request)
      (out : Bytes) : Type 0 where
    pub workload : Workload F
    pub found : find_workload q.workload_id registry ≡ some workload
    pub cc : Context
    pub made : workload.make_context ≡ ok cc
    pub loaded_keys : Keys
    pub loaded : load_keys F q.eval_keys keys ≡ ok loaded_keys
    pub inputs : List Ciphertext
    pub input_cts : read_ciphertexts F q.input_cts ≡ ok inputs
    pub result : Ciphertext
    pub evaluated : workload.eval cc loaded_keys inputs ≡ ok result
    pub serialized : serialize_ciphertext result ≡ ok out

  -- Then the server attests the output.
  pub respond-Evaluates :
      (registry : List (List ℕ × Workload F)) (keys : Keys) (q : Request) (out : Bytes)
      (times : Times)
      → length (build_request q) < 2 ^ 63
      → length q.eval_keys < 2 ^ 32
      → length q.input_cts < 2 ^ 32
      → Evaluates registry keys q out
      → respond J B T F registry keys (build_request q) times ≡ attest J B T q out times
  unfolding respond dispatch evaluate stage
  respond-Evaluates registry keys q out times h hk hc e =
      rw
        (
          parse_request-build_request reader_error trailing_error q h hk hc,
          e.found,
          e.made,
          e.loaded,
          e.input_cts,
          e.evaluated,
          e.serialized,
        )
        refl

  dispatch_cases :
      (keys : Keys) (q : Request) (times : Times) (o : Option (Workload F)) {resp : Bytes}
      → dispatch J B T F o keys q times ≡ ok resp
      → ((e : List ℕ) × (resp ≡ build_error_response e))
        ⊎ ((workload : Workload F) × (o ≡ some workload)
            × (evaluate J B T F workload keys q times ≡ ok resp))
  unfolding dispatch
  dispatch_cases keys q times none h = inl (text "unknown workload: " ++ q.workload_id, cc)
  dispatch_cases keys q times (some workload) h = inr (workload, refl, h)

  -- Whatever the request: an answer is an error response, or the request was parsed and evaluated
  -- and the answer attests the serialized output.
  pub respond_cases :
      (registry : List (List ℕ × Workload F)) (keys : Keys) (req : Bytes) (times : Times)
      (resp : Bytes)
      → respond J B T F registry keys req times ≡ ok resp
      → ((q : Request) × (out : Bytes) × (parse_request reader_error trailing_error req ≡ ok q)
          × Evaluates registry keys q out
          × (attest J B T q out times ≡ ok resp))
        ⊎ ((e : List ℕ) × (resp ≡ build_error_response e))
  unfolding respond dispatch evaluate
  respond_cases registry keys req times resp h = elim (stage_cases _ _ _ h) [
    | inr e ↦ inr e
    | inl (q, parsed, h1) ↦ elim (dispatch_cases keys q times _ h1) [
      | inl missing ↦ inr missing
      | inr (workload, found, h1') ↦
          let (cc0, made, h2) = >>=-eq-ok workload.make_context _ h1' in
          elim (stage_cases _ _ _ h2) [
            | inr e ↦ inr e
            | inl (loaded_keys, loaded, h3) ↦ elim (stage_cases _ _ _ h3) [
              | inr e ↦ inr e
              | inl (inputs, input_cts, h4) ↦ elim (stage_cases _ _ _ h4) [
                | inr e ↦ inr e
                | inl (result, evaluated, h5) ↦ elim (stage_cases _ _ _ h5) [
                  | inr e ↦ inr e
                  | inl (out, serialized, h6) ↦ inl (
                    q,
                    out,
                    parsed,
                    record {
                      workload = workload;
                      found = found;
                      cc = cc0;
                      made = made;
                      loaded_keys = loaded_keys;
                      loaded = loaded;
                      inputs = inputs;
                      input_cts = input_cts;
                      result = result;
                      evaluated = evaluated;
                      serialized = serialized;
                    },
                    h6,
                  )
                ]
              ]
            ]
          ]
    ]
  ]
