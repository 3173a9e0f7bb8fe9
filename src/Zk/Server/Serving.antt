-- ===== src/Zk/Server/Serving.antt =====
-- What an answer of the server of Prototype B carries, and what it leaves in the process.
use khipu_v_fhe.Prelude.{
  ℕ, ◌≡◌, refl, ◌∙◌, List, ◌++◌, Bytes, Outcome, ok, throw, fault, ◌>>=◌, text, ◌⊎◌, inl, inr,
  Option, none, some,
}
use khipu_v_fhe.Libraries.{Blake3, JsonLib}
use khipu_v_fhe.Protocol.{Request, parse_request}
use khipu_v_fhe.Server.{find_workload, stage_on, leaving}
use khipu_v_fhe.Zk.{Snark, IsSnark, Cache}
use khipu_v_fhe.Zk.Keys.{initial}
use khipu_v_fhe.Zk.Messages.{ZkResponse, build_zk_response, build_zk_error_response, zk_to_json}
use khipu_v_fhe.Zk.Server.{
  ZkFhe, ZkWorkload, ZkRun, Proved, Globals, load_zk_keys, read_zk_ciphertexts, enabled,
  zk_transcript, report, with_cache, compute, evaluate_zk, dispatch_zk, respond_zk, zk_reader_error,
  zk_trailing_error,
}
use khipu_v_fhe.Zk.Server.Proving.{IsAccepted, Leaves, Leaves-zk_block}

module _ (S : Snark) (F : ZkFhe S) (J : JsonLib) (B : Blake3) where
  open F use {Context, Keys, Ciphertext, no_keys, serialize_ciphertext}

  module _ (registry : List (List ℕ × ZkWorkload S F)) (req : Bytes) (run : ZkRun) where
    -- A response that carries the output of an evaluation: the request was parsed, its workload is in
    -- the registry and every stage succeeds, with no evaluation key but those of the request, and the
    -- proof is accepted or absent.
    pub record Carries : Type 0 where
      pub q : Request
      pub parsed : parse_request zk_reader_error zk_trailing_error req ≡ ok q
      pub workload : ZkWorkload S F
      pub found : find_workload q.workload_id registry ≡ some workload
      pub made : Context
      pub made_eq : workload.make_context ≡ ok made
      pub loaded : (load_zk_keys S F 0 q.eval_keys no_keys).0 ≡ ok tt
      pub inputs : List Ciphertext
      pub inputs_eq : read_zk_ciphertexts S F q.input_cts ≡ ok inputs
      pub result : Ciphertext
      pub evaluated :
          workload.eval (enabled S F made) (load_zk_keys S F 0 q.eval_keys no_keys).1 inputs
          ≡ ok result
      pub output : Bytes
      pub serialized : serialize_ciphertext result ≡ ok output
      pub proved : Proved
      pub accepted : IsAccepted S proved
      pub json : List ℕ
      pub written : zk_to_json J (zk_transcript J B q output proved run) ≡ ok json

    abbrev pub carried : Carries → ZkResponse
    carried c = record {
      output_ct = c.output;
      transcript_json = c.json;
      proof = c.proved.proof_bytes;
      public_inputs = c.proved.pi_bytes;
      vk = c.proved.vk_bytes;
    }

    -- What may become of a request at a process with the given cached keys.
    abbrev pub Kept : Cache S → Globals S F → Type 0
    Kept cache g = (g.cache ≡ cache) ⊎ (g.cache ≡ initial S)

    abbrev pub Sends : Cache S → Outcome Bytes × Globals S F → Type 0
    Sends cache (ok resp, g) =
        (((e : List ℕ) × (resp ≡ build_zk_error_response e))
          ⊎ ((c : Carries) × (resp ≡ build_zk_response (carried c))))
        × Kept cache g
    Sends cache (throw e, g) = Kept cache g
    Sends cache (fault, g) = Unit

    module _ (cache : Cache S) where
      stage_on-Sends :
          {A : Type 0} (prefix : List ℕ) (o : Outcome A) (g : Globals S F)
          (next : A → Globals S F → Outcome Bytes × Globals S F)
          → Kept cache g
          → ((a : A) → o ≡ ok a → Sends cache (next a g))
          → Sends cache (stage_on build_zk_error_response prefix (o, g) next)
      stage_on-Sends prefix (ok a) g next k h = h a refl
      stage_on-Sends prefix (throw e) g next k h = (inl (prefix ++ e, refl), k)
      stage_on-Sends prefix fault g next k h = tt

      leaving-Sends :
          (o : Outcome Context) (g : Globals S F)
          (next : Context → Globals S F → Outcome Bytes × Globals S F)
          → Kept cache g
          → ((a : Context) → o ≡ ok a → Sends cache (next a g))
          → Sends cache (leaving (o, g) next)
      leaving-Sends (ok a) g next k h = h a refl
      leaving-Sends (throw e) g next k h = k
      leaving-Sends fault g next k h = tt

      Kept-with_cache :
          (g : Globals S F) (c : Cache S)
          → Kept cache g
          → (c ≡ g.cache) ⊎ (c ≡ initial S)
          → Kept cache (record g { cache = c })
      Kept-with_cache g c (inl k) (inl e) = inl (e ∙ k)
      Kept-with_cache g c (inr k) (inl e) = inr (e ∙ k)
      Kept-with_cache g c k (inr e) = inr e

      block-Sends :
          (r : Outcome Proved × Cache S) (g : Globals S F)
          (next : Proved → Globals S F → Outcome Bytes × Globals S F)
          → Kept cache g
          → Leaves S g.cache r
          → ((p : Proved) (g' : Globals S F)
              → IsAccepted S p
              → Kept cache g'
              → Sends cache (next p g'))
          → Sends cache (leaving (with_cache S F J B g r) next)
      block-Sends (ok p, c) g next k (accepted, left) h =
          h p _ accepted (Kept-with_cache g c k left)
      block-Sends (throw e, c) g next k left h = Kept-with_cache g c k (inl left)
      block-Sends (fault, c) g next k left h = tt

      report-Sends :
          (o : Outcome (List ℕ)) (g : Globals S F) (answer : List ℕ → Bytes)
          → Kept cache g
          → ((json : List ℕ)
              → o ≡ ok json
              → (c : Carries) × (answer json ≡ build_zk_response (carried c)))
          → Sends cache (o >>= λ json. ok (answer json), g)
      report-Sends (ok json) g answer k h = (inr (h json refl), k)
      report-Sends (throw e) g answer k h = k
      report-Sends fault g answer k h = tt

      module _ (L : IsSnark S) where
        -- Whatever the request and the state: an answer is an error response, or it carries what the
        -- request's own keys evaluate to, with a proof that is accepted or absent; and no key pair for
        -- proofs is left in the process but one that was there before.
        pub respond_zk-Sends :
            (keys : Keys)
            → Sends cache
                (respond_zk S F J B registry req run (record { keys = keys; cache = cache }))
        unfolding respond_zk dispatch_zk evaluate_zk compute report
        respond_zk-Sends keys =
            stage_on-Sends (text "bad request: ")
              (parse_request zk_reader_error zk_trailing_error req)
              (record { keys = keys; cache = cache })
              (λ q g. dispatch_zk S F J B (find_workload q.workload_id registry) q run g) (inl refl)
              (λ q parsed. found-Sends q parsed (find_workload q.workload_id registry) refl)
          where
            found-Sends :
                (q : Request)
                → parse_request zk_reader_error zk_trailing_error req ≡ ok q
                → (o : Option (ZkWorkload S F)) → find_workload q.workload_id registry ≡ o
                → Sends cache (dispatch_zk S F J B o q run (record { keys = keys; cache = cache }))
            found-Sends q parsed none found =
                (inl (text "unknown workload: " ++ q.workload_id, refl), inl refl)
            found-Sends q parsed (some w) found =
                leaving-Sends w.make_context _ _ (inl refl) (λ made made_eq.
                  stage_on-Sends (text "bad key: ") (load_zk_keys S F 0 q.eval_keys no_keys).0 _ _
                    (inl refl)
                    (λ u loaded.
                      stage_on-Sends (text "bad ct: ") (read_zk_ciphertexts S F q.input_cts) _ _
                        (inl refl)
                        (λ inputs inputs_eq.
                          stage_on-Sends (text "eval failed: ")
                            (w.eval (enabled S F made) (load_zk_keys S F 0 q.eval_keys no_keys).1
                              inputs)
                            _ _ (inl refl)
                            (λ result evaluated.
                              block-Sends _ _ _ (inl refl)
                                (Leaves-zk_block S F L w.eval_zk (enabled S F made) _ q.input_cts
                                  run cache)
                                (λ p g' accepted k.
                                  stage_on-Sends (text "serialize: ") (serialize_ciphertext result)
                                    g' _ k
                                    (λ output serialized. report-Sends _ g' _ k (λ json written. (
                                      record {
                                        q = q;
                                        parsed = parsed;
                                        workload = w;
                                        found = found;
                                        made = made;
                                        made_eq = made_eq;
                                        loaded = loaded;
                                        inputs = inputs;
                                        inputs_eq = inputs_eq;
                                        result = result;
                                        evaluated = evaluated;
                                        output = output;
                                        serialized = serialized;
                                        proved = p;
                                        accepted = accepted;
                                        json = json;
                                        written = written;
                                      },
                                      refl,
                                    ))))))))
