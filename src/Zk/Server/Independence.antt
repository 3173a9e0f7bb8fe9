-- ===== src/Zk/Server/Independence.antt =====
-- What an answer of the server of Prototype B depends on.
use khipu_v_fhe.Prelude.{
  ℕ, ◌≡◌, refl, List, Bytes, Outcome, ok, throw, fault, text, Option, none, some,
}
use khipu_v_fhe.Libraries.{Blake3, JsonLib}
use khipu_v_fhe.Protocol.{Request, parse_request}
use khipu_v_fhe.Server.{find_workload, stage_on, leaving}
use khipu_v_fhe.Zk.{Snark, Cache}
use khipu_v_fhe.Zk.Messages.{build_zk_error_response}
use khipu_v_fhe.Zk.Server.{
  ZkFhe, ZkWorkload, ZkRun, Globals, zk_block, load_zk_keys, read_zk_ciphertexts, enabled, compute,
  evaluate_zk, dispatch_zk, respond_zk, zk_reader_error, zk_trailing_error,
}
use khipu_v_fhe.Zk.Server.Proving.{zk_block_eq}

stage_on_eq :
    {A G : Type 0} (build : List ℕ → Bytes) (prefix : List ℕ) (o : Outcome A) (g g' : G)
    (next next' : A → G → Outcome Bytes × G)
    → ((a : A) → (next a g).0 ≡ (next' a g').0)
    → (stage_on build prefix (o, g) next).0 ≡ (stage_on build prefix (o, g') next').0
stage_on_eq build prefix (ok a) g g' next next' h = h a
stage_on_eq build prefix (throw e) g g' next next' h = refl
stage_on_eq build prefix fault g g' next next' h = refl

leaving_eq :
    {A G : Type 0} (o : Outcome A) (g g' : G) (next next' : A → G → Outcome Bytes × G)
    → ((a : A) → (next a g).0 ≡ (next' a g').0)
    → (leaving (o, g) next).0 ≡ (leaving (o, g') next').0
leaving_eq (ok a) g g' next next' h = h a
leaving_eq (throw e) g g' next next' h = refl
leaving_eq fault g g' next next' h = refl

module _ (S : Snark) (F : ZkFhe S) (J : JsonLib) (B : Blake3) where
  open F use {Context, Keys, Ciphertext, no_keys, serialize_ciphertext}

  compute_eq :
      (w : ZkWorkload S F) (cc : Context) (q : Request) (run : ZkRun) (inputs : List Ciphertext)
      (keys : Keys) (cache cache' : Cache S)
      → (compute S F J B w cc q run inputs (record { keys = keys; cache = cache })).0
        ≡ (compute S F J B w cc q run inputs (record { keys = keys; cache = cache' })).0
  unfolding compute
  compute_eq w cc q run inputs keys cache cache' =
      stage_on_eq build_zk_error_response (text "eval failed: ") (w.eval cc keys inputs) _ _ _ _
        (λ out. rw (zk_block_eq S F w.eval_zk cc keys q.input_cts run cache cache') (
          leaving_eq (zk_block S F w.eval_zk cc keys q.input_cts run cache').0 _ _ _ _ (λ p.
            stage_on_eq build_zk_error_response (text "serialize: ") (serialize_ciphertext out) _ _
              _ _ (λ out_bytes. refl))))

  evaluate_zk_eq :
      (w : ZkWorkload S F) (q : Request) (run : ZkRun) (g g' : Globals S F)
      → (evaluate_zk S F J B w q run g).0 ≡ (evaluate_zk S F J B w q run g').0
  unfolding evaluate_zk
  evaluate_zk_eq w q run g g' = leaving_eq w.make_context _ _ _ _ (λ made.
      stage_on_eq build_zk_error_response (text "bad key: ")
        (load_zk_keys S F 0 q.eval_keys no_keys).0 _ _ _ _
        (λ u.
          stage_on_eq build_zk_error_response (text "bad ct: ")
            (read_zk_ciphertexts S F q.input_cts) _ _ _ _
            (λ inputs.
              compute_eq w (enabled S F made) q run inputs
                (load_zk_keys S F 0 q.eval_keys no_keys).1 g.cache g'.cache)))

  -- The answer of Prototype B to a request does not depend on the keys, of evaluation or of proofs,
  -- that earlier requests left in the process.
  pub respond_zk_eq :
      (registry : List (List ℕ × ZkWorkload S F)) (req : Bytes) (run : ZkRun) (g g' : Globals S F)
      → (respond_zk S F J B registry req run g).0 ≡ (respond_zk S F J B registry req run g').0
  unfolding respond_zk dispatch_zk
  respond_zk_eq registry req run g g' =
      stage_on_eq build_zk_error_response (text "bad request: ")
        (parse_request zk_reader_error zk_trailing_error req) _ _ _ _
        (λ q. dispatch_eq q (find_workload q.workload_id registry))
    where
      dispatch_eq :
          (q : Request) (o : Option (ZkWorkload S F))
          → (dispatch_zk S F J B o q run g).0 ≡ (dispatch_zk S F J B o q run g').0
      dispatch_eq q none = refl
      dispatch_eq q (some w) = evaluate_zk_eq w q run g g'
