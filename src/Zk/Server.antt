-- ===== src/Zk/Server.antt =====
-- The server of Prototype B: `handle_client` of zk-vfhe/src/server/server_main.cpp. OpenFHE and the
-- proof system of zkOpenFHE, which builds the constraints, are parameters.
pub mod Independence
pub mod Proving
pub mod Serving
use khipu_v_fhe.Prelude.{
  ℕ, zero, suc, ◌%◌, ◌^◌, List, [], ◌∷◌, ◌++◌, Bytes, Bool, true, false, not, Outcome, ok, throw,
  fault, ◌>>=◌, text, is_empty, ◌==◌, if◌then◌else◌, Option, none, some,
}
use khipu_v_fhe.Libraries.{Blake3, JsonLib}
use khipu_v_fhe.Attestation.{to_string}
use khipu_v_fhe.Protocol.{Request, parse_request}
use khipu_v_fhe.Transport.{Conn, Io, done, raised, waiting, recv_message}
use khipu_v_fhe.Server.{find_workload, stage_on, leaving, answer}
use khipu_v_fhe.Zk.{
  Snark, ProofBundle, Cache, setup, prove, clear_cached_keypair, serialize_public_inputs,
}
use khipu_v_fhe.Zk.Messages.{
  ZkTranscript, zk_to_json, build_transcript, build_zk_response, build_zk_error_response,
}

pub data Mode : Type 0 where
  constraint_generation witness_generation : Mode

pub data Feature : Type 0 where
  pke keyswitch leveledshe advancedshe : Feature

-- OpenFHE with the maps of evaluation keys that its contexts share, which a call that throws may have
-- changed too, and `LibsnarkProofSystem`. `no_keys` are the maps behind the three `ClearEval…Keys`.
pub record ZkFhe (S : Snark) : Type 1 where
  pub Context : Type 0
  pub Keys : Type 0
  pub Ciphertext : Type 0
  pub ProofSystem : Type 0
  pub no_keys : Keys
  pub enable : Feature → Context → Context
  pub deserialize_eval_mult_key : Bytes → Keys → Outcome Bool × Keys
  pub deserialize_eval_sum_key : Bytes → Keys → Outcome Bool × Keys
  pub deserialize_eval_automorphism_key : Bytes → Keys → Outcome Bool × Keys
  pub deserialize_ciphertext : Bytes → Outcome Ciphertext
  pub serialize_ciphertext : Ciphertext → Outcome Bytes
  pub proof_system : Context → ProofSystem
  pub set_mode : Mode → ProofSystem → ProofSystem
  pub get_constraint_system : ProofSystem → S.ConstraintSystem
  pub num_constraints : S.ConstraintSystem → ℕ
  pub primary_input : ProofSystem → List S.Field
  pub auxiliary_input : ProofSystem → S.AuxiliaryInput

-- What is measured in a run, and the random seeds of libsnark's generator and prover.
pub record ZkRun : Type 0 where
  pub eval_us : ℕ
  pub witness_us : ℕ
  pub proof_us : ℕ
  pub loading_us : ℕ
  pub transcript_us : ℕ
  pub max_rss : ℕ
  pub generator_seed : ℕ
  pub prover_seed : ℕ

-- The three buffers and the two times that the ZK block fills.
pub record Proved : Type 0 where
  pub proof_bytes : Bytes
  pub pi_bytes : Bytes
  pub vk_bytes : Bytes
  pub witness_us : ℕ
  pub proof_us : ℕ

-- What is left behind an exception.
abbrev pub unproved : Proved
unproved = record { proof_bytes = []; pi_bytes = []; vk_bytes = []; witness_us = 0; proof_us = 0 }

-- An exception in the ZK block clears what it filled.
abbrev pub cleared_on {ℓ} : {G : Type ℓ} → Outcome Proved × G → Outcome Proved × G
cleared_on (ok p, g) = (ok p, g)
cleared_on (throw e, g) = (ok unproved, g)
cleared_on (fault, g) = (fault, g)

module _ (S : Snark) (F : ZkFhe S) where
  open F use {
    Context, Keys, Ciphertext, ProofSystem, enable, deserialize_eval_mult_key,
    deserialize_eval_sum_key, deserialize_eval_automorphism_key, deserialize_ciphertext,
    proof_system, set_mode, get_constraint_system, num_constraints, primary_input, auxiliary_input,
  }

  -- An entry of the registry; `eval_zk` may be absent. Both may use the keys.
  pub record ZkWorkload : Type 0 where
    pub make_context : Outcome Context
    pub eval : Context → Keys → List Ciphertext → Outcome Ciphertext
    pub eval_zk : Option (Keys → ProofSystem → List Ciphertext → Outcome (Ciphertext × ProofSystem))

  -- The state of the process that the handler reads and changes.
  pub record Globals : Type 0 where
    pub keys : Keys
    pub cache : Cache S

  -- The key of a blob by its place: the first is for EvalMult, the second for EvalSum.
  abbrev pub deserializer : ℕ → Bytes → Keys → Outcome Bool × Keys
  deserializer zero kb keys = deserialize_eval_mult_key kb keys
  deserializer (suc zero) kb keys = deserialize_eval_sum_key kb keys
  deserializer (suc (suc n)) kb keys = deserialize_eval_automorphism_key kb keys

  abbrev pub require_read : ℕ → Outcome Bool × Keys → Outcome (Unit {0}) × Keys
  require_read idx (ok true, keys) = (ok tt, keys)
  require_read idx (ok false, keys) =
      (throw (text "eval key[" ++ (to_string idx ++ text "] deserialization returned false")), keys)
  require_read idx (throw e, keys) = (throw e, keys)
  require_read idx (fault, keys) = (fault, keys)

  unfoldable pub deserialize_eval_key_by_index : ℕ → Bytes → Keys → Outcome (Unit {0}) × Keys
  deserialize_eval_key_by_index idx kb keys =
      if is_empty kb then (ok tt, keys) else require_read idx (deserializer idx kb keys)

  abbrev pub and_on :
      Outcome (Unit {0}) × Keys → (Keys → Outcome (Unit {0}) × Keys) → Outcome (Unit {0}) × Keys
  and_on (ok u, keys) next = next keys
  and_on (throw e, keys) next = (throw e, keys)
  and_on (fault, keys) next = (fault, keys)

  -- The loop over the key blobs, from `i` on.
  unfoldable pub load_zk_keys : ℕ → List Bytes → Keys → Outcome (Unit {0}) × Keys
  load_zk_keys i [] keys = (ok tt, keys)
  load_zk_keys i (kb ∷ kbs) keys =
      and_on (deserialize_eval_key_by_index i kb keys) (λ keys'. load_zk_keys (suc i) kbs keys')

  unfoldable pub read_zk_ciphertexts : List Bytes → Outcome (List Ciphertext)
  read_zk_ciphertexts [] = ok []
  read_zk_ciphertexts (cb ∷ cbs) = do
    ct ← deserialize_ciphertext cb
    cts ← read_zk_ciphertexts cbs
    ok (ct ∷ cts)

  -- The first two passes, each on ciphertexts of its own: the proof system with its witness.
  unfoldable pub two_passes :
      (Keys → ProofSystem → List Ciphertext → Outcome (Ciphertext × ProofSystem))
      → Context
      → Keys
      → List Bytes
      → Outcome ProofSystem
  two_passes eval_zk cc keys input_ct_blobs = do
    zk_inputs ← read_zk_ciphertexts input_ct_blobs
    (zk_out_c, ps) ← eval_zk keys (set_mode constraint_generation (proof_system cc)) zk_inputs
    zk_inputs' ← read_zk_ciphertexts input_ct_blobs
    (zk_out_w, ps') ← eval_zk keys (set_mode witness_generation ps) zk_inputs'
    ok ps'

  -- The three buffers of a proof, and the release of its key.
  abbrev pub packed :
      ZkRun
      → S.VerificationKey
      → Outcome S.Proof
      → Outcome Bytes
      → Cache S
      → Outcome Proved × Cache S
  packed run vk (ok proof) (ok pi_bytes) cache = (
    ok (record {
      proof_bytes = S.write_proof proof;
      pi_bytes = pi_bytes;
      vk_bytes = S.write_vk vk;
      witness_us = run.witness_us;
      proof_us = run.proof_us;
    }),
    clear_cached_keypair S cache,
  )
  packed run vk (ok proof) (throw e) cache = (throw e, cache)
  packed run vk (ok proof) fault cache = (fault, cache)
  packed run vk (throw e) pi_bytes cache = (throw e, cache)
  packed run vk fault pi_bytes cache = (fault, cache)

  -- The third pass, on a system that has constraints.
  unfoldable pub third_pass :
      ZkRun
      → S.ConstraintSystem
      → List S.Field
      → S.AuxiliaryInput
      → Cache S
      → Outcome Proved × Cache S
  third_pass run cs primary auxiliary cache =
      if not (S.is_satisfied cs primary auxiliary)
      then (throw (text "constraint system not satisfied by witness"), cache)
      else (let (zk_vk, cache') = setup S run.generator_seed cs cache in
          packed run zk_vk (prove S run.prover_seed primary auxiliary cache')
            (serialize_public_inputs S primary) cache')

  -- A system without constraints is skipped, with the time of the witness kept.
  unfoldable pub prove_system : ZkRun → ProofSystem → Cache S → Outcome Proved × Cache S
  prove_system run ps cache =
      let cs = get_constraint_system ps in
      if num_constraints cs == 0
      then (ok (record unproved { witness_us = run.witness_us }), cache)
      else third_pass run cs (primary_input ps) (auxiliary_input ps) cache

  abbrev pub prove_passed : ZkRun → Outcome ProofSystem → Cache S → Outcome Proved × Cache S
  prove_passed run (ok ps) cache = prove_system run ps cache
  prove_passed run (throw e) cache = (throw e, cache)
  prove_passed run fault cache = (fault, cache)

  -- The ZK block, `if (w.eval_zk) { try { … } catch … }`.
  abbrev pub zk_block :
      Option (Keys → ProofSystem → List Ciphertext → Outcome (Ciphertext × ProofSystem))
      → Context
      → Keys
      → List Bytes
      → ZkRun
      → Cache S
      → Outcome Proved × Cache S
  zk_block none cc keys input_ct_blobs run cache = (ok unproved, cache)
  zk_block (some eval_zk) cc keys input_ct_blobs run cache =
      cleared_on (prove_passed run (two_passes eval_zk cc keys input_ct_blobs) cache)

  -- `cc->Enable(…)`, four times.
  abbrev pub enabled : Context → Context
  enabled cc = enable advancedshe (enable leveledshe (enable keyswitch (enable pke cc)))

module _ (J : JsonLib) (B : Blake3) where
  -- The transcript that is sent. Its times do not come into any digest.
  unfoldable pub zk_transcript : Request → Bytes → Proved → ZkRun → ZkTranscript
  zk_transcript q out_bytes p run =
      record (build_transcript B q.nonce q.eval_keys q.input_cts out_bytes) {
        fhe_eval_us = run.eval_us % 2 ^ 64;
        witness_us = p.witness_us % 2 ^ 64;
        proof_us = p.proof_us % 2 ^ 64;
        input_loading_us = run.loading_us % 2 ^ 64;
        transcript_us = run.transcript_us % 2 ^ 64;
        peak_mem_kb = run.max_rss % 2 ^ 64;
      }

  unfoldable pub report : Request → Bytes → Proved → ZkRun → Outcome Bytes
  report q out_bytes p run = zk_to_json J (zk_transcript q out_bytes p run) >>= λ tr_json. ok (
      build_zk_response (record {
        output_ct = out_bytes;
        transcript_json = tr_json;
        proof = p.proof_bytes;
        public_inputs = p.pi_bytes;
        vk = p.vk_bytes;
      }))

-- The reader's messages.
abbrev pub zk_reader_error : List ℕ
zk_reader_error = text "truncated"

abbrev pub zk_trailing_error : List ℕ
zk_trailing_error = text "trailing bytes"

module _ (S : Snark) (F : ZkFhe S) (J : JsonLib) (B : Blake3) where
  open F use {Context, no_keys, serialize_ciphertext}

  abbrev pub with_keys :
      Globals S F → Outcome (Unit {0}) × F.Keys → Outcome (Unit {0}) × Globals S F
  with_keys g r = (r.0, record g { keys = r.1 })

  abbrev pub with_cache : Globals S F → Outcome Proved × Cache S → Outcome Proved × Globals S F
  with_cache g r = (r.0, record g { cache = r.1 })

  -- From the evaluation on.
  unfoldable pub compute :
      ZkWorkload S F
      → Context
      → Request
      → ZkRun
      → List F.Ciphertext
      → Globals S F
      → Outcome Bytes × Globals S F
  compute w cc q run inputs g =
      stage_on build_zk_error_response (text "eval failed: ") (w.eval cc g.keys inputs, g)
        (λ out g.
          leaving (with_cache g (zk_block S F w.eval_zk cc g.keys q.input_cts run g.cache)) (λ p g.
            stage_on build_zk_error_response (text "serialize: ") (serialize_ciphertext out, g)
              (λ out_bytes g. (report J B q out_bytes p run, g))))

  -- From the workload that was found on, with the maps of keys cleared.
  unfoldable pub evaluate_zk :
      ZkWorkload S F → Request → ZkRun → Globals S F → Outcome Bytes × Globals S F
  evaluate_zk w q run g =
      leaving (w.make_context, record g { keys = no_keys })
        (λ made g.
          let cc = enabled S F made in
          stage_on build_zk_error_response (text "bad key: ")
            (with_keys g (load_zk_keys S F 0 q.eval_keys g.keys))
            (λ u g.
              stage_on build_zk_error_response (text "bad ct: ")
                (read_zk_ciphertexts S F q.input_cts, g) (λ inputs g. compute w cc q run inputs g)))

  unfoldable pub dispatch_zk :
      Option (ZkWorkload S F) → Request → ZkRun → Globals S F → Outcome Bytes × Globals S F
  dispatch_zk none q run g =
      (ok (build_zk_error_response (text "unknown workload: " ++ q.workload_id)), g)
  dispatch_zk (some w) q run g = evaluate_zk w q run g

  -- The bytes that answer those of a request, and the state afterwards.
  unfoldable pub respond_zk :
      List (List ℕ × ZkWorkload S F) → Bytes → ZkRun → Globals S F → Outcome Bytes × Globals S F
  respond_zk registry req run g =
      stage_on build_zk_error_response (text "bad request: ")
        (parse_request zk_reader_error zk_trailing_error req, g)
        (λ q g. dispatch_zk (find_workload q.workload_id registry) q run g)

  abbrev pub sent :
      Outcome Bytes × Globals S F → Conn → (Io (Outcome (Unit {0})) × Conn) × Globals S F
  sent (response, g) c = (answer response c, g)

  -- An exception of `recv_message` ends the handler.
  abbrev pub served :
      Io Bytes × Conn
      → (Bytes → Outcome Bytes × Globals S F)
      → Globals S F
      → (Io (Outcome (Unit {0})) × Conn) × Globals S F
  served (done req, c) next g = sent (next req) c
  served (raised e, c) next g = ((done (ok tt), c), g)
  served (waiting, c) next g = ((waiting, c), g)

  unfoldable pub handle_zk_client :
      List (List ℕ × ZkWorkload S F)
      → ZkRun
      → Globals S F
      → Conn
      → (Io (Outcome (Unit {0})) × Conn) × Globals S F
  handle_zk_client registry run g c =
      served (recv_message c) (λ req. respond_zk registry req run g) g
