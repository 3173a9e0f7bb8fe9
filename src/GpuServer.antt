-- ===== src/GpuServer.antt =====
-- The server of Prototype C: `handle_client` of gpucc-vfhe/src/server/server_main.cpp, with the GPU's
-- evidence beside the quote. OpenFHE, FIDESlib and the two attestation libraries are parameters.
pub mod Handling
pub mod Exchange
pub mod Running
use khipu_v_fhe.Prelude.{
  ℕ, suc, List, [], ◌∷◌, ◌++◌, Bytes, Bool, true, false, not, Outcome, ok, throw, fault, ◌>>=◌,
  catch, text, is_empty, if◌then◌else◌, Option, none, some,
}
use khipu_v_fhe.Libraries.{Blake3, JsonLib}
use khipu_v_fhe.Transcript.{Transcript, generate_transcript, compute_transcript_hash, to_json}
use khipu_v_fhe.Attestation.{
  Tdx, to_string, generate_tdx_quote, compute_gpu_evidence_digest, generate_tdx_quote_heterogeneous,
}
use khipu_v_fhe.Evidence.{serialize, nonce_array}
use khipu_v_fhe.Evidence.Adapter.{Nvat, init, collect_evidence}
use khipu_v_fhe.Protocol.{
  Request, GpuRequest, parse_gpu_request, GpuResponse, build_gpu_response, build_error_response,
}
use khipu_v_fhe.Transport.{Conn, Io, done, raised, waiting, recv_message}
use khipu_v_fhe.Server.{
  find_workload, Times, stage_on, leaving, reader_error, trailing_error, answer, timed, quoted,
}

-- OpenFHE. The three functions that read a key blob change the maps that all contexts share, and may
-- have done so when they throw.
pub record GpuFhe : Type 1 where
  pub Context : Type 0
  pub Keys : Type 0
  pub PublicKey : Type 0
  pub Ciphertext : Type 0
  pub deserialize_public_key : Bytes → Outcome PublicKey
  pub get_crypto_context : PublicKey → Outcome Context
  pub deserialize_eval_mult_key : Bytes → Keys → Outcome (Unit {0}) × Keys
  pub deserialize_eval_sum_key : Bytes → Keys → Outcome (Unit {0}) × Keys
  pub deserialize_eval_automorphism_key : Bytes → Keys → Outcome (Unit {0}) × Keys
  pub deserialize_ciphertext : Bytes → Outcome Ciphertext
  pub serialize_ciphertext : Ciphertext → Outcome Bytes

-- The `catch` of one attempt: whether it succeeded is what decides on the next.
abbrev pub or_try {ℓ} :
    {K : Type ℓ} → Outcome (Unit {0}) × K → (K → Outcome (Unit {0}) × K) → Outcome (Unit {0}) × K
or_try (ok u, keys) next = (ok tt, keys)
or_try (throw e, keys) next = next keys
or_try (fault, keys) next = (fault, keys)

abbrev pub and_then {ℓ} :
    {K : Type ℓ} → Outcome (Unit {0}) × K → (K → Outcome (Unit {0}) × K) → Outcome (Unit {0}) × K
and_then (ok u, keys) next = next keys
and_then (throw e, keys) next = (throw e, keys)
and_then (fault, keys) next = (fault, keys)

module _ (F : GpuFhe) where
  open F use {
    Context, Keys, PublicKey, Ciphertext, deserialize_eval_mult_key, deserialize_eval_sum_key,
    deserialize_eval_automorphism_key, deserialize_ciphertext,
  }

  -- What the handlers of the process share: the maps of keys, and `g_client_pk` of
  -- logistic_regression.cpp.
  pub record GpuGlobals : Type 0 where
    pub keys : Keys
    pub client_pk : Option PublicKey

  -- An entry of the registry. Its `make_context` is not called by the server.
  pub record GpuWorkload : Type 0 where
    pub eval : Context → GpuGlobals → List Ciphertext → Outcome Ciphertext

  unfoldable pub set_client_public_key : PublicKey → GpuGlobals → GpuGlobals
  set_client_public_key pk g = record g { client_pk = some pk }

  -- The three attempts on the blob at place `i`.
  unfoldable pub load_gpu_key : ℕ → Bytes → Keys → Outcome (Unit {0}) × Keys
  load_gpu_key i kb keys = or_try (deserialize_eval_mult_key kb keys) (λ keys.
      or_try (deserialize_eval_sum_key kb keys) (λ keys.
        or_try (deserialize_eval_automorphism_key kb keys) (λ keys. (
          throw (
              text "eval key blob "
              ++ (to_string i ++ text " could not be deserialized by any known key type")),
          keys,
        ))))

  unfoldable pub load_gpu_keys : ℕ → List Bytes → Keys → Outcome (Unit {0}) × Keys
  load_gpu_keys i [] keys = (ok tt, keys)
  load_gpu_keys i (kb ∷ kbs) keys =
      and_then (load_gpu_key i kb keys) (λ keys'. load_gpu_keys (suc i) kbs keys')

  unfoldable pub read_gpu_ciphertexts : List Bytes → Outcome (List Ciphertext)
  read_gpu_ciphertexts [] = ok []
  read_gpu_ciphertexts (cb ∷ cbs) = do
    ct ← deserialize_ciphertext cb
    cts ← read_gpu_ciphertexts cbs
    ok (ct ∷ cts)

module _ (N : Nvat) where
  abbrev pub gathered : Bool → Bytes → Outcome Bytes
  gathered false nonce = ok []
  gathered true nonce =
      (collect_evidence N true (nonce_array nonce)).0 >>= λ gpu_ev. ok (serialize gpu_ev)

  -- A fresh adapter for each request; any exception leaves the evidence empty.
  unfoldable pub gather_evidence : Bytes → Outcome Bytes
  gather_evidence nonce = catch (gathered (init N false).0 nonce) (λ e. ok [])

module _ (B : Blake3) (T : Tdx) where
  -- The quote binds the evidence if there is any; no quote is an empty quote.
  unfoldable pub gpu_quote : Bytes → Bytes → Outcome Bytes
  gpu_quote digest gpu_evidence =
      catch
        (if not (is_empty gpu_evidence)
          then generate_tdx_quote_heterogeneous B T digest
              (compute_gpu_evidence_digest B gpu_evidence)
          else generate_tdx_quote T digest)
        (λ e. ok [])

module _ (J : JsonLib) (B : Blake3) (T : Tdx) (N : Nvat) where
  -- The rest of the handler, behind the serialization of the output.
  unfoldable pub attest_gpu : Request → Bytes → Times → Outcome Bytes
  attest_gpu q output_ct_bytes times =
      let transcript =
        timed (generate_transcript B q.nonce q.eval_keys q.input_cts output_ct_bytes) times in
      do
        digest ← compute_transcript_hash B J transcript
        gpu_evidence ← gather_evidence N q.nonce
        quote ← gpu_quote B T digest gpu_evidence
        transcript_json ← to_json J (quoted transcript times)
        ok (
            build_gpu_response (record {
              output_ct = output_ct_bytes;
              transcript_json = transcript_json;
              gpu_evidence = gpu_evidence;
              quote = quote;
            }))

  module _ (F : GpuFhe) where
    open F use {
      Context, Keys, PublicKey, Ciphertext, deserialize_public_key, get_crypto_context,
      serialize_ciphertext,
    }

    abbrev pub with_gpu_keys :
        GpuGlobals F → Outcome (Unit {0}) × Keys → Outcome (Unit {0}) × GpuGlobals F
    with_gpu_keys g r = (r.0, record g { keys = r.1 })

    -- From the evaluation on.
    unfoldable pub compute_gpu :
        GpuWorkload F
        → Context
        → Request
        → Times
        → List Ciphertext
        → GpuGlobals F
        → Outcome Bytes × GpuGlobals F
    compute_gpu workload cc q times inputs g =
        stage_on build_error_response (text "eval failed: ") (workload.eval cc g inputs, g)
          (λ output_ct g.
            stage_on build_error_response (text "serialize failed: ")
              (serialize_ciphertext output_ct, g) (λ output g. (attest_gpu q output times, g)))

    -- The keys of the request on top of those that are in the maps, then the context of the client's
    -- public key, which is taken outside of any `try`.
    unfoldable pub evaluate_gpu :
        GpuWorkload F → GpuRequest → PublicKey → Times → GpuGlobals F → Outcome Bytes × GpuGlobals F
    evaluate_gpu workload q client_pk times g =
        stage_on build_error_response (text "bad eval key: ")
          (with_gpu_keys g (load_gpu_keys F 0 q.eval_keys g.keys))
          (λ u g.
            leaving (get_crypto_context client_pk, g)
              (λ cc g.
                stage_on build_error_response (text "bad ciphertext: ")
                  (read_gpu_ciphertexts F q.input_cts, g)
                  (λ inputs g. compute_gpu workload cc q.request times inputs g)))

    unfoldable pub dispatch_gpu :
        Option (GpuWorkload F) → GpuRequest → Times → GpuGlobals F → Outcome Bytes × GpuGlobals F
    dispatch_gpu none q times g =
        (ok (build_error_response (text "unknown workload: " ++ q.workload_id)), g)
    dispatch_gpu (some workload) q times g =
        stage_on build_error_response (text "bad public key: ")
          (deserialize_public_key q.public_key, g)
          (λ pk g. evaluate_gpu workload q pk times (set_client_public_key F pk g))

    -- The bytes that answer those of a request, and the state afterwards.
    unfoldable pub respond_gpu :
        List (List ℕ × GpuWorkload F) → Bytes → Times → GpuGlobals F → Outcome Bytes × GpuGlobals F
    respond_gpu registry req times g =
        stage_on build_error_response (text "bad request: ")
          (parse_gpu_request reader_error trailing_error req, g)
          (λ q g. dispatch_gpu (find_workload q.workload_id registry) q times g)

    abbrev pub gpu_sent :
        Outcome Bytes × GpuGlobals F → Conn → (Io (Outcome (Unit {0})) × Conn) × GpuGlobals F
    gpu_sent (response, g) c = (answer response c, g)

    -- An exception of `recv_message` ends the handler.
    abbrev pub gpu_served :
        Io Bytes × Conn
        → (Bytes → Outcome Bytes × GpuGlobals F)
        → GpuGlobals F
        → (Io (Outcome (Unit {0})) × Conn) × GpuGlobals F
    gpu_served (done req, c) next g = gpu_sent (next req) c
    gpu_served (raised e, c) next g = ((done (ok tt), c), g)
    gpu_served (waiting, c) next g = ((waiting, c), g)

    unfoldable pub handle_gpu_client :
        List (List ℕ × GpuWorkload F)
        → Times
        → GpuGlobals F
        → Conn
        → (Io (Outcome (Unit {0})) × Conn) × GpuGlobals F
    handle_gpu_client registry times g c =
        gpu_served (recv_message c) (λ req. respond_gpu registry req times g) g
