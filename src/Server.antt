-- ===== src/Server.antt =====
-- The server of Prototype A: `handle_client` of server_main.cpp, from the bytes of a request to those
-- of the response. OpenFHE is a parameter; so are the three times that are measured.
pub mod Handling
pub mod Serving
pub mod Threads
use khipu_v_fhe.Prelude.{
  ℕ, ◌≡◌, ◌%◌, ◌^◌, List, [], ◌∷◌, ◌++◌, Bytes, Bool, true, false, Outcome, ok, throw, fault, ◌>>=◌,
  catch, text, bytes_eq, if◌then◌else◌, Option, none, some,
}
use khipu_v_fhe.Libraries.{Blake3, JsonLib}
use khipu_v_fhe.Transcript.{Transcript, generate_transcript, compute_transcript_hash, to_json}
use khipu_v_fhe.Attestation.{Tdx, generate_tdx_quote}
use khipu_v_fhe.Protocol.{Request, parse_request, Response, build_response, build_error_response}
use khipu_v_fhe.Transport.{Conn, Op, Io, done, raised, waiting, recv_message, send_message}

-- OpenFHE: the maps of evaluation keys that its contexts share, the three functions that read a key
-- blob into them, and those that read and write a ciphertext.
pub record Fhe : Type 1 where
  pub Context : Type 0
  pub Keys : Type 0
  pub Ciphertext : Type 0
  pub deserialize_eval_mult_key : Bytes → Keys → Outcome Keys
  pub deserialize_eval_sum_key : Bytes → Keys → Outcome Keys
  pub deserialize_eval_automorphism_key : Bytes → Keys → Outcome Keys
  pub deserialize_ciphertext : Bytes → Outcome Ciphertext
  pub serialize_ciphertext : Ciphertext → Outcome Bytes

module _ (F : Fhe) where
  open F use {Context, Keys, Ciphertext}

  -- An entry of the registry; the evaluation may use the keys.
  pub record Workload : Type 0 where
    pub make_context : Outcome Context
    pub eval : Context → Keys → List Ciphertext → Outcome Ciphertext

-- `std::map::find` in the registry of workloads, listed by their names.
unfoldable pub find_workload {ℓ} : {A : Type ℓ} → List ℕ → List (List ℕ × A) → Option A
find_workload workload_id [] = none
find_workload workload_id ((name, w) ∷ registry) =
    let others = find_workload workload_id registry in
    if bytes_eq name workload_id then some w else others

-- The durations in microseconds, as they are cast to uint64_t.
pub record Times : Type 0 where
  pub eval_us : ℕ
  pub transcript_us : ℕ
  pub quote_us : ℕ

-- One `try` block of the handler: an exception is answered, a value is passed on.
unfoldable pub stage {ℓ} : {A : Type ℓ} → List ℕ → Outcome A → (A → Outcome Bytes) → Outcome Bytes
stage prefix (ok a) next = next a
stage prefix (throw e) next = ok (build_error_response (prefix ++ e))
stage prefix fault next = fault

-- The same on a state, which an exception leaves as it is; `build` makes the response of an error.
abbrev pub stage_on {ℓ κ} :
    {A : Type ℓ} {G : Type κ}
    → (List ℕ → Bytes)
    → List ℕ
    → Outcome A × G
    → (A → G → Outcome Bytes × G)
    → Outcome Bytes × G
stage_on build prefix (ok a, g) next = next a g
stage_on build prefix (throw e, g) next = (ok (build (prefix ++ e)), g)
stage_on build prefix (fault, g) next = (fault, g)

-- Outside of any `try`: an exception leaves the handler.
abbrev pub leaving {ℓ κ} :
    {A : Type ℓ} {G : Type κ} → Outcome A × G → (A → G → Outcome Bytes × G) → Outcome Bytes × G
leaving (ok a, g) next = next a g
leaving (throw e, g) next = (throw e, g)
leaving (fault, g) next = (fault, g)

-- The reader's messages.
abbrev pub reader_error : List ℕ
reader_error = text "request truncated"

abbrev pub trailing_error : List ℕ
trailing_error = text "trailing bytes in request"

module _ (F : Fhe) where
  open F use {
    Keys, Ciphertext, deserialize_eval_mult_key, deserialize_eval_sum_key,
    deserialize_eval_automorphism_key, deserialize_ciphertext,
  }

  -- The three attempts on one blob. An attempt that throws is taken to leave the keys as they were.
  unfoldable pub load_key : Bytes → Keys → Outcome Keys
  load_key kb keys = catch (deserialize_eval_mult_key kb keys) (λ e.
      catch (deserialize_eval_sum_key kb keys) (λ e'.
        catch (deserialize_eval_automorphism_key kb keys)
          (λ e''. throw (text "eval key blob deserialization failed for all key types"))))

  unfoldable pub load_keys : List Bytes → Keys → Outcome Keys
  load_keys [] keys = ok keys
  load_keys (kb ∷ kbs) keys = load_key kb keys >>= λ keys'. load_keys kbs keys'

  unfoldable pub read_ciphertexts : List Bytes → Outcome (List Ciphertext)
  read_ciphertexts [] = ok []
  read_ciphertexts (cb ∷ cbs) = do
    ct ← deserialize_ciphertext cb
    cts ← read_ciphertexts cbs
    ok (ct ∷ cts)

-- What is left of a run: an exception of `send_message` is logged.
abbrev pub logged : Io (Unit {0}) × Conn → Io (Outcome (Unit {0})) × Conn
logged (done u, c) = (done (ok tt), c)
logged (raised e, c) = (done (ok tt), c)
logged (waiting, c) = (waiting, c)

-- `send_message` of the response inside a `try`.
unfoldable pub answer : Outcome Bytes → Op (Outcome (Unit {0}))
answer (ok response) c = logged (send_message response c)
answer (throw e) c = (done (throw e), c)
answer fault c = (done fault, c)

-- An exception of `recv_message` ends the handler.
abbrev pub received :
    Io Bytes × Conn → (Bytes → Op (Outcome (Unit {0}))) → Io (Outcome (Unit {0})) × Conn
received (done req, c) next = next req c
received (raised e, c) next = (done (ok tt), c)
received (waiting, c) next = (waiting, c)

-- `transcript.fhe_eval_us = …; transcript.transcript_us = …`
unfoldable pub timed : Transcript → Times → Transcript
timed t times = record t {
  fhe_eval_us = times.eval_us % 2 ^ 64;
  transcript_us = times.transcript_us % 2 ^ 64;
}

unfoldable pub quoted : Transcript → Times → Transcript
quoted t times = record t { quote_us = times.quote_us % 2 ^ 64 }

module _ (J : JsonLib) (B : Blake3) (T : Tdx) where
  -- The rest of the handler, behind the serialization of the output. No quote is an empty quote.
  unfoldable pub attest : Request → Bytes → Times → Outcome Bytes
  attest q output_ct_bytes times =
      let transcript =
        timed (generate_transcript B q.nonce q.eval_keys q.input_cts output_ct_bytes) times in
      do
        digest ← compute_transcript_hash B J transcript
        quote ← catch (generate_tdx_quote T digest) (λ e. ok [])
        transcript_json ← to_json J (quoted transcript times)
        ok (
            build_response (record {
              output_ct = output_ct_bytes;
              transcript_json = transcript_json;
              quote = quote;
            }))

  module _ (F : Fhe) where
    open F use {Keys, serialize_ciphertext}

    -- From the workload that was found on: the context is made outside of any `try`.
    unfoldable pub evaluate : Workload F → Keys → Request → Times → Outcome Bytes
    evaluate workload keys q times = workload.make_context >>= λ cc.
        stage (text "bad eval key: ") (load_keys F q.eval_keys keys) (λ keys'.
          stage (text "bad ciphertext: ") (read_ciphertexts F q.input_cts) (λ inputs.
            stage (text "eval failed: ") (workload.eval cc keys' inputs) (λ output_ct.
              stage (text "serialize failed: ") (serialize_ciphertext output_ct)
                (λ output. attest q output times))))

    unfoldable pub dispatch : Option (Workload F) → Keys → Request → Times → Outcome Bytes
    dispatch none keys q times =
        ok (build_error_response (text "unknown workload: " ++ q.workload_id))
    dispatch (some workload) keys q times = evaluate workload keys q times

    -- The bytes that answer those of a request; `throw` is an exception that leaves `handle_client`.
    unfoldable pub respond : List (List ℕ × Workload F) → Keys → Bytes → Times → Outcome Bytes
    respond registry keys req times =
        stage (text "bad request: ") (parse_request reader_error trailing_error req)
          (λ q. dispatch (find_workload q.workload_id registry) keys q times)

    unfoldable pub handle_client :
        List (List ℕ × Workload F) → Keys → Times → Op (Outcome (Unit {0}))
    handle_client registry keys times c =
        received (recv_message c) (λ req. answer (respond registry keys req times))
