-- ===== src/Bgv.antt =====
-- Prototype E, tee-vfhe-bgvrns, where it differs from Prototype A: the transcript has two more times,
-- empty key blobs are skipped, and the client hashes and checks the longer transcript.
pub mod Evidence
pub mod Exchange
pub mod Main
use khipu_v_fhe.Prelude.{
  ℕ, ◌%◌, ◌^◌, List, [], ◌∷◌, ◌++◌, map, Bytes, Bool, true, false, not, Outcome, ok, ◌>>=◌, catch,
  text, is_empty, if◌then◌else◌, Option, none, some,
}
use khipu_v_fhe.Libraries.{Blake3, JsonLib, num, Fields}
use khipu_v_fhe.Transcript.{
  Transcript, to_fields, without_timings, read_transcript, hash_concatenated, generate_transcript,
}
use khipu_v_fhe.Attestation.{Tdx, expected_report_data, generate_tdx_quote}
use khipu_v_fhe.Protocol.{
  Request, parse_request, Response, build_response, parse_response, build_error_response,
}
use khipu_v_fhe.Verifier.{JsonNav, Dcap, verify_transcript, verify_tdx_quote}
use khipu_v_fhe.Server.{
  Fhe, Workload, find_workload, Times, stage, load_key, read_ciphertexts, timed, quoted,
  reader_error, trailing_error,
}
use khipu_v_fhe.Client.{contains_text, response_error, trailing_error as response_trailing_error}

-- The members of a transcript of Prototype A, and two more times.
pub record BgvTranscript : Type 0 where
  pub core : Transcript
  pub ctx_us : ℕ
  pub outser_us : ℕ

unfoldable pub bgv_fields : BgvTranscript → Fields
bgv_fields t =
    to_fields t.core ++ ((text "ctx_us", num t.ctx_us) ∷ (text "outser_us", num t.outser_us) ∷ [])

unfoldable pub bgv_without_timings : BgvTranscript → BgvTranscript
bgv_without_timings t = record { core = without_timings t.core; ctx_us = 0; outser_us = 0 }

pub record BgvTimes : Type 0 where
  pub times : Times
  pub ctx_us : ℕ
  pub outser_us : ℕ

module _ (J : JsonLib) where
  open J use {object, dump, parse, value}

  unfoldable pub bgv_to_json : BgvTranscript → Outcome (List ℕ)
  bgv_to_json t = dump (object (bgv_fields t))

  unfoldable pub bgv_from_json : List ℕ → Outcome BgvTranscript
  bgv_from_json json_str = do
    j ← parse json_str
    core ← read_transcript J j
    ctx_us ← value j (text "ctx_us") 0
    outser_us ← value j (text "outser_us") 0
    ok (record { core = core; ctx_us = ctx_us; outser_us = outser_us })

  module _ (B : Blake3) where
    unfoldable pub bgv_transcript_hash : BgvTranscript → Outcome Bytes
    bgv_transcript_hash t = do json_str ← bgv_to_json (bgv_without_timings t); ok (B.hash json_str)

-- The transcript of an evaluation, before the quote is timed.
unfoldable pub bgv_timed : Transcript → BgvTimes → BgvTranscript
bgv_timed t times = record {
  core = timed t times.times;
  ctx_us = times.ctx_us % 2 ^ 64;
  outser_us = times.outser_us % 2 ^ 64;
}

module _ (F : Fhe) where
  unfoldable pub load_bgv_keys : List Bytes → F.Keys → Outcome F.Keys
  load_bgv_keys [] keys = ok keys
  load_bgv_keys (kb ∷ kbs) keys =
      if is_empty kb
      then load_bgv_keys kbs keys
      else (load_key F kb keys >>= λ keys'. load_bgv_keys kbs keys')

module _ (J : JsonLib) (B : Blake3) (T : Tdx) where
  unfoldable pub bgv_attest : Request → Bytes → BgvTimes → Outcome Bytes
  bgv_attest q output_ct_bytes times =
      let transcript =
        bgv_timed (generate_transcript B q.nonce q.eval_keys q.input_cts output_ct_bytes) times in
      do
        digest ← bgv_transcript_hash J B transcript
        quote ← catch (generate_tdx_quote T digest) (λ e. ok [])
        transcript_json ←
            bgv_to_json J (record transcript { core = quoted transcript.core times.times })
        ok (
            build_response (record {
              output_ct = output_ct_bytes;
              transcript_json = transcript_json;
              quote = quote;
            }))

  module _ (F : Fhe) where
    open F use {Keys, serialize_ciphertext}

    unfoldable pub bgv_evaluate : Workload F → Keys → Request → BgvTimes → Outcome Bytes
    bgv_evaluate workload keys q times = workload.make_context >>= λ cc.
        stage (text "bad eval key: ") (load_bgv_keys F q.eval_keys keys) (λ keys'.
          stage (text "bad ciphertext: ") (read_ciphertexts F q.input_cts) (λ inputs.
            stage (text "eval failed: ") (workload.eval cc keys' inputs) (λ output_ct.
              stage (text "serialize failed: ") (serialize_ciphertext output_ct)
                (λ output. bgv_attest q output times))))

    unfoldable pub bgv_dispatch : Option (Workload F) → Keys → Request → BgvTimes → Outcome Bytes
    bgv_dispatch none keys q times =
        ok (build_error_response (text "unknown workload: " ++ q.workload_id))
    bgv_dispatch (some workload) keys q times = bgv_evaluate workload keys q times

    unfoldable pub bgv_respond :
        List (List ℕ × Workload F) → Keys → Bytes → BgvTimes → Outcome Bytes
    bgv_respond registry keys req times =
        stage (text "bad request: ") (parse_request reader_error trailing_error req)
          (λ q. bgv_dispatch (find_workload q.workload_id registry) keys q times)

module _ (J : JsonLib) (N : JsonNav J) (D : Dcap) (B : Blake3) where
  -- Verifier::verify_all over the longer transcript.
  unfoldable pub bgv_verify_all :
      Bytes → BgvTranscript → Bytes → List ℕ → Bytes → List Bytes → Bytes → Outcome Bool
  bgv_verify_all quote_bytes transcript nonce mr_td_hex eval_key_hash inputs output = do
    h ← bgv_transcript_hash J B transcript
    if not (verify_transcript transcript.core nonce eval_key_hash inputs output)
        then ok false
        else verify_tdx_quote J N D quote_bytes mr_td_hex (expected_report_data h)

  unfoldable pub bgv_check_evidence :
      Request → List ℕ → Response → BgvTranscript → Outcome (Option Bytes)
  bgv_check_evidence q expected_mr_td p transcript =
      let eval_key_hash = hash_concatenated B q.eval_keys in
      let input_ct_hashes = map B.hash q.input_cts in
      let output_ct_hash = B.hash p.output_ct in
      if not
        (verify_transcript transcript.core q.nonce eval_key_hash input_ct_hashes output_ct_hash)
      then ok none
      else (do
        accepted ←
            bgv_verify_all p.quote transcript q.nonce expected_mr_td eval_key_hash input_ct_hashes
              output_ct_hash
        ok (if accepted then some p.output_ct else none))

  unfoldable pub bgv_check_parsed : Request → List ℕ → Response → Outcome (Option Bytes)
  bgv_check_parsed q expected_mr_td p =
      if contains_text (text "\"error\"") p.transcript_json
      then ok none
      else (bgv_from_json J p.transcript_json >>= λ transcript.
          bgv_check_evidence q expected_mr_td p transcript)

  unfoldable pub bgv_check_response : Request → List ℕ → Bytes → Outcome (Option Bytes)
  bgv_check_response q expected_mr_td resp =
      if is_empty resp
      then ok none
      else catch
          (parse_response response_error response_trailing_error resp >>= λ p.
            bgv_check_parsed q expected_mr_td p)
          (λ e. ok none)
