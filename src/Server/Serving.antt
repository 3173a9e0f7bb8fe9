-- ===== src/Server/Serving.antt =====
-- A whole exchange with an honest server: the client accepts the output.
use khipu_v_fhe.Prelude.{
  ℕ, ◌≡◌, ◌<◌, ◌^◌, refl, sym, ap, ◌∙◌, arith, List, map, Bytes, IsByte, All, false, ok, text,
  length, inl, some,
}
use khipu_v_fhe.Libraries.{Blake3, JsonLib, IsJson}
use khipu_v_fhe.Transcript.{
  Transcript, IsTyped, without_timings, to_json, from_json, hash_concatenated, transcript_of_hash,
  generate_transcript, compute_transcript_hash,
}
use khipu_v_fhe.Transcript.RoundTrip.{from_json-to_json}
use khipu_v_fhe.Attestation.{Tdx, report_data, issued, generate_tdx_quote}
use khipu_v_fhe.Protocol.{Request, build_request, Response, build_response}
use khipu_v_fhe.Protocol.Responses.{parse_response-build_response, build_response_filled}
use khipu_v_fhe.Verifier.{JsonNav, Dcap}
use khipu_v_fhe.Verifier.Checks.{Agrees, verify_transcript_iff}
use khipu_v_fhe.Verifier.Soundness.{Reported, verify_all_iff}
use khipu_v_fhe.Server.{Fhe, Workload, Times, timed, quoted, attest, respond}
use khipu_v_fhe.Server.Handling.{Evaluates, respond-Evaluates}
use khipu_v_fhe.Client.{
  contains_text, response_error, trailing_error, check_evidence, check_parsed, check_response,
}
use khipu_v_fhe.Client.Trust.{generate_transcript-IsTyped}

module _ (B : Blake3) where
  -- The transcript that is sent, with the times of the run.
  abbrev pub sent_transcript : Request → Bytes → Times → Transcript
  sent_transcript q out times =
      quoted (timed (generate_transcript B q.nonce q.eval_keys q.input_cts out) times) times

  pub sent_transcript-IsTyped :
      (q : Request) (out : Bytes) (times : Times)
      → All IsByte q.nonce
      → IsTyped (sent_transcript q out times)
  unfolding timed quoted
  sent_transcript-IsTyped q out times h =
      let t = generate_transcript-IsTyped B q.nonce q.eval_keys q.input_cts out h in
      record {
        nonce = t.nonce;
        eval_key = t.eval_key;
        inputs = t.inputs;
        output = t.output;
        eval_time = omega arith;
        transcript_time = omega arith;
        quote_time = omega arith;
      }

  pub sent_transcript-Agrees :
      (q : Request) (out : Bytes) (times : Times)
      → Agrees
          (sent_transcript q out times)
          q.nonce
          (hash_concatenated B q.eval_keys)
          (map B.hash q.input_cts)
          (B.hash out)
  unfolding timed quoted generate_transcript transcript_of_hash
  sent_transcript-Agrees q out times = record {
    nonce_eq = refl;
    key_eq = refl;
    inputs_eq = refl;
    output_eq = refl;
  }

  -- The times do not come into the digest.
  pub hash-timed :
      (J : JsonLib) (t : Transcript) (times : Times)
      → compute_transcript_hash B J (timed t times) ≡ compute_transcript_hash B J t
  unfolding compute_transcript_hash without_timings timed
  hash-timed J t times = refl

  pub hash-sent :
      (J : JsonLib) (q : Request) (out : Bytes) (times : Times)
      → compute_transcript_hash B J (sent_transcript q out times)
        ≡ compute_transcript_hash B J (generate_transcript B q.nonce q.eval_keys q.input_cts out)
  unfolding compute_transcript_hash without_timings timed quoted
  hash-sent J q out times = refl

module _ (J : JsonLib) (N : JsonNav J) (D : Dcap) (B : Blake3) (T : Tdx) where
  -- What is outside of the program in a run that succeeds: the TDX library makes a quote over the
  -- digest of the evaluation, which the client's DCAP library verifies and reports, the transcript's
  -- text does not have the word that the client takes for an error, and the response fits a vector.
  pub record Runs (q : Request) (mr : List ℕ) (out : Bytes) (times : Times) : Type 0 where
    pub digest : Bytes
    pub hashed :
        compute_transcript_hash B J (generate_transcript B q.nonce q.eval_keys q.input_cts out)
        ≡ ok digest
    pub quote : Bytes
    pub made : T.get_quote (report_data digest) ≡ inl quote
    pub reported : Reported J N D quote (report_data digest) mr
    pub json : List ℕ
    pub written : to_json J (sent_transcript B q out times) ≡ ok json
    pub no_error : contains_text (text "\"error\"") json ≡ false
    pub fits :
        length (build_response (record { output_ct = out; transcript_json = json; quote = quote }))
        < 2 ^ 63

  module _ {q : Request} {mr : List ℕ} {out : Bytes} {times : Times} (r : Runs q mr out times) where
    abbrev pub response : Response
    response = record { output_ct = out; transcript_json = r.json; quote = r.quote }

    quote_made : generate_tdx_quote T r.digest ≡ ok r.quote
    unfolding generate_tdx_quote issued
    quote_made = ap (issued (text "[attestation] tdx_att_get_quote")) r.made

    pub attest-Runs : attest J B T q out times ≡ ok (build_response response)
    unfolding attest
    attest-Runs = rw (hash-timed B J _ times ∙ r.hashed, quote_made, r.written) refl

    check_evidence-Runs :
        IsJson J
        → All IsByte q.nonce
        → check_evidence J N D B q mr response (sent_transcript B q out times) ≡ ok (some out)
    unfolding check_evidence
    check_evidence-Runs L h =
        let t = sent_transcript B q out times in
        let agrees = sent_transcript-Agrees B q out times in
        let checks =
          (verify_transcript_iff t q.nonce (hash_concatenated B q.eval_keys)
              (map B.hash q.input_cts) (B.hash out)).1
            agrees in
        let verified =
          (verify_all_iff J N D L B r.quote (report_data r.digest) mr t q.nonce _ _ _ r.reported
              (sent_transcript-IsTyped B q out times h)).1
            (agrees, (r.digest, hash-sent B J q out times ∙ r.hashed, refl)) in
        rw (checks, verified) refl

    pub check_response-Runs :
        IsJson J
        → All IsByte q.nonce
        → check_response J N D B q mr (build_response response) ≡ ok (some out)
    unfolding check_response check_parsed
    check_response-Runs L h =
        let (s, written, back) =
          from_json-to_json J L (sent_transcript B q out times)
            (sent_transcript-IsTyped B q out times h) in
        let same : s ≡ r.json = cc (sym written ∙ r.written) in
        let read : from_json J r.json ≡ ok (sent_transcript B q out times) =
          ap (from_json J) (sym same) ∙ back in
        rw
          (
            build_response_filled response,
            parse_response-build_response response_error trailing_error response r.fits,
            r.no_error,
            read,
            check_evidence-Runs L h,
          )
          refl

  -- A client that sends a request of a size that fits, which the server can evaluate, gets an answer, and
  -- accepts it and decrypts the output that the evaluation serialized: if a quote is issued, which the
  -- client's DCAP library verifies and reports with the measurement that the client expects, if the text
  -- of the transcript does not have `"error"` in it, and if the answer fits a vector.
  pub respond-check_response :
      (F : Fhe) (registry : List (List ℕ × Workload F)) (keys : F.Keys) (q : Request) (mr : List ℕ)
      (out : Bytes) (times : Times)
      → IsJson J
      → All IsByte q.nonce
      → length (build_request q) < 2 ^ 63
      → length q.eval_keys < 2 ^ 32
      → length q.input_cts < 2 ^ 32
      → Evaluates J B T F registry keys q out
      → Runs q mr out times
      → (resp : Bytes) × (respond J B T F registry keys (build_request q) times ≡ ok resp)
        × (check_response J N D B q mr resp ≡ ok (some out))
  respond-check_response F registry keys q mr out times L hn h hk hc e r = (
    build_response (response r),
    respond-Evaluates J B T F registry keys q out times h hk hc e ∙ attest-Runs r,
    check_response-Runs r L hn,
  )
