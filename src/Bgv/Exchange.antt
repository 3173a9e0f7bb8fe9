-- ===== src/Bgv/Exchange.antt =====
-- A whole exchange of Prototype E.
use khipu_v_fhe.Prelude.{
  ℕ, ◌^◌, ◌<◌, ◌≡◌, refl, sym, ap, ◌∙◌, arith, List, [], ◌∷◌, map, Bytes, IsByte, All, false,
  Outcome, ok, throw, fault, ◌>>=◌, text, length, is_empty, inl, some,
}
use khipu_v_fhe.Libraries.{Blake3, JsonLib, IsJson}
use khipu_v_fhe.Transcript.{without_timings, hash_concatenated, generate_transcript}
use khipu_v_fhe.Attestation.{Tdx, report_data, issued, generate_tdx_quote}
use khipu_v_fhe.Protocol.{Request, build_request, Response, build_response}
use khipu_v_fhe.Protocol.Requests.{parse_request-build_request}
use khipu_v_fhe.Protocol.Responses.{parse_response-build_response, build_response_filled}
use khipu_v_fhe.Verifier.{JsonNav, Dcap}
use khipu_v_fhe.Verifier.Checks.{verify_transcript_iff}
use khipu_v_fhe.Verifier.Soundness.{Reported}
use khipu_v_fhe.Server.{
  Fhe, Workload, stage, quoted, reader_error, trailing_error, load_key, load_keys,
}
use khipu_v_fhe.Server.Handling.{Evaluates}
use khipu_v_fhe.Server.Serving.{sent_transcript-IsTyped, sent_transcript-Agrees}
use khipu_v_fhe.Client.{contains_text, response_error, trailing_error as response_trailing_error}
use khipu_v_fhe.Bgv.{
  BgvTranscript, BgvTimes, bgv_without_timings, bgv_to_json, bgv_from_json, bgv_transcript_hash,
  bgv_timed, load_bgv_keys, bgv_attest, bgv_evaluate, bgv_dispatch, bgv_respond, bgv_check_evidence,
  bgv_check_parsed, bgv_check_response,
}
use khipu_v_fhe.Bgv.Evidence.{
  BgvIsTyped, bgv_from_json-bgv_to_json, bgv_transcript_hash-TimelessHash, bgv_verify_all_iff,
}

module _ (B : Blake3) where
  -- The transcript that is sent.
  abbrev pub bgv_sent : Request → Bytes → BgvTimes → BgvTranscript
  bgv_sent q out times =
      let t = bgv_timed (generate_transcript B q.nonce q.eval_keys q.input_cts out) times in
      record t { core = quoted t.core times.times }

  pub bgv_sent-BgvIsTyped :
      (q : Request) (out : Bytes) (times : BgvTimes)
      → All IsByte q.nonce
      → BgvIsTyped (bgv_sent q out times)
  unfolding bgv_timed
  bgv_sent-BgvIsTyped q out times h = record {
    core = sent_transcript-IsTyped B q out times.times h;
    ctx_time = omega arith;
    outser_time = omega arith;
  }

  -- The five times do not come into the digest.
  bgv_hash-timed :
      (J : JsonLib) (q : Request) (out : Bytes) (times : BgvTimes)
      → bgv_transcript_hash J B (bgv_sent q out times)
        ≡ bgv_transcript_hash J B
            (bgv_timed (generate_transcript B q.nonce q.eval_keys q.input_cts out) times)
  unfolding bgv_transcript_hash bgv_without_timings without_timings quoted
  bgv_hash-timed J q out times = refl

>>=_ext {ℓ κ} :
    {V : Type ℓ} {W : Type κ} (m : Outcome V) (f g : V → Outcome W)
    → ((v : V) → f v ≡ g v)
    → (m >>= f) ≡ (m >>= g)
>>=_ext (ok v) f g h = h v
>>=_ext (throw e) f g h = refl
>>=_ext fault f g h = refl

module _ (F : Fhe) where
  -- Without empty blobs the keys are loaded as in Prototype A.
  load_bgv_keys_lem :
      (kbs : List Bytes) (keys : F.Keys)
      → All (λ kb. is_empty kb ≡ false) kbs
      → load_bgv_keys F kbs keys ≡ load_keys F kbs keys
  unfolding load_bgv_keys load_keys
  load_bgv_keys_lem [] keys h = refl
  load_bgv_keys_lem (kb ∷ kbs) keys (hk, h) =
      rw hk (>>=_ext (load_key F kb keys) _ _ (λ keys'. load_bgv_keys_lem kbs keys' h))

module _ (J : JsonLib) (N : JsonNav J) (D : Dcap) (B : Blake3) (T : Tdx) where
  -- What is outside of the program in a run that succeeds, as for Prototype A.
  pub record BgvRuns (q : Request) (mr : List ℕ) (out : Bytes) (times : BgvTimes) : Type 0 where
    pub digest : Bytes
    pub hashed :
        bgv_transcript_hash J B
          (bgv_timed (generate_transcript B q.nonce q.eval_keys q.input_cts out) times)
        ≡ ok digest
    pub quote : Bytes
    pub made : T.get_quote (report_data digest) ≡ inl quote
    pub reported : Reported J N D quote (report_data digest) mr
    pub json : List ℕ
    pub written : bgv_to_json J (bgv_sent B q out times) ≡ ok json
    pub no_error : contains_text (text "\"error\"") json ≡ false
    pub fits :
        length (build_response (record { output_ct = out; transcript_json = json; quote = quote }))
        < 2 ^ 63

  module _ {q : Request} {mr : List ℕ} {out : Bytes} {times : BgvTimes}
      (r : BgvRuns q mr out times) where
    abbrev answered : Response
    answered = record { output_ct = out; transcript_json = r.json; quote = r.quote }

    quote_made : generate_tdx_quote T r.digest ≡ ok r.quote
    unfolding generate_tdx_quote issued
    quote_made = ap (issued (text "[attestation] tdx_att_get_quote")) r.made

    bgv_attest-BgvRuns : bgv_attest J B T q out times ≡ ok (build_response answered)
    unfolding bgv_attest
    bgv_attest-BgvRuns = rw (r.hashed, quote_made, r.written) refl

    bgv_check_evidence-BgvRuns :
        IsJson J
        → All IsByte q.nonce
        → bgv_check_evidence J N D B q mr answered (bgv_sent B q out times) ≡ ok (some out)
    unfolding bgv_check_evidence bgv_timed
    bgv_check_evidence-BgvRuns L h =
        let t = bgv_sent B q out times in
        let agrees = sent_transcript-Agrees B q out times.times in
        let checks =
          (verify_transcript_iff t.core q.nonce (hash_concatenated B q.eval_keys)
              (map B.hash q.input_cts) (B.hash out)).1
            agrees in
        let hashed =
          (bgv_transcript_hash-TimelessHash J B t r.digest).0
            (bgv_hash-timed B J q out times ∙ r.hashed) in
        let verified =
          (bgv_verify_all_iff J N D L B r.quote (report_data r.digest) mr t q.nonce _ _ _ r.reported
              (bgv_sent-BgvIsTyped B q out times h)).1
            (agrees, (r.digest, hashed, refl)) in
        rw (checks, verified) refl

    bgv_check_response-BgvRuns :
        IsJson J
        → All IsByte q.nonce
        → bgv_check_response J N D B q mr (build_response answered) ≡ ok (some out)
    unfolding bgv_check_response bgv_check_parsed
    bgv_check_response-BgvRuns L h =
        let (s, written, back) =
          bgv_from_json-bgv_to_json J L (bgv_sent B q out times)
            (bgv_sent-BgvIsTyped B q out times h) in
        let same : s ≡ r.json = cc (sym written ∙ r.written) in
        let read : bgv_from_json J r.json ≡ ok (bgv_sent B q out times) =
          ap (bgv_from_json J) (sym same) ∙ back in
        rw
          (
            build_response_filled answered,
            parse_response-build_response response_error response_trailing_error answered r.fits,
            r.no_error,
            read,
            bgv_check_evidence-BgvRuns L h,
          )
          refl

  -- A client of Prototype E that sends a request which the server can evaluate, with no empty key blob,
  -- gets an answer, and accepts it and decrypts the output that the evaluation serialized, if a quote is
  -- issued, verified and reported, the transcript does not have `"error"` in it, and all sizes fit.
  pub bgv_respond-bgv_check_response :
      (F : Fhe) (registry : List (List ℕ × Workload F)) (keys : F.Keys) (q : Request) (mr : List ℕ)
      (out : Bytes) (times : BgvTimes)
      → IsJson J
      → All IsByte q.nonce
      → All (λ kb. is_empty kb ≡ false) q.eval_keys
      → length (build_request q) < 2 ^ 63
      → length q.eval_keys < 2 ^ 32
      → length q.input_cts < 2 ^ 32
      → Evaluates J B T F registry keys q out
      → BgvRuns q mr out times
      → (resp : Bytes) × (bgv_respond J B T F registry keys (build_request q) times ≡ ok resp)
        × (bgv_check_response J N D B q mr resp ≡ ok (some out))
  unfolding bgv_respond bgv_dispatch bgv_evaluate stage
  bgv_respond-bgv_check_response F registry keys q mr out times L hn filled h hk hc e r = (
    build_response (answered r),
    rw
        (
          parse_request-build_request reader_error trailing_error q h hk hc,
          e.found,
          e.made,
          load_bgv_keys_lem F q.eval_keys keys filled,
          e.loaded,
          e.input_cts,
          e.evaluated,
          e.serialized,
        )
        (bgv_attest-BgvRuns r),
    bgv_check_response-BgvRuns r L hn,
  )
