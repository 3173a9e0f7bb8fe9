-- ===== src/GpuServer/Exchange.antt =====
-- A whole exchange of Prototype C with an honest server: the client accepts the output.
use khipu_v_fhe.Prelude.{
  ℕ, ◌≡◌, ◌≢◌, ◌<◌, ◌^◌, refl, sym, ap, ◌∙◌, List, [], Bytes, IsByte, All, true, false, ok, text,
  length, is_empty, inl, some,
}
use khipu_v_fhe.Libraries.{Blake3, JsonLib, IsJson}
use khipu_v_fhe.Transcript.{
  to_json, from_json, hash_concatenated, generate_transcript, compute_transcript_hash,
}
use khipu_v_fhe.Transcript.RoundTrip.{from_json-to_json}
use khipu_v_fhe.Attestation.{Tdx, report_data, issued, generate_tdx_quote_heterogeneous}
use khipu_v_fhe.Evidence.{le32, write_part, GpuEvidencePackage, serialize, nonce_array}
use khipu_v_fhe.Evidence.Adapter.{Nvat, init, collect_evidence}
use khipu_v_fhe.Evidence.Adapter.Collecting.{verify_gpu_evidence-collect_evidence}
use khipu_v_fhe.Evidence.Package.{verify_gpu_evidence_iff}
use khipu_v_fhe.Protocol.{Request, GpuRequest, build_gpu_request, GpuResponse, build_gpu_response}
use khipu_v_fhe.Protocol.GpuResponses.{
  parse_gpu_response-build_gpu_response, build_gpu_response_filled,
}
use khipu_v_fhe.Verifier.{JsonNav, Dcap}
use khipu_v_fhe.Verifier.Soundness.{Reported, verify_heterogeneous_iff}
use khipu_v_fhe.Server.{Times}
use khipu_v_fhe.Server.Serving.{
  sent_transcript, sent_transcript-IsTyped, sent_transcript-Agrees, hash-timed, hash-sent,
}
use khipu_v_fhe.Client.{contains_text, response_error}
use khipu_v_fhe.Client.Gpu.{bound, verify_gpu_response, check_gpu_parsed, check_gpu_response}
use khipu_v_fhe.GpuServer.{
  GpuFhe, GpuGlobals, GpuWorkload, gather_evidence, gpu_quote, attest_gpu, respond_gpu,
}
use khipu_v_fhe.GpuServer.Handling.{GpuEvaluates, respond_gpu-GpuEvaluates}

module _ (J : JsonLib) (N : JsonNav J) (D : Dcap) (B : Blake3) (T : Tdx) (V : Nvat) where
  -- What is outside of the program in a run that succeeds: the NVTrust SDK starts and collects
  -- evidence with some JSON, whose sizes fit 32 bits; the TDX library makes a quote over the digest of
  -- the transcript and the evidence, which the client's DCAP library verifies and reports; the
  -- transcript's text does not have the word that the client takes for an error; and the response
  -- fits a vector.
  pub record GpuRuns (q : Request) (mr : List ℕ) (out : Bytes) (times : Times) : Type 0 where
    pub started : (init V false).0 ≡ true
    pub pkg : GpuEvidencePackage
    pub collected : (collect_evidence V true (nonce_array q.nonce)).0 ≡ ok pkg
    pub json_size : length pkg.evidence_json < 2 ^ 32
    pub eat_size : length pkg.detached_eat < 2 ^ 32
    pub claims_size : length pkg.claims_json < 2 ^ 32
    pub json_filled : pkg.evidence_json ≢ []
    pub digest : Bytes
    pub hashed :
        compute_transcript_hash B J (generate_transcript B q.nonce q.eval_keys q.input_cts out)
        ≡ ok digest
    pub quote : Bytes
    pub made : T.get_quote (report_data (bound B (serialize pkg) digest)) ≡ inl quote
    pub reported : Reported J N D quote (report_data (bound B (serialize pkg) digest)) mr
    pub json : List ℕ
    pub written : to_json J (sent_transcript B q out times) ≡ ok json
    pub no_error : contains_text (text "\"error\"") json ≡ false
    pub fits :
        length (
          build_gpu_response (record {
            output_ct = out;
            transcript_json = json;
            gpu_evidence = serialize pkg;
            quote = quote;
          }))
        < 2 ^ 63

  module _ {q : Request} {mr : List ℕ} {out : Bytes} {times : Times}
      (r : GpuRuns q mr out times) where
    abbrev pub gpu_response : GpuResponse
    gpu_response = record {
      output_ct = out;
      transcript_json = r.json;
      gpu_evidence = serialize r.pkg;
      quote = r.quote;
    }

    evidence_filled : is_empty (serialize r.pkg) ≡ false
    unfolding serialize write_part le32
    evidence_filled = refl

    gather_evidence-GpuRuns : gather_evidence V q.nonce ≡ ok (serialize r.pkg)
    unfolding gather_evidence
    gather_evidence-GpuRuns = rw (r.started, r.collected) refl

    gpu_quote-GpuRuns : gpu_quote B T r.digest (serialize r.pkg) ≡ ok r.quote
    unfolding gpu_quote generate_tdx_quote_heterogeneous issued
    gpu_quote-GpuRuns = rw (evidence_filled, rw evidence_filled at r.made) refl

    pub attest_gpu-GpuRuns : attest_gpu J B T V q out times ≡ ok (build_gpu_response gpu_response)
    unfolding attest_gpu
    attest_gpu-GpuRuns =
        rw
          (hash-timed B J _ times ∙ r.hashed, gather_evidence-GpuRuns, gpu_quote-GpuRuns, r.written)
          refl

    module _ (L : IsJson J) (h : All IsByte q.nonce) where
      verify_gpu_response-GpuRuns :
          verify_gpu_response J N D B q
            (hash_concatenated B q.eval_keys)
            mr
            gpu_response
            (sent_transcript B q out times)
          ≡ ok true
      unfolding verify_gpu_response
      verify_gpu_response-GpuRuns =
          let t = sent_transcript B q out times in
          let accepted =
            verify_gpu_evidence-collect_evidence V true q.nonce r.pkg r.collected r.json_size
              r.eat_size r.claims_size r.json_filled in
          rw evidence_filled (
            (verify_heterogeneous_iff J N D L B r.quote (serialize r.pkg) _ mr t q.nonce _ _ _
                r.reported (sent_transcript-IsTyped B q out times h)).1
              (
                sent_transcript-Agrees B q out times,
                (verify_gpu_evidence_iff (serialize r.pkg) q.nonce).0 accepted,
                (r.digest, hash-sent B J q out times ∙ r.hashed, rw evidence_filled refl),
              ))

      check_gpu_response-GpuRuns :
          check_gpu_response J N D B q
            (hash_concatenated B q.eval_keys)
            mr
            (build_gpu_response gpu_response)
          ≡ ok (some out)
      unfolding check_gpu_response check_gpu_parsed
      check_gpu_response-GpuRuns =
          let (s, written, back) =
            from_json-to_json J L (sent_transcript B q out times)
              (sent_transcript-IsTyped B q out times h) in
          let same : s ≡ r.json = cc (sym written ∙ r.written) in
          let read : from_json J r.json ≡ ok (sent_transcript B q out times) =
            ap (from_json J) (sym same) ∙ back in
          rw
            (
              build_gpu_response_filled gpu_response,
              parse_gpu_response-build_gpu_response response_error gpu_response r.fits,
              r.no_error,
              read,
              verify_gpu_response-GpuRuns,
            )
            refl

  -- A client of Prototype C that sends a request which the server can evaluate gets an answer with
  -- the evidence of the GPU, and accepts it and decrypts the output that the evaluation serialized, if
  -- the evidence is collected, a quote is issued, verified and reported, the transcript does not have
  -- `"error"` in it, and all sizes fit.
  pub respond_gpu-check_gpu_response :
      (F : GpuFhe) (registry : List (List ℕ × GpuWorkload F)) (g : GpuGlobals F) (q : GpuRequest)
      (mr : List ℕ) (out : Bytes) (times : Times)
      → IsJson J
      → All IsByte q.nonce
      → length (build_gpu_request q) < 2 ^ 63
      → length q.eval_keys < 2 ^ 32
      → length q.input_cts < 2 ^ 32
      → GpuEvaluates J B T V F registry g.keys q out
      → GpuRuns q.request mr out times
      → (resp : Bytes) × ((respond_gpu J B T V F registry (build_gpu_request q) times g).0
          ≡ ok resp)
        × (check_gpu_response J N D B q.request (hash_concatenated B q.eval_keys) mr resp
            ≡ ok (some out))
  respond_gpu-check_gpu_response F registry g q mr out times L hn h hk hc e r = (
    build_gpu_response (gpu_response r),
    respond_gpu-GpuEvaluates J B T V F registry g q out times h hk hc e ∙ attest_gpu-GpuRuns r,
    check_gpu_response-GpuRuns r L hn,
  )
