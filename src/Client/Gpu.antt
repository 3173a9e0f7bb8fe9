-- ===== src/Client/Gpu.antt =====
-- The client of Prototypes C and D: which of the two verifications it makes.
pub mod Main
use khipu_v_fhe.Prelude.{
  ℕ, List, map, Bytes, Bool, false, not, Outcome, ok, ◌>>=◌, catch, text, is_empty, if◌then◌else◌,
  Option, none, some,
}
use khipu_v_fhe.Libraries.{Blake3, JsonLib}
use khipu_v_fhe.Transcript.{Transcript, from_json}
use khipu_v_fhe.Attestation.{compute_gpu_evidence_digest, compute_heterogeneous_binding_digest}
use khipu_v_fhe.Protocol.{Request, GpuResponse, parse_gpu_response}
use khipu_v_fhe.Verifier.{JsonNav, Dcap, verify_transcript, verify_all, verify_heterogeneous}
use khipu_v_fhe.Client.{contains_text, response_error}

module _ (J : JsonLib) (N : JsonNav J) (D : Dcap) (B : Blake3) where
  -- `ok`, or `false` for the `return 1` on the way. `key` is the digest of the keys, which is computed
  -- while they are written.
  unfoldable pub verify_gpu_response :
      Request → Bytes → List ℕ → GpuResponse → Transcript → Outcome Bool
  verify_gpu_response q key expected_mr_td p transcript =
      let input_ct_hashes = map B.hash q.input_cts in
      let output_ct_hash = B.hash p.output_ct in
      if not (is_empty p.gpu_evidence)
      then verify_heterogeneous J N D B p.quote p.gpu_evidence transcript q.nonce expected_mr_td key
          input_ct_hashes output_ct_hash
      else if not (verify_transcript transcript q.nonce key input_ct_hashes output_ct_hash)
      then ok false
      else verify_all J N D B p.quote transcript q.nonce expected_mr_td key input_ct_hashes
          output_ct_hash

  -- From the parts of the response to the ciphertext to decrypt.
  unfoldable pub check_gpu_parsed : Request → Bytes → List ℕ → GpuResponse → Outcome (Option Bytes)
  check_gpu_parsed q key expected_mr_td p =
      if contains_text (text "\"error\"") p.transcript_json then ok none else (do
        transcript ← from_json J p.transcript_json
        accepted ← verify_gpu_response q key expected_mr_td p transcript
        ok (if accepted then some p.output_ct else none))

  unfoldable pub check_gpu_response : Request → Bytes → List ℕ → Bytes → Outcome (Option Bytes)
  check_gpu_response q key expected_mr_td resp =
      if is_empty resp
      then ok none
      else catch
          (parse_gpu_response response_error resp >>= λ p. check_gpu_parsed q key expected_mr_td p)
          (λ e. ok none)

-- What the report data must hold: the digest of the transcript, with that of the GPU's evidence if
-- there is any.
abbrev pub bound : Blake3 → Bytes → Bytes → Bytes
bound B gpu_evidence h =
    if is_empty gpu_evidence
    then h
    else compute_heterogeneous_binding_digest B h (compute_gpu_evidence_digest B gpu_evidence)
