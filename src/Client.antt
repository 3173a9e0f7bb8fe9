-- ===== src/Client.antt =====
-- The client of Prototype A: client_main.cpp from the response on to the point where it decrypts.
pub mod Trust
pub mod Gpu
pub mod Arguments
pub mod Mnist
pub mod Main
use khipu_v_fhe.Prelude.{
  ℕ, ◌≡◌, List, [], ◌∷◌, map, Bytes, Bool, true, false, not, ◌||◌, Outcome, ok, ◌>>=◌, catch, text,
  length, take, is_empty, bytes_eq, if◌then◌else◌, Option, none, some,
}
use khipu_v_fhe.Libraries.{Blake3, JsonLib}
use khipu_v_fhe.Transcript.{Transcript, from_json, hash_concatenated}
use khipu_v_fhe.Protocol.{Request, Response, parse_response}
use khipu_v_fhe.Verifier.{JsonNav, Dcap, verify_transcript, verify_all}

-- `s.find(needle) != std::string::npos`
unfoldable pub contains_text : List ℕ → List ℕ → Bool
contains_text needle [] = is_empty needle
contains_text needle (c ∷ cs) =
    bytes_eq (take (length needle) (c ∷ cs)) needle || contains_text needle cs

abbrev pub response_error : List ℕ
response_error = text "response truncated"

abbrev pub trailing_error : List ℕ
trailing_error = text "trailing bytes in response"

module _ (J : JsonLib) (N : JsonNav J) (D : Dcap) (B : Blake3) where
  -- The two checks, the second of which makes the first again: the ciphertext to decrypt, or `none`
  -- where `main` returns 1.
  unfoldable pub check_evidence : Request → List ℕ → Response → Transcript → Outcome (Option Bytes)
  check_evidence q expected_mr_td p transcript =
      let eval_key_hash = hash_concatenated B q.eval_keys in
      let input_ct_hashes = map B.hash q.input_cts in
      let output_ct_hash = B.hash p.output_ct in
      if not (verify_transcript transcript q.nonce eval_key_hash input_ct_hashes output_ct_hash)
      then ok none
      else (do
        accepted ←
            verify_all J N D B p.quote transcript q.nonce expected_mr_td eval_key_hash
              input_ct_hashes output_ct_hash
        ok (if accepted then some p.output_ct else none))

  unfoldable pub check_parsed : Request → List ℕ → Response → Outcome (Option Bytes)
  check_parsed q expected_mr_td p =
      if contains_text (text "\"error\"") p.transcript_json
      then ok none
      else (from_json J p.transcript_json >>= λ transcript.
          check_evidence q expected_mr_td p transcript)

  -- `q` is the request that was sent. Every exception is a `return 1`.
  unfoldable pub check_response : Request → List ℕ → Bytes → Outcome (Option Bytes)
  check_response q expected_mr_td resp =
      if is_empty resp
      then ok none
      else catch
          (parse_response response_error trailing_error resp >>= λ p.
            check_parsed q expected_mr_td p)
          (λ e. ok none)
