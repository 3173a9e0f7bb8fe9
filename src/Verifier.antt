-- ===== src/Verifier.antt =====
-- The client's checks: the class `Verifier` of verifier.cpp (Prototype D, whose first three methods
-- are those of Prototypes A and E). The DCAP library, OpenSSL's base64 and the navigation in JSON
-- values are parameters.
pub mod Checks
pub mod Quotes
pub mod Soundness
use khipu_v_fhe.Prelude.{
  ℕ, zero, suc, ◌+◌, ◌-◌, ◌%◌, ◌^◌, ◌≡◌, List, [], ◌∷◌, ◌++◌, map, Bytes, Bool, true, false, not,
  ◌&&◌, Outcome, ok, throw, ◌>>=◌, catch, text, length, take, drop, is_empty, bytes_eq, ltb, ◌==◌,
  if◌then◌else◌, Option, none, some,
}
use khipu_v_fhe.Hex.{hex_match}
use khipu_v_fhe.Libraries.{Blake3, JsonLib}
use khipu_v_fhe.Transcript.{Transcript, compute_transcript_hash}
use khipu_v_fhe.Attestation.{
  expected_report_data, compute_gpu_evidence_digest, compute_heterogeneous_binding_digest,
}
use khipu_v_fhe.Evidence.{verify_gpu_evidence}

-- `tee_verify_quote_qvt` on a quote and its size, the policy file if it opens,
-- `tee_appraise_verification_token` on a token and a policy, each with its return code, and
-- `EVP_DecodeBlock`: the bytes it decodes, unless it returns a negative number.
pub record Dcap : Type 0 where
  pub verify_quote : Bytes → ℕ → ℕ × Bytes
  pub policy_file : Option Bytes
  pub appraise : Bytes → Bytes → ℕ × Bytes
  pub decode_block : List ℕ → Option Bytes

-- `operator[]`, `contains` and `value` with a string for a default.
pub record JsonNav (J : JsonLib) : Type 0 where
  pub index : J.Json → ℕ → Outcome J.Json
  pub field : J.Json → List ℕ → Outcome J.Json
  pub contains : J.Json → List ℕ → Bool
  pub value_string : J.Json → List ℕ → List ℕ → Outcome (List ℕ)

-- `while (s.size() % 4 != 0) s.push_back('=')`, with the rounds that are allowed.
unfoldable pub pad_loop : ℕ → List ℕ → List ℕ
pad_loop zero s = s
pad_loop (suc n) s =
    let padded = pad_loop n (s ++ (b'=' ∷ [])) in if length s % 4 == 0 then s else padded

-- Whether the `k`-th character from the end is a padding character.
unfoldable pub pad_at : List ℕ → ℕ → ℕ
pad_at s k =
    if ltb (length s) k
    then 0
    else elim (drop (length s - k) s) [ [] ↦ 0 | c ∷ _ ↦ if c == b'=' then 1 else 0 ]

-- `out.resize(n - pad)`: the difference is one of size_t, and no vector has 2 ^ 63 bytes.
unfoldable pub cut_padding : Bytes → ℕ → Outcome Bytes
cut_padding out pad =
    let final_len = (length out + 2 ^ 64 - pad) % 2 ^ 64 in
    if ltb final_len (2 ^ 63)
    then ok (take final_len out)
    else throw (text "vector::_M_default_append")

unfoldable pub b64_decode : (List ℕ → Option Bytes) → List ℕ → Outcome Bytes
unfolding pad_loop pad_at cut_padding
b64_decode decode_block input =
    let s = pad_loop 3 input in
    elim (decode_block s) [
      | none ↦ throw (text "base64 decode failed")
      | some out ↦ cut_padding out (pad_at s 1 + pad_at s 2)
    ]

-- `-` and `_` stand for `+` and `/`.
unfoldable pub base64url_char : ℕ → ℕ
base64url_char c = if c == b'-' then b'+' else if c == b'_' then b'/' else c

unfoldable pub base64url_decode : (List ℕ → Option Bytes) → List ℕ → Outcome Bytes
unfolding base64url_char b64_decode
base64url_decode decode_block input = b64_decode decode_block (map base64url_char input)

-- `s.find(c)`; `none` is npos.
unfoldable pub find_char : ℕ → List ℕ → Option ℕ
find_char c [] = none
find_char c (x ∷ xs) =
    let later : Option ℕ = elim (find_char c xs) [ none ↦ none | some i ↦ some (suc i) ] in
    if x == c then some 0 else later

-- What stands between the first dot of a token and the second.
unfoldable pub jwt_payload : List ℕ → Option (List ℕ)
unfolding find_char
jwt_payload jwt = elim (find_char b'.' jwt) [
  | none ↦ none
  | some dot1 ↦
      let rest = drop (dot1 + 1) jwt in
      elim (find_char b'.' rest) [ none ↦ none | some n ↦ some (take n rest) ]
]

-- The loop of `verify_transcript` over the inputs' digests, of which there are as many on both sides.
unfoldable pub hashes_match : List Bytes → List Bytes → Bool
hashes_match [] expected = true
hashes_match (h ∷ hs) [] = false
hashes_match (h ∷ hs) (e ∷ es) = bytes_eq h e && hashes_match hs es

unfoldable pub verify_transcript : Transcript → Bytes → Bytes → List Bytes → Bytes → Bool
unfolding hashes_match
verify_transcript t expected_nonce expected_eval_key_hash expected_inputs expected_output =
    if not (bytes_eq t.nonce expected_nonce)
    then false
    else if not (bytes_eq t.eval_key_hash expected_eval_key_hash)
    then false
    else if not (length t.input_ct_hashes == length expected_inputs)
    then false
    else if not (hashes_match t.input_ct_hashes expected_inputs)
    then false
    else bytes_eq t.output_ct_hash expected_output

module _ (J : JsonLib) (N : JsonNav J) (D : Dcap) where
  open J use {Json, parse, elements}
  open N use {index, field, contains, value_string}
  open D use {verify_quote, policy_file, appraise, decode_block}

  -- One report of the list: its measurement, if that has report data. `others` is what the rest of
  -- the loop finds.
  unfoldable pub report_measurement : Json → Outcome (Option Json) → Outcome (Option Json)
  report_measurement report others =
      if not (contains report (text "measurement")) then others else (do
        meas ← field report (text "measurement")
        if contains meas (text "tdx_reportdata") then ok (some meas) else others)

  -- The first report whose measurement has report data.
  unfoldable pub find_measurement : List Json → Outcome (Option Json)
  find_measurement [] = ok none
  find_measurement (rep ∷ reports) =
      let others = find_measurement reports in
      if not (contains rep (text "report"))
      then others
      else (do report ← field rep (text "report"); report_measurement report others)

  unfoldable pub appraisal_measurement : List ℕ → Outcome (Option Json)
  appraisal_measurement appraisal_str = do
    appraisal ← parse appraisal_str
    first ← index appraisal 0
    result ← field first (text "result")
    reports ← field result (text "appraised_reports")
    find_measurement (elements reports)

  -- From the token of the appraisal to the measurement.
  unfoldable pub token_measurement : List ℕ → Outcome (Option Json)
  token_measurement jwt = elim (jwt_payload jwt) [
    | none ↦ ok none
    | some payload_b64 ↦ do
      payload_bytes ← base64url_decode decode_block payload_b64
      payload ← parse payload_bytes
      appraisal_str ← value_string payload (text "appraisal_result") []
      if is_empty appraisal_str then ok none else appraisal_measurement appraisal_str
  ]

  -- `verify_tdx_quote` up to the measurement; `ok none` is a `return false` before it.
  unfoldable pub measurement : Bytes → Outcome (Option Json)
  measurement quote_bytes =
      let (ret, jwt) = verify_quote quote_bytes (length quote_bytes % 2 ^ 32) in
      if not (ret == 0) then ok none else elim policy_file [
        | none ↦ ok none
        | some policy ↦
            let (appr_ret, appr) = appraise jwt (policy ++ (0 ∷ [])) in
            if not (appr_ret == 0) then ok none else token_measurement appr
      ]

  -- An empty MR_TD skips this check.
  unfoldable pub check_mr_td : Json → List ℕ → Outcome Bool
  check_mr_td meas expected_mr_td_hex = if is_empty expected_mr_td_hex then ok true else (do
    mr_td_hex ← value_string meas (text "tdx_mrtd") []
    ok (not (is_empty mr_td_hex) && hex_match mr_td_hex expected_mr_td_hex))

  -- The rest of it.
  unfoldable pub check_measurement : Json → List ℕ → List ℕ → Outcome Bool
  check_measurement meas expected_mr_td_hex expected_report_data_hex = do
    report_data_hex ← value_string meas (text "tdx_reportdata") []
    (if is_empty report_data_hex
        then ok false
        else if not (hex_match report_data_hex expected_report_data_hex)
        then ok false
        else check_mr_td meas expected_mr_td_hex)

  unfoldable pub measured : Option Json → List ℕ → List ℕ → Outcome Bool
  measured none expected_mr_td_hex expected_report_data_hex = ok false
  measured (some meas) expected_mr_td_hex expected_report_data_hex =
      check_measurement meas expected_mr_td_hex expected_report_data_hex

  -- Every exception is a `return false`.
  unfoldable pub verify_tdx_quote : Bytes → List ℕ → List ℕ → Outcome Bool
  verify_tdx_quote quote_bytes expected_mr_td_hex expected_report_data_hex =
      catch
        (measurement quote_bytes >>= λ found.
          measured found expected_mr_td_hex expected_report_data_hex)
        (λ e. ok false)

  module _ (B : Blake3) where
    unfoldable pub verify_all :
        Bytes → Transcript → Bytes → List ℕ → Bytes → List Bytes → Bytes → Outcome Bool
    verify_all quote_bytes transcript nonce mr_td_hex eval_key_hash inputs output = do
      h ← compute_transcript_hash B J transcript
      (if not (verify_transcript transcript nonce eval_key_hash inputs output)
          then ok false
          else verify_tdx_quote quote_bytes mr_td_hex (expected_report_data h))

    unfoldable pub verify_heterogeneous :
        Bytes → Bytes → Transcript → Bytes → List ℕ → Bytes → List Bytes → Bytes → Outcome Bool
    verify_heterogeneous quote_bytes gpu_evidence transcript nonce mr_td_hex eval_key_hash inputs
          output =
        if not (verify_transcript transcript nonce eval_key_hash inputs output)
        then ok false
        else if not (verify_gpu_evidence gpu_evidence nonce)
        then ok false
        else (do
          transcript_digest ← compute_transcript_hash B J transcript
          let gpu_digest = compute_gpu_evidence_digest B gpu_evidence
          let binding = compute_heterogeneous_binding_digest B transcript_digest gpu_digest
          verify_tdx_quote quote_bytes mr_td_hex (expected_report_data binding))
