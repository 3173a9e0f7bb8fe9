-- ===== src/Attestation.antt =====
-- Quotes: attestation.cpp of Prototypes A and D. The TDX library is a parameter.
pub mod ReportData
use khipu_v_fhe.Prelude.{
  ℕ, zero, suc, ◌+◌, ◌*◌, ◌/◌, ◌%◌, ◌≡◌, List, [], ◌∷◌, ◌++◌, Bytes, Outcome, ok, throw, ◌⊎◌, inl,
  inr, text, length, take, drop, replicate, ltb, if◌then◌else◌,
}
use khipu_v_fhe.Hex.{to_hex}
use khipu_v_fhe.Libraries.{Blake3}

-- `tdx_att_get_quote` on 64 bytes of report data: a quote, or an error code.
pub record Tdx : Type 0 where
  pub get_quote : Bytes → Bytes ⊎ ℕ

-- `std::to_string` of an unsigned number: the digits found so far, lowest first.
unfoldable pub decimal : ℕ → ℕ → List ℕ → List ℕ
decimal zero n digits = digits
decimal (suc fuel) n digits =
    let digits' = (b'0' + n % 10) ∷ digits in
    let more = decimal fuel (n / 10) digits' in if ltb n 10 then digits' else more

-- A uint32_t has at most ten digits.
unfoldable pub to_string : ℕ → List ℕ
unfolding decimal
to_string n = decimal 10 n []

-- `memset` of 64 bytes to 0, then `memcpy` of the digest into the first 32.
unfoldable pub report_data : Bytes → Bytes
report_data digest = take 32 digest ++ replicate 32 0

-- The quote, or an exception with the error code: `"…failed (code " + std::to_string(rc) + ")"`.
unfoldable pub issued : List ℕ → Bytes ⊎ ℕ → Outcome Bytes
unfolding to_string
issued failed (inl quote) = ok quote
issued failed (inr rc) = throw (failed ++ (text " failed (code " ++ (to_string rc ++ text ")")))

module _ (T : Tdx) where
  unfoldable pub generate_tdx_quote : Bytes → Outcome Bytes
  unfolding report_data
  generate_tdx_quote transcript_hash =
      issued (text "[attestation] tdx_att_get_quote") (T.get_quote (report_data transcript_hash))

module _ (B : Blake3) where
  open B use {hash}

  unfoldable pub compute_gpu_evidence_digest : Bytes → Bytes
  compute_gpu_evidence_digest gpu_evidence_serialized = hash gpu_evidence_serialized

  -- A buffer of 64 bytes with the two digests.
  unfoldable pub compute_heterogeneous_binding_digest : Bytes → Bytes → Bytes
  compute_heterogeneous_binding_digest transcript_digest gpu_evidence_digest =
      hash (transcript_digest ++ gpu_evidence_digest)

  unfoldable pub generate_tdx_quote_heterogeneous : Tdx → Bytes → Bytes → Outcome Bytes
  unfolding compute_heterogeneous_binding_digest report_data
  generate_tdx_quote_heterogeneous T transcript_digest gpu_evidence_digest =
      let binding = compute_heterogeneous_binding_digest transcript_digest gpu_evidence_digest in
      issued (text "[attestation] heterogeneous quote") (T.get_quote (report_data binding))

-- `for (int i = hex.size() - 2; i >= 0; i -= 2) rev += hex.substr(i, 2);` with `i = 2 * k` for the
-- rounds left; the size of a hexadecimal text is even.
unfoldable pub reverse_pairs : ℕ → List ℕ → List ℕ → List ℕ
reverse_pairs zero hex rev = rev
reverse_pairs (suc k) hex rev = reverse_pairs k hex (rev ++ take 2 (drop (2 * k) hex))

-- What the client expects the quote to report: `std::string(64, '0')`, then the reversed digest.
unfoldable pub expected_report_data : Bytes → List ℕ
unfolding reverse_pairs
expected_report_data digest =
    let hash_hex = to_hex digest in
    replicate 64 b'0' ++ reverse_pairs (length hash_hex / 2) hash_hex []
