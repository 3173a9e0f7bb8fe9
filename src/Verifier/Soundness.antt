-- ===== src/Verifier/Soundness.antt =====
-- What the client knows of an evaluation whose evidence it accepts. The DCAP library is taken to
-- report the report data of a genuine quote the way the code says it does: in hexadecimal, last byte
-- first.
use khipu_v_fhe.Prelude.{
  ℕ, zero, suc, ◌≡◌, ◌≢◌, ◌↔◌, inl, inr, refl, subst, sym, ap, ◌∙◌, arith, List, [], ◌∷◌, ◌++◌,
  reverse, Bytes, IsByte, All, All-append, true, ok, text, length, take, replicate, Bool-cases,
  some,
}
use mathlib.Core.List.{reverse-reverse, reverse-cons}
use khipu_v_fhe.Hex.{to_hex, hex_match}
use khipu_v_fhe.Hex.RoundTrip.{hex_match-to_hex}
use khipu_v_fhe.Libraries.{Blake3, JsonLib, IsJson}
use khipu_v_fhe.Transcript.{Transcript, IsTyped, IsHash, compute_transcript_hash}
use khipu_v_fhe.Transcript.Binding.{compute_transcript_hash-IsHash}
use khipu_v_fhe.Attestation.{
  report_data, expected_report_data, compute_gpu_evidence_digest,
  compute_heterogeneous_binding_digest,
}
use khipu_v_fhe.Attestation.ReportData.{expected_report_data_lem}
use khipu_v_fhe.Evidence.{GpuEvidencePackage, deserialize, nonce_array, verify_gpu_evidence}
use khipu_v_fhe.Evidence.Package.{verify_gpu_evidence_iff}
use khipu_v_fhe.Verifier.{
  JsonNav, Dcap, measurement, verify_transcript, verify_tdx_quote, verify_all, verify_heterogeneous,
}
use khipu_v_fhe.Verifier.Checks.{Agrees, verify_transcript_iff}
use khipu_v_fhe.Verifier.Quotes.{MrTdMatches, verify_tdx_quote_iff}

reverse-All : (xs : Bytes) → All IsByte xs → All IsByte (reverse xs)
reverse-All [] h = tt
reverse-All (x ∷ xs) (hx, h) =
    subst (All IsByte) (sym (reverse-cons x xs))
      (All-append IsByte (reverse xs) (x ∷ []) (reverse-All xs h) (hx, tt))

reverse-injective : (xs ys : Bytes) → reverse xs ≡ reverse ys → xs ≡ ys
reverse-injective xs ys e = sym (reverse-reverse xs) ∙ ap reverse e ∙ reverse-reverse ys

replicate-All : (n : ℕ) → All IsByte (replicate n 0)
replicate-All zero = tt
replicate-All (suc n) = (omega arith, replicate-All n)

take-All : (n : ℕ) (xs : Bytes) → All IsByte xs → All IsByte (take n xs)
take-All zero xs h = tt
take-All (suc n) [] h = tt
take-All (suc n) (x ∷ xs) (hx, h) = (hx, take-All n xs h)

report_data-All : (d : Bytes) → All IsByte d → All IsByte (report_data d)
unfolding report_data
report_data-All d h =
    All-append IsByte (take 32 d) (replicate 32 0) (take-All 32 d h) (replicate-All 32)

-- The text for 64 bytes of report data matches what the client expects for a digest exactly when it
-- is the report data of that digest.
report_match_iff :
    (rd digest : Bytes)
    → All IsByte rd
    → IsHash digest
    → (hex_match (to_hex (reverse rd)) (expected_report_data digest) ≡ true)
      ↔ (rd ≡ report_data digest)
report_match_iff rd digest hr hd =
    let expected = expected_report_data_lem digest hd.size in
    let iff =
      hex_match-to_hex (reverse rd) (reverse (report_data digest)) (reverse-All rd hr)
        (reverse-All (report_data digest) (report_data-All digest hd.bytes)) in
    (
      λ h.
          reverse-injective rd (report_data digest)
            (iff.0 (subst (λ t. hex_match (to_hex (reverse rd)) t ≡ true) expected h)),
      λ e.
          subst (λ t. hex_match (to_hex (reverse rd)) t ≡ true) (sym expected)
            (iff.1 (ap reverse e)),
    )

to_hex-eq-nil : (xs : Bytes) → to_hex xs ≡ [] → xs ≡ []
unfolding to_hex
to_hex-eq-nil [] h = refl
to_hex-eq-nil (x ∷ xs) h = cc

to_hex_filled : (rd : Bytes) → length rd ≡ 64 → to_hex (reverse rd) ≢ []
to_hex_filled rd size e =
    let nil : rd ≡ [] = reverse-injective rd [] (to_hex-eq-nil (reverse rd) e) in
    omega (arith, subst (λ xs. length xs ≡ 64) nil size)

binding-IsHash : (B : Blake3) (x y : Bytes) → IsHash (compute_heterogeneous_binding_digest B x y)
unfolding compute_heterogeneous_binding_digest
binding-IsHash B x y = record { bytes = B.hash-IsByte (x ++ y); size = B.length-hash (x ++ y) }

module _ (J : JsonLib) (N : JsonNav J) (D : Dcap) where
  open J use {Json}
  open N use {value_string}

  -- The DCAP library verifies and appraises the quote, and reports this report data for it.
  pub record Reported (quote_bytes rd mr : Bytes) : Type 0 where
    pub meas : Json
    pub found : measurement J N D quote_bytes ≡ ok (some meas)
    pub shown : value_string meas (text "tdx_reportdata") [] ≡ ok (to_hex (reverse rd))
    pub bytes : All IsByte rd
    pub size : length rd ≡ 64
    pub mr_td : MrTdMatches J N D meas mr

  -- A quote that is reported so is accepted for a digest exactly when that digest is in it.
  pub verify_tdx_quote-Reported :
      (quote_bytes rd mr_td digest : Bytes)
      → Reported quote_bytes rd mr_td
      → IsHash digest
      → (verify_tdx_quote J N D quote_bytes mr_td (expected_report_data digest) ≡ ok true)
        ↔ (rd ≡ report_data digest)
  verify_tdx_quote-Reported quote_bytes rd mr_td digest r hd = (
    λ h.
        let (meas, m, holds) =
          (verify_tdx_quote_iff J N D quote_bytes mr_td (expected_report_data digest)).0 h in
        let (s, e, n, same) = holds.report_data in
        let one : meas ≡ r.meas = cc (sym m ∙ r.found) in
        let shown : s ≡ to_hex (reverse rd) =
          cc (sym e ∙ ap (λ j. value_string j (text "tdx_reportdata") []) one ∙ r.shown) in
        (report_match_iff rd digest r.bytes hd).0
          (subst (λ t. hex_match t (expected_report_data digest) ≡ true) shown same),
    λ e. (verify_tdx_quote_iff J N D quote_bytes mr_td (expected_report_data digest)).1 (
      r.meas,
      r.found,
      record {
        report_data = (
          to_hex (reverse rd),
          r.shown,
          to_hex_filled rd r.size,
          (report_match_iff rd digest r.bytes hd).1 e,
        );
        mr_td = r.mr_td;
      },
    ),
  )

  module _ (L : IsJson J) (B : Blake3) where
    -- The client accepts the evidence for a typed transcript exactly when its four fields are the
    -- expected ones and the quote's report data holds the digest of the transcript without its
    -- timings. The quote must be one that the DCAP library verifies and reports.
    pub verify_all_iff :
        (quote_bytes rd mr_td : Bytes) (t : Transcript) (nonce key : Bytes) (inputs : List Bytes)
        (output : Bytes)
        → Reported quote_bytes rd mr_td
        → IsTyped t
        → (verify_all J N D B quote_bytes t nonce mr_td key inputs output ≡ ok true) ↔ (
            Agrees t nonce key inputs output
            × ((h : Bytes) × (compute_transcript_hash B J t ≡ ok h) × (rd ≡ report_data h)))
    unfolding verify_all
    verify_all_iff quote_bytes rd mr_td t nonce key inputs output r ht =
        let (s, written, hashed, isHash) = compute_transcript_hash-IsHash J L B t ht in
        let h = B.hash s in
        let quote = verify_tdx_quote-Reported quote_bytes rd mr_td h r isHash in
        let checks = verify_transcript_iff t nonce key inputs output in
        (
          λ accepted. elim (Bool-cases (verify_transcript t nonce key inputs output)) [
            | inl same ↦ (checks.0 same, (h, hashed, quote.0 (rw (hashed, same) at accepted)))
            | inr other ↦ absurd (cc (rw (hashed, other) at accepted))
          ],
          λ (agrees, (h', e, same)).
              let one : h' ≡ h = cc (sym e ∙ hashed) in
              rw (hashed, checks.1 agrees) (quote.1 (same ∙ ap report_data one)),
        )

    pub verify_heterogeneous_iff :
        (quote_bytes gpu_evidence rd mr_td : Bytes) (t : Transcript) (nonce key : Bytes)
        (inputs : List Bytes) (output : Bytes)
        → Reported quote_bytes rd mr_td
        → IsTyped t
        → (verify_heterogeneous J N D B quote_bytes gpu_evidence t nonce mr_td key inputs output
            ≡ ok true)
          ↔ (Agrees t nonce key inputs output
              × ((pkg : GpuEvidencePackage) × (deserialize gpu_evidence ≡ ok pkg)
                  × (pkg.nonce ≡ nonce_array nonce)
                  × (pkg.evidence_json ≢ []))
              × ((h : Bytes) × (compute_transcript_hash B J t ≡ ok h)
                  × (rd
                      ≡ report_data (
                          compute_heterogeneous_binding_digest B h
                            (compute_gpu_evidence_digest B gpu_evidence)))))
    unfolding verify_heterogeneous
    verify_heterogeneous_iff quote_bytes gpu_evidence rd mr_td t nonce key inputs output r ht =
        let (s, written, hashed, isHash) = compute_transcript_hash-IsHash J L B t ht in
        let bind : Bytes → Bytes = λ h.
          compute_heterogeneous_binding_digest B h (compute_gpu_evidence_digest B gpu_evidence) in
        let quote =
          verify_tdx_quote-Reported quote_bytes rd mr_td (bind (B.hash s)) r
            (binding-IsHash B _ _) in
        let checks = verify_transcript_iff t nonce key inputs output in
        let gpu = verify_gpu_evidence_iff gpu_evidence nonce in
        (
          λ accepted. elim (Bool-cases (verify_transcript t nonce key inputs output)) [
            | inr other ↦ absurd (cc (rw other at accepted))
            | inl same ↦ elim (Bool-cases (verify_gpu_evidence gpu_evidence nonce)) [
              | inr other ↦ absurd (cc (rw (same, other) at accepted))
              | inl fresh ↦ (
                checks.0 same,
                gpu.0 fresh,
                (B.hash s, hashed, quote.0 (rw (same, fresh, hashed) at accepted)),
              )
            ]
          ],
          λ (agrees, pkg, (h', e, same)).
              let one : h' ≡ B.hash s = cc (sym e ∙ hashed) in
              rw (checks.1 agrees, gpu.1 pkg, hashed)
                (quote.1 (same ∙ ap (λ h. report_data (bind h)) one)),
        )
