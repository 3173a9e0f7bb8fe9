-- ===== src/Bgv/Evidence.antt =====
-- The transcript of Prototype E is read back as it was written, and what its verification checks.
use khipu_v_fhe.Prelude.{
  ℕ, ◌^◌, ◌<◌, ◌≡◌, ◌↔◌, refl, sym, ap, ◌∙◌, arith, List, [], ◌∷◌, map, >>=-eq-ok, ok_same, Bytes,
  All, All-append, ok, true, Bool-cases, inl, inr, text,
}
use khipu_v_fhe.Hex.{to_hex}
use khipu_v_fhe.Libraries.{Blake3, JsonLib, IsJson, IsAscii, FieldIsFine, Fields, str, num, strs}
use khipu_v_fhe.Transcript.{IsTyped, IsHash, to_fields, without_timings}
use khipu_v_fhe.Transcript.RoundTrip.{to_fields-IsFine, read_transcript_lem}
use khipu_v_fhe.Transcript.Binding.{without_timings-IsTyped}
use khipu_v_fhe.Attestation.{report_data}
use khipu_v_fhe.Verifier.{JsonNav, Dcap, verify_transcript}
use khipu_v_fhe.Verifier.Checks.{Agrees, verify_transcript_iff}
use khipu_v_fhe.Verifier.Soundness.{Reported, verify_tdx_quote-Reported}
use khipu_v_fhe.Bgv.{
  BgvTranscript, bgv_fields, bgv_without_timings, bgv_to_json, bgv_from_json, bgv_transcript_hash,
  bgv_verify_all,
}

-- What the C++ types say of a transcript.
pub record BgvIsTyped (t : BgvTranscript) : Type 0 where
  pub core : IsTyped t.core
  pub ctx_time : t.ctx_us < 2 ^ 64
  pub outser_time : t.outser_us < 2 ^ 64

bgv_fields-IsFine :
    (t : BgvTranscript) → BgvIsTyped t → All (λ (k, v). IsAscii k × FieldIsFine v) (bgv_fields t)
unfolding bgv_fields
bgv_fields-IsFine t h =
    All-append (λ (k, v). IsAscii k × FieldIsFine v) (to_fields t.core) _
      (to_fields-IsFine t.core h.core)
      ((omega arith, h.ctx_time), ((omega arith, h.outser_time), tt))

module _ (J : JsonLib) (L : IsJson J) where
  open J use {object}

  pub bgv_from_json-bgv_to_json :
      (t : BgvTranscript)
      → BgvIsTyped t
      → (s : List ℕ) × (bgv_to_json J t ≡ ok s) × (bgv_from_json J s ≡ ok t)
  unfolding bgv_to_json bgv_from_json bgv_fields to_fields
  bgv_from_json-bgv_to_json t h =
      let fs = bgv_fields t in
      let (s, dumped, parsed) = L.parse-dump fs (bgv_fields-IsFine t h) in
      let read = read_transcript_lem J L fs t.core h.core (record {
        nonce = refl;
        eval_key = refl;
        inputs = refl;
        output = refl;
        eval_time = refl;
        transcript_time = refl;
        quote_time = refl;
      }) in
      let time1 = L.value-object fs (text "ctx_us") t.ctx_us 0 refl h.ctx_time in
      let time2 = L.value-object fs (text "outser_us") t.outser_us 0 refl h.outser_time in
      (s, dumped, rw (parsed, read, time1, time2) refl)

  module _ (B : Blake3) where
    bgv_transcript_hash-IsHash :
        (t : BgvTranscript)
        → BgvIsTyped t
        → (s : List ℕ) × (bgv_to_json J (bgv_without_timings t) ≡ ok s)
          × (bgv_transcript_hash J B t ≡ ok (B.hash s))
          × IsHash (B.hash s)
    unfolding bgv_transcript_hash bgv_without_timings
    bgv_transcript_hash-IsHash t h =
        let (s, written, read) = bgv_from_json-bgv_to_json (bgv_without_timings t) (record {
          core = without_timings-IsTyped t.core h.core;
          ctx_time = omega arith;
          outser_time = omega arith;
        }) in
        (s, written, rw written refl, record { bytes = B.hash-IsByte s; size = B.length-hash s })

-- What is hashed for a transcript: its four fields, and zero for each of the five times.
abbrev pub timeless_fields : BgvTranscript → Fields
timeless_fields t =
    (text "nonce", str (to_hex t.core.nonce))
    ∷ (text "eval_key_hash", str (to_hex t.core.eval_key_hash))
    ∷ (text "input_ct_hashes", strs (map to_hex t.core.input_ct_hashes))
    ∷ (text "output_ct_hash", str (to_hex t.core.output_ct_hash))
    ∷ (text "fhe_eval_us", num 0)
    ∷ (text "transcript_us", num 0)
    ∷ (text "quote_us", num 0)
    ∷ (text "ctx_us", num 0)
    ∷ (text "outser_us", num 0)
    ∷ []

-- The digest of what is hashed.
abbrev pub TimelessHash : JsonLib → Blake3 → BgvTranscript → Bytes → Type 0
TimelessHash J B t h =
    (s : List ℕ) × (J.dump (J.object (timeless_fields t)) ≡ ok s) × (h ≡ B.hash s)

pub bgv_transcript_hash-TimelessHash :
    (J : JsonLib) (B : Blake3) (t : BgvTranscript) (h : Bytes)
    → (bgv_transcript_hash J B t ≡ ok h) ↔ TimelessHash J B t h
unfolding bgv_transcript_hash bgv_to_json bgv_fields bgv_without_timings to_fields without_timings
bgv_transcript_hash-TimelessHash J B t h = (
  λ e.
      let (s, written, hashed) = >>=-eq-ok (J.dump (J.object (timeless_fields t))) _ e in
      (s, written, sym (ok_same hashed)),
  λ (s, written, hashed). rw (written, hashed) refl,
)

module _ (J : JsonLib) (N : JsonNav J) (D : Dcap) (L : IsJson J) (B : Blake3) where
  -- The client of Prototype E accepts the evidence for a typed transcript exactly when its four fields
  -- are the expected ones and the quote's report data holds the digest of the four fields with zero for
  -- each of the five times. The quote must be one that the DCAP library verifies and reports.
  pub bgv_verify_all_iff :
      (quote_bytes rd mr_td : Bytes) (t : BgvTranscript) (nonce key : Bytes) (inputs : List Bytes)
      (output : Bytes)
      → Reported J N D quote_bytes rd mr_td
      → BgvIsTyped t
      → (bgv_verify_all J N D B quote_bytes t nonce mr_td key inputs output ≡ ok true) ↔ (
          Agrees t.core nonce key inputs output
          × ((h : Bytes) × TimelessHash J B t h × (rd ≡ report_data h)))
  unfolding bgv_verify_all
  bgv_verify_all_iff quote_bytes rd mr_td t nonce key inputs output r ht =
      let (s, written, hashed, isHash) = bgv_transcript_hash-IsHash J L B t ht in
      let h = B.hash s in
      let quote = verify_tdx_quote-Reported J N D quote_bytes rd mr_td h r isHash in
      let pinned = bgv_transcript_hash-TimelessHash J B t h in
      let checks = verify_transcript_iff t.core nonce key inputs output in
      (
        λ accepted. elim (Bool-cases (verify_transcript t.core nonce key inputs output)) [
          | inl same ↦
              (checks.0 same, (h, pinned.0 hashed, quote.0 (rw (hashed, same) at accepted)))
          | inr other ↦ absurd (cc (rw (hashed, other) at accepted))
        ],
        λ (agrees, (h', e, same)).
            let one : h' ≡ h =
              ok_same (sym ((bgv_transcript_hash-TimelessHash J B t h').1 e) ∙ hashed) in
            rw (hashed, checks.1 agrees) (quote.1 (same ∙ ap report_data one)),
      )
