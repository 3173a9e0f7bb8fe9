-- ===== src/Examples/Evidences.antt =====
-- Transcripts, GPU evidence and the verifier.
use khipu_v_fhe.Prelude.{
  ℕ, ◌≡◌, ◌↔◌, refl, inl, List, [], ◌∷◌, reverse, Bytes, true, ok, text, replicate, ltb→lt,
}
use khipu_v_fhe.Libraries.{Blake3, JsonLib}
use khipu_v_fhe.Libraries.Instances.{flat_json, flat_json-IsJson, short_blake3, object}
use khipu_v_fhe.Hex.{to_hex}
use khipu_v_fhe.Transcript.{
  Transcript, IsTyped, IsHash, to_json, without_timings, compute_transcript_hash,
}
use khipu_v_fhe.Transcript.Binding.{compute_transcript_hash_iff}
use khipu_v_fhe.Evidence.{GpuEvidencePackage, serialize}
use khipu_v_fhe.Verifier.{
  verify_all, measurement, token_measurement, jwt_payload, find_char, base64url_decode,
  base64url_char, b64_decode, pad_loop, pad_at, cut_padding, appraisal_measurement,
  find_measurement, report_measurement,
}
use khipu_v_fhe.Attestation.{report_data}
use khipu_v_fhe.Verifier.Checks.{Agrees}
use khipu_v_fhe.Verifier.Soundness.{Reported, verify_all_iff}
use khipu_v_fhe.Examples.{are_bytes→, flat_nav, trusting_dcap, sample_quote}

abbrev hash_a : Bytes
hash_a = replicate 32 17

hash_a-IsHash : IsHash hash_a
hash_a-IsHash = record { bytes = are_bytes→ hash_a refl; size = refl }

abbrev sample_transcript : Transcript
sample_transcript = record {
  nonce = 1 ∷ 2 ∷ [];
  eval_key_hash = hash_a;
  input_ct_hashes = hash_a ∷ [];
  output_ct_hash = hash_a;
  fhe_eval_us = 5;
  transcript_us = 6;
  quote_us = 7;
}

abbrev slower_transcript : Transcript
slower_transcript = record sample_transcript { fhe_eval_us = 500 }

sample-IsTyped : IsTyped sample_transcript
sample-IsTyped = record {
  nonce = are_bytes→ (1 ∷ 2 ∷ []) refl;
  eval_key = hash_a-IsHash;
  inputs = (hash_a-IsHash, tt);
  output = hash_a-IsHash;
  eval_time = ltb→lt _ _ refl;
  transcript_time = ltb→lt _ _ refl;
  quote_time = ltb→lt _ _ refl;
}

slower-IsTyped : IsTyped slower_transcript
slower-IsTyped = record {
  nonce = sample-IsTyped.nonce;
  eval_key = hash_a-IsHash;
  inputs = sample-IsTyped.inputs;
  output = hash_a-IsHash;
  eval_time = ltb→lt _ _ refl;
  transcript_time = ltb→lt _ _ refl;
  quote_time = ltb→lt _ _ refl;
}

one_text :
    (x y : List ℕ)
    → to_json flat_json (without_timings sample_transcript) ≡ ok x
    → to_json flat_json (without_timings slower_transcript) ≡ ok y
    → short_blake3.hash x ≡ short_blake3.hash y
    → x ≡ y
unfolding without_timings
one_text x y hx hy h = cc

compute_transcript_hash_iff_example :
    (compute_transcript_hash short_blake3 flat_json sample_transcript
      ≡ compute_transcript_hash short_blake3 flat_json slower_transcript)
    ↔ ((sample_transcript.nonce ≡ slower_transcript.nonce)
        × (sample_transcript.eval_key_hash ≡ slower_transcript.eval_key_hash)
        × (sample_transcript.input_ct_hashes ≡ slower_transcript.input_ct_hashes)
        × (sample_transcript.output_ct_hash ≡ slower_transcript.output_ct_hash))
compute_transcript_hash_iff_example =
    compute_transcript_hash_iff flat_json flat_json-IsJson short_blake3 sample_transcript
      slower_transcript sample-IsTyped slower-IsTyped one_text

abbrev sample_package : GpuEvidencePackage
sample_package = record {
  evidence_json = text "{}";
  detached_eat = [];
  claims_json = text "[]";
  nonce = replicate 32 7;
}

abbrev sample_report : Bytes
sample_report = report_data hash_a

sample-Reported :
    Reported flat_json flat_nav (trusting_dcap sample_report) sample_quote sample_report []
unfolding measurement token_measurement jwt_payload find_char base64url_decode base64url_char
    b64_decode pad_loop pad_at cut_padding appraisal_measurement find_measurement report_measurement
    report_data to_hex
sample-Reported = record {
  meas =
      object
        ((text "tdx_reportdata", khipu_v_fhe.Libraries.str (to_hex (reverse sample_report))) ∷ []);
  found = refl;
  shown = refl;
  bytes = are_bytes→ sample_report refl;
  size = refl;
  mr_td = inl refl;
}

verify_all_iff_example :
    (verify_all flat_json flat_nav
        (trusting_dcap sample_report)
        short_blake3
        sample_quote
        sample_transcript
        (1 ∷ 2 ∷ [])
        []
        hash_a
        (hash_a ∷ [])
        hash_a
      ≡ ok true)
    ↔ (Agrees sample_transcript (1 ∷ 2 ∷ []) hash_a (hash_a ∷ []) hash_a
        × ((h : Bytes) × (compute_transcript_hash short_blake3 flat_json sample_transcript ≡ ok h)
            × (sample_report ≡ report_data h)))
verify_all_iff_example =
    verify_all_iff flat_json flat_nav (trusting_dcap sample_report) flat_json-IsJson short_blake3
      sample_quote sample_report [] sample_transcript (1 ∷ 2 ∷ []) hash_a (hash_a ∷ []) hash_a
      sample-Reported sample-IsTyped

abbrev sample_evidence : Bytes
sample_evidence = serialize sample_package
