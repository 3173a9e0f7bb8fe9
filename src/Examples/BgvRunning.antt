-- ===== src/Examples/BgvRunning.antt =====
-- An exchange of Prototype E.
use khipu_v_fhe.Prelude.{◌≡◌, ◌↔◌, true, refl, inl, ◌∷◌, [], reverse, Bytes, ok, text}
use khipu_v_fhe.Libraries.{str}
use khipu_v_fhe.Libraries.Instances.{flat_json, flat_json-IsJson, short_blake3, object}
use khipu_v_fhe.Hex.{to_hex}
use khipu_v_fhe.Transcript.{
  to_fields, without_timings, generate_transcript, transcript_of_hash, hash_concatenated,
}
use khipu_v_fhe.Verifier.{
  measurement, token_measurement, jwt_payload, find_char, base64url_decode, base64url_char,
  b64_decode, pad_loop, pad_at, cut_padding, appraisal_measurement, find_measurement,
  report_measurement,
}
use khipu_v_fhe.Attestation.{report_data}
use khipu_v_fhe.Verifier.Soundness.{Reported}
use khipu_v_fhe.Server.{timed}
use khipu_v_fhe.Bgv.{
  BgvTranscript, BgvTimes, bgv_fields, bgv_without_timings, bgv_timed, bgv_verify_all,
}
use khipu_v_fhe.Verifier.Checks.{Agrees}
use khipu_v_fhe.Bgv.Evidence.{BgvIsTyped, TimelessHash, bgv_verify_all_iff}
use khipu_v_fhe.Bgv.Exchange.{bgv_sent, bgv_sent-BgvIsTyped}
use khipu_v_fhe.Examples.{
  are_bytes→, sample_request, flat_nav, flat_text, trusting_dcap, sample_quote, sample_times,
}

abbrev pub bgv_times : BgvTimes
bgv_times = record { times = sample_times; ctx_us = 70; outser_us = 8 }

abbrev output : Bytes
output = 4 ∷ 5 ∷ 6 ∷ []

abbrev before_quote : BgvTranscript
before_quote =
    bgv_timed
      (generate_transcript short_blake3 sample_request.nonce sample_request.eval_keys
        sample_request.input_cts output)
      bgv_times

abbrev digest : Bytes
digest = short_blake3.hash (flat_text (bgv_fields (bgv_without_timings before_quote)))

abbrev dcap : khipu_v_fhe.Verifier.Dcap
dcap = trusting_dcap (report_data digest)

bgv-Reported : Reported flat_json flat_nav dcap sample_quote (report_data digest) []
unfolding measurement token_measurement jwt_payload find_char base64url_decode base64url_char
    b64_decode pad_loop pad_at cut_padding appraisal_measurement find_measurement report_measurement
    report_data to_hex to_fields without_timings generate_transcript transcript_of_hash
    hash_concatenated bgv_fields bgv_without_timings bgv_timed timed
bgv-Reported = record {
  meas = object ((text "tdx_reportdata", str (to_hex (reverse (report_data digest)))) ∷ []);
  found = refl;
  shown = refl;
  bytes = are_bytes→ (report_data digest) refl;
  size = refl;
  mr_td = inl refl;
}

sent-BgvIsTyped : BgvIsTyped (bgv_sent short_blake3 sample_request output bgv_times)
sent-BgvIsTyped =
    bgv_sent-BgvIsTyped short_blake3 sample_request output bgv_times
      (are_bytes→ sample_request.nonce refl)

bgv_verify_all_iff_example :
    (bgv_verify_all flat_json flat_nav dcap short_blake3 sample_quote
        (bgv_sent short_blake3 sample_request output bgv_times)
        sample_request.nonce
        []
        []
        []
        []
      ≡ ok true)
    ↔ (Agrees
          (bgv_sent short_blake3 sample_request output bgv_times).core
          sample_request.nonce
          []
          []
          []
        × ((h : Bytes) × TimelessHash flat_json short_blake3
              (bgv_sent short_blake3 sample_request output bgv_times)
              h
            × (report_data digest ≡ report_data h)))
bgv_verify_all_iff_example =
    bgv_verify_all_iff flat_json flat_nav dcap flat_json-IsJson short_blake3 sample_quote
      (report_data digest) [] (bgv_sent short_blake3 sample_request output bgv_times)
      sample_request.nonce [] [] [] bgv-Reported sent-BgvIsTyped
