-- ===== src/Transcript/Binding.antt =====
-- What the digest of a transcript pins down.
use khipu_v_fhe.Prelude.{ℕ, ◌≡◌, ◌↔◌, refl, sym, ap, ◌∙◌, arith, List, ok, ok_same}
use khipu_v_fhe.Libraries.{Blake3, JsonLib, IsJson}
use khipu_v_fhe.Transcript.{
  Transcript, IsTyped, IsHash, to_json, from_json, without_timings, compute_transcript_hash,
}
use khipu_v_fhe.Transcript.RoundTrip.{from_json-to_json}

pub without_timings-IsTyped : (t : Transcript) → IsTyped t → IsTyped (without_timings t)
unfolding without_timings
without_timings-IsTyped t h = record {
  nonce = h.nonce;
  eval_key = h.eval_key;
  inputs = h.inputs;
  output = h.output;
  eval_time = omega arith;
  transcript_time = omega arith;
  quote_time = omega arith;
}

module _ (J : JsonLib) (L : IsJson J) (B : Blake3) where
  open B use {hash, length-hash, hash-IsByte}

  -- The text that is hashed for a typed transcript, and the digest of it.
  pub compute_transcript_hash-IsHash :
      (t : Transcript)
      → IsTyped t
      → (s : List ℕ) × (to_json J (without_timings t) ≡ ok s)
        × (compute_transcript_hash B J t ≡ ok (hash s))
        × IsHash (hash s)
  unfolding compute_transcript_hash
  compute_transcript_hash-IsHash t h =
      let (s, written, back) =
        from_json-to_json J L (without_timings t) (without_timings-IsTyped t h) in
      (s, written, rw written refl, record { bytes = hash-IsByte s; size = length-hash s })

  -- If BLAKE3 does not collide on the texts of two typed transcripts, they have one digest exactly when
  -- they agree on the nonce, the digests of the keys and of each input, and that of the output,
  -- whatever their timings are.
  pub compute_transcript_hash_iff :
      (a b : Transcript)
      → IsTyped a
      → IsTyped b
      → ((x y : List ℕ)
          → to_json J (without_timings a) ≡ ok x
          → to_json J (without_timings b) ≡ ok y
          → hash x ≡ hash y
          → x ≡ y)
      → (compute_transcript_hash B J a ≡ compute_transcript_hash B J b) ↔ (
          (a.nonce ≡ b.nonce)
          × (a.eval_key_hash ≡ b.eval_key_hash)
          × (a.input_ct_hashes ≡ b.input_ct_hashes)
          × (a.output_ct_hash ≡ b.output_ct_hash))
  unfolding compute_transcript_hash without_timings
  compute_transcript_hash_iff a b ha hb no_collision =
      let (s, ws, bs) = from_json-to_json J L (without_timings a) (without_timings-IsTyped a ha) in
      let (t, wt, bt) = from_json-to_json J L (without_timings b) (without_timings-IsTyped b hb) in
      (
        λ e.
            let same : hash s ≡ hash t = cc (rw (ws, wt) at e) in
            let texts : s ≡ t = no_collision s t ws wt same in
            let same_rest : without_timings a ≡ without_timings b =
              ok_same (sym bs ∙ ap (from_json J) texts ∙ bt) in
            (
              ap (λ (t : Transcript). t.nonce) same_rest,
              ap (λ (t : Transcript). t.eval_key_hash) same_rest,
              ap (λ (t : Transcript). t.input_ct_hashes) same_rest,
              ap (λ (t : Transcript). t.output_ct_hash) same_rest,
            ),
        λ (nonces, keys, inputs, outputs). rw (nonces, keys, inputs, outputs) refl,
      )
