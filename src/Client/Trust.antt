-- ===== src/Client/Trust.antt =====
-- What a client that decrypts knows of the ciphertext.
use khipu_v_fhe.Prelude.{
  ℕ, ◌≡◌, refl, sym, ap, ◌∙◌, subst, arith, List, [], ◌∷◌, map, Bytes, IsByte, All, Bool, true,
  false, Outcome, ok, throw, fault, >>=-eq-ok, catch, text, if◌then◌else◌, Bool-cases, inl, inr,
  Option, none, some,
}
use khipu_v_fhe.Libraries.{Blake3, JsonLib, IsJson}
use khipu_v_fhe.Transcript.{
  Transcript, IsTyped, IsHash, without_timings, from_json, hash_concatenated, transcript_of_hash,
  generate_transcript, compute_transcript_hash,
}
use khipu_v_fhe.Attestation.{report_data}
use khipu_v_fhe.Protocol.{Request, Response, parse_response}
use khipu_v_fhe.Verifier.{JsonNav, Dcap, verify_transcript, verify_all}
use khipu_v_fhe.Verifier.Checks.{Agrees, verify_transcript_iff}
use khipu_v_fhe.Verifier.Soundness.{Reported, verify_all_iff}
use khipu_v_fhe.Client.{
  contains_text, response_error, trailing_error, check_evidence, check_parsed, check_response,
}

catch_none→ :
    {A : Type 0} (m : Outcome (Option A)) {a : A}
    → catch m (λ e. ok none) ≡ ok (some a)
    → m ≡ ok (some a)
catch_none→ (ok o) h = h
catch_none→ (throw e) h = cc
catch_none→ fault h = cc

chosen :
    (b : Bool) (x y : Bytes) → ok (if b then some x else none) ≡ ok (some y) → (b ≡ true) × (x ≡ y)
chosen true x y h = (refl, cc)
chosen false x y h = cc

module _ (B : Blake3) where
  open B use {hash, length-hash, hash-IsByte}

  pub hash-IsHash : (x : Bytes) → IsHash (hash x)
  hash-IsHash x = record { bytes = hash-IsByte x; size = length-hash x }

  pub hashes-IsHash : (xs : List Bytes) → All IsHash (map hash xs)
  hashes-IsHash [] = tt
  hashes-IsHash (x ∷ xs) = (hash-IsHash x, hashes-IsHash xs)

  pub generate_transcript-IsTyped :
      (nonce : Bytes) (keys cts : List Bytes) (out : Bytes)
      → All IsByte nonce
      → IsTyped (generate_transcript B nonce keys cts out)
  unfolding generate_transcript transcript_of_hash hash_concatenated
  generate_transcript-IsTyped nonce keys cts out h = record {
    nonce = h;
    eval_key = hash-IsHash _;
    inputs = hashes-IsHash cts;
    output = hash-IsHash out;
    eval_time = omega arith;
    transcript_time = omega arith;
    quote_time = omega arith;
  }

  -- Up to its timings, a transcript that agrees with the request and the output is theirs.
  agreed :
      (t : Transcript) (nonce : Bytes) (keys cts : List Bytes) (out : Bytes)
      → Agrees t nonce (hash_concatenated B keys) (map hash cts) (hash out)
      → without_timings t ≡ generate_transcript B nonce keys cts out
  unfolding without_timings generate_transcript transcript_of_hash
  agreed t nonce keys cts out a = rw (a.nonce_eq, a.key_eq, a.inputs_eq, a.output_eq) refl

module _ (J : JsonLib) (N : JsonNav J) (D : Dcap) (B : Blake3) where
  open B use {hash}

  verify_all-without_timings :
      (quote : Bytes) (t : Transcript) (nonce mr key : Bytes) (inputs : List Bytes) (output : Bytes)
      → verify_all J N D B quote t nonce mr key inputs output
        ≡ verify_all J N D B quote (without_timings t) nonce mr key inputs output
  unfolding verify_all verify_transcript compute_transcript_hash without_timings
  verify_all-without_timings quote t nonce mr key inputs output = refl

  -- The transcript that the client read and accepted.
  record Accepted (q : Request) (mr : List ℕ) (p : Response) : Type 0 where
    transcript : Transcript
    agrees :
        Agrees transcript q.nonce
          (hash_concatenated B q.eval_keys)
          (map hash q.input_cts)
          (hash p.output_ct)
    verified :
        verify_all J N D B p.quote transcript q.nonce mr
          (hash_concatenated B q.eval_keys)
          (map hash q.input_cts)
          (hash p.output_ct)
        ≡ ok true

  check_evidence→ :
      (q : Request) (mr : List ℕ) (p : Response) (t : Transcript) (out : Bytes)
      → check_evidence J N D B q mr p t ≡ ok (some out)
      → Accepted q mr p × (p.output_ct ≡ out)
  unfolding check_evidence
  check_evidence→ q mr p t out h =
      let key = hash_concatenated B q.eval_keys in
      let cts = map hash q.input_cts in
      let checks = verify_transcript_iff t q.nonce key cts (hash p.output_ct) in
      elim (Bool-cases (verify_transcript t q.nonce key cts (hash p.output_ct))) [
        | inr other ↦ absurd (cc (rw other at h))
        | inl same ↦
            let (b, verified, last) =
              >>=-eq-ok (verify_all J N D B p.quote t q.nonce mr key cts (hash p.output_ct)) _
                (rw same at h) in
            let (was, output) = chosen b p.output_ct out last in
            (
              record { transcript = t; agrees = checks.0 same; verified = verified ∙ ap ok was },
              output,
            )
      ]

  check_parsed→ :
      (q : Request) (mr : List ℕ) (p : Response) (out : Bytes)
      → check_parsed J N D B q mr p ≡ ok (some out)
      → Accepted q mr p × (p.output_ct ≡ out)
  unfolding check_parsed
  check_parsed→ q mr p out h =
      elim (Bool-cases (contains_text (text "\"error\"") p.transcript_json)) [
        | inl error ↦ absurd (cc (rw error at h))
        | inr fine ↦
            let (t, parsed, h1) = >>=-eq-ok (from_json J p.transcript_json) _ (rw fine at h) in
            check_evidence→ q mr p t out h1
      ]

  check_response→ :
      (q : Request) (mr : List ℕ) (resp : Bytes) (p : Response) (out : Bytes)
      → parse_response response_error trailing_error resp ≡ ok p
      → check_response J N D B q mr resp ≡ ok (some out)
      → check_parsed J N D B q mr p ≡ ok (some out)
  unfolding check_response
  check_response→ q mr [] p out parsed h = cc
  check_response→ q mr (b ∷ bs) p out parsed h =
      let (p', parsed', h1) =
        >>=-eq-ok (parse_response response_error trailing_error (b ∷ bs)) _ (catch_none→ _ h) in
      let one : p' ≡ p = cc (sym parsed' ∙ parsed) in
      subst (λ p. check_parsed J N D B q mr p ≡ ok (some out)) one h1

  -- If the client goes on to decrypt a ciphertext, it is the one in the response, and the report data
  -- of the quote holds the digest of the transcript of exactly the nonce, keys and inputs that the
  -- client sent and of that ciphertext. The quote must be one that the DCAP library verifies and
  -- reports.
  pub check_response_trusted :
      IsJson J
      → (q : Request) (mr : List ℕ) (resp : Bytes) (p : Response) (out rd : Bytes)
      → All IsByte q.nonce
      → parse_response response_error trailing_error resp ≡ ok p
      → Reported J N D p.quote rd mr
      → check_response J N D B q mr resp ≡ ok (some out)
      → (out ≡ p.output_ct)
        × ((h : Bytes) × (compute_transcript_hash B J
                (generate_transcript B q.nonce q.eval_keys q.input_cts out)
              ≡ ok h)
            × (rd ≡ report_data h))
  check_response_trusted L q mr resp p out rd hn parsed r h =
      let (a, output) = check_parsed→ q mr p out (check_response→ q mr resp p out parsed h) in
      let expected = generate_transcript B q.nonce q.eval_keys q.input_cts p.output_ct in
      let same : without_timings a.transcript ≡ expected =
        agreed B a.transcript q.nonce q.eval_keys q.input_cts p.output_ct a.agrees in
      let verified =
        sym (verify_all-without_timings p.quote a.transcript q.nonce mr _ _ _) ∙ a.verified in
      let (agrees, digest) =
        (verify_all_iff J N D L B p.quote rd mr expected q.nonce _ _ _ r
            (generate_transcript-IsTyped B q.nonce q.eval_keys q.input_cts p.output_ct hn)).0
          (subst
            (λ t.
              verify_all J N D B p.quote t q.nonce mr (hash_concatenated B q.eval_keys)
                (map hash q.input_cts) (hash p.output_ct)
              ≡ ok true)
            same verified) in
      (
        sym output,
        subst
            (λ out.
              (h : Bytes) × (compute_transcript_hash B J
                  (generate_transcript B q.nonce q.eval_keys q.input_cts out)
                ≡ ok h)
              × (rd ≡ report_data h))
            output digest,
      )
