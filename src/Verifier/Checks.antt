-- ===== src/Verifier/Checks.antt =====
-- What the comparison of a transcript accepts.
use khipu_v_fhe.Prelude.{
  ◌≡◌, ◌↔◌, refl, arith, List, [], ◌∷◌, Bytes, true, length, bytes_eq, bytes_eq→eq, bytes_eq_refl,
  ◌==◌, ==_iff, Bool-cases, inl, inr,
}
use khipu_v_fhe.Transcript.{Transcript}
use khipu_v_fhe.Verifier.{hashes_match, verify_transcript}

hashes_match→ : (hs es : List Bytes) → length hs ≡ length es → hashes_match hs es ≡ true → hs ≡ es
unfolding hashes_match
hashes_match→ [] [] n h = refl
hashes_match→ [] (e ∷ es) n h = absurd (omega (arith, n))
hashes_match→ (x ∷ hs) [] n h = cc
hashes_match→ (x ∷ hs) (e ∷ es) n h = elim (Bool-cases (bytes_eq x e)) [
  | inl same ↦
      let rest = hashes_match→ hs es (omega (arith, n)) (rw same at h) in
      rw (bytes_eq→eq x e same, rest) refl
  | inr other ↦ absurd (cc (rw other at h))
]

hashes_match_refl : (hs : List Bytes) → hashes_match hs hs ≡ true
unfolding hashes_match
hashes_match_refl [] = refl
hashes_match_refl (x ∷ hs) = rw (bytes_eq_refl x) (hashes_match_refl hs)

-- The four fields of a transcript that the client compares.
pub record Agrees (t : Transcript) (nonce key : Bytes) (inputs : List Bytes) (output : Bytes)
    : Type 0 where
  pub nonce_eq : t.nonce ≡ nonce
  pub key_eq : t.eval_key_hash ≡ key
  pub inputs_eq : t.input_ct_hashes ≡ inputs
  pub output_eq : t.output_ct_hash ≡ output

-- A transcript is accepted exactly when its nonce, the digest of its keys, the digests of its inputs
-- in order and the digest of its output are the expected ones.
pub verify_transcript_iff :
    (t : Transcript) (nonce key : Bytes) (inputs : List Bytes) (output : Bytes)
    → (verify_transcript t nonce key inputs output ≡ true) ↔ Agrees t nonce key inputs output
unfolding verify_transcript
verify_transcript_iff t nonce key inputs output = (
  λ h. elim (Bool-cases (bytes_eq t.nonce nonce)) [
    | inr other ↦ absurd (cc (rw other at h))
    | inl n ↦ elim (Bool-cases (bytes_eq t.eval_key_hash key)) [
      | inr other ↦ absurd (cc (rw (n, other) at h))
      | inl k ↦ elim (Bool-cases (length t.input_ct_hashes == length inputs)) [
        | inr other ↦ absurd (cc (rw (n, k, other) at h))
        | inl s ↦ elim (Bool-cases (hashes_match t.input_ct_hashes inputs)) [
          | inr other ↦ absurd (cc (rw (n, k, s, other) at h))
          | inl i ↦ record {
            nonce_eq = bytes_eq→eq _ _ n;
            key_eq = bytes_eq→eq _ _ k;
            inputs_eq = hashes_match→ _ _ ((==_iff _ _).0 s) i;
            output_eq = bytes_eq→eq _ _ (rw (n, k, s, i) at h);
          }
        ]
      ]
    ]
  ],
  λ a.
      rw
        (
          a.nonce_eq,
          a.key_eq,
          a.inputs_eq,
          a.output_eq,
          bytes_eq_refl nonce,
          bytes_eq_refl key,
          (==_iff (length inputs) (length inputs)).1 refl,
          hashes_match_refl inputs,
          bytes_eq_refl output,
        )
        refl,
)
