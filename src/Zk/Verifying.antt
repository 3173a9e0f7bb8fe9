-- ===== src/Zk/Verifying.antt =====
-- What the client's verifier accepts, and that it accepts what an honest server sends.
use khipu_v_fhe.Prelude.{
  ℕ, ◌^◌, ◌<◌, ◌≡◌, ◌↔◌, refl, sym, ap, ◌∙◌, List, [], append-nil, Bytes, Bool, true, false,
  Outcome, ok, throw, fault, >>=-eq-ok, catch, length, is_empty, Bool-cases, inl, inr, Option, none,
  some,
}
use khipu_v_fhe.Zk.{
  Snark, IsSnark, ProofBundle, generate_proof, require_some, serialize_public_inputs,
  deserialize_public_inputs, check_proof, verify_proof,
}
use khipu_v_fhe.Zk.Inputs.{deserialize_public_inputs-serialize_public_inputs}

catch_false→ : (m : Outcome Bool) → catch m (λ e. ok false) ≡ ok true → m ≡ ok true
catch_false→ (ok b) h = h
catch_false→ (throw e) h = cc
catch_false→ fault h = cc

require_some→ :
    {A : Type 0} (o : Option A) (next : A → Outcome Bool)
    → require_some o (ok false) next ≡ ok true
    → (a : A) × (o ≡ some a) × (next a ≡ ok true)
require_some→ none next h = cc
require_some→ (some a) next h = (a, refl, h)

module _ (S : Snark) where
  open S use {
    ConstraintSystem, VerificationKey, Field, AuxiliaryInput, Proof, is_satisfied, generator,
    prover, verifier_strong_ic, write_proof, read_proof, write_vk, read_vk,
  }

  -- What the verifier reads from the three buffers, and that the proof holds.
  pub record Proves (proof_bytes inputs_bytes vk_bytes : Bytes) : Type 0 where
    pub proof_filled : is_empty proof_bytes ≡ false
    pub vk_filled : is_empty vk_bytes ≡ false
    pub vk : VerificationKey
    pub vk_read : read_vk vk_bytes ≡ ok (some vk)
    pub proof : Proof
    pub proof_read : read_proof proof_bytes ≡ ok (some proof)
    pub inputs : List Field
    pub inputs_read : deserialize_public_inputs S inputs_bytes ≡ ok inputs
    pub valid : verifier_strong_ic vk inputs proof ≡ true

  check_proof→ :
      (proof_bytes inputs_bytes vk_bytes : Bytes)
      → is_empty proof_bytes ≡ false
      → is_empty vk_bytes ≡ false
      → check_proof S proof_bytes inputs_bytes vk_bytes ≡ ok true
      → Proves proof_bytes inputs_bytes vk_bytes
  unfolding check_proof
  check_proof→ proof_bytes inputs_bytes vk_bytes np nv h =
      let (found, e1, h1) = >>=-eq-ok (read_vk vk_bytes) _ h in
      let (vk, f1, h2) = require_some→ found _ h1 in
      let (found', e2, h3) = >>=-eq-ok (read_proof proof_bytes) _ h2 in
      let (proof, f2, h4) = require_some→ found' _ h3 in
      let (inputs, e3, h5) = >>=-eq-ok (deserialize_public_inputs S inputs_bytes) _ h4 in
      record {
        proof_filled = np;
        vk_filled = nv;
        vk = vk;
        vk_read = e1 ∙ ap ok f1;
        proof = proof;
        proof_read = e2 ∙ ap ok f2;
        inputs = inputs;
        inputs_read = e3;
        valid = cc h5;
      }

  check_proof-Proves :
      (proof_bytes inputs_bytes vk_bytes : Bytes)
      → Proves proof_bytes inputs_bytes vk_bytes
      → check_proof S proof_bytes inputs_bytes vk_bytes ≡ ok true
  unfolding check_proof
  check_proof-Proves proof_bytes inputs_bytes vk_bytes p =
      rw (p.vk_read, p.proof_read, p.inputs_read, p.valid) refl

  -- The verifier accepts exactly when neither the proof nor the key is empty, all three buffers can
  -- be read, and libsnark accepts the proof for the inputs under that key.
  pub verify_proof_iff :
      (proof_bytes inputs_bytes vk_bytes : Bytes)
      → (verify_proof S proof_bytes inputs_bytes vk_bytes ≡ ok true)
        ↔ Proves proof_bytes inputs_bytes vk_bytes
  unfolding verify_proof
  verify_proof_iff proof_bytes inputs_bytes vk_bytes = (
    λ h. elim (Bool-cases (is_empty proof_bytes)) [
      | inl empty ↦ absurd (cc (rw empty at h))
      | inr np ↦ elim (Bool-cases (is_empty vk_bytes)) [
        | inl empty ↦ absurd (cc (rw (np, empty) at h))
        | inr nv ↦
            check_proof→ proof_bytes inputs_bytes vk_bytes np nv
              (catch_false→ (check_proof S proof_bytes inputs_bytes vk_bytes) (rw (np, nv) at h))
      ]
    ],
    λ p.
        rw (p.proof_filled, p.vk_filled, check_proof-Proves proof_bytes inputs_bytes vk_bytes p)
          refl,
  )

  -- For a satisfied system with fewer than 2 ^ 32 public inputs, a proof is generated, and the client
  -- accepts it with its key and its inputs as they are serialized, if libsnark behaves as documented.
  pub verify_proof-generate_proof :
      IsSnark S
      → (seed seed' : ℕ) (cs : ConstraintSystem) (x : List Field) (a : AuxiliaryInput)
      → is_satisfied cs x a ≡ true
      → length x < 2 ^ 32
      → (b : ProofBundle S) × (inputs_bytes : Bytes) × (generate_proof S seed seed' cs x a ≡ ok b)
        × (serialize_public_inputs S b.public_inputs ≡ ok inputs_bytes)
        × (verify_proof S (write_proof b.proof) inputs_bytes (write_vk b.vk) ≡ ok true)
  unfolding generate_proof
  verify_proof-generate_proof L seed seed' cs x a sat h =
      let (bytes, written, back) = deserialize_public_inputs-serialize_public_inputs S L x [] h in
      let proof = prover seed' (generator seed cs).0 x a in
      let vk = (generator seed cs).1 in
      (
        record { proof = proof; public_inputs = x; vk = vk },
        bytes,
        rw sat refl,
        written,
        (verify_proof_iff (write_proof proof) bytes (write_vk vk)).1 (record {
          proof_filled = L.write_proof_filled proof;
          vk_filled = L.write_vk_filled vk;
          vk = vk;
          vk_read = L.read-write_vk vk;
          proof = proof;
          proof_read = L.read-write_proof proof;
          inputs = x;
          inputs_read = ap (deserialize_public_inputs S) (sym (append-nil bytes)) ∙ back;
          valid = L.complete seed seed' cs x a sat;
        }),
      )
