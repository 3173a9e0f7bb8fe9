-- ===== src/Zk.antt =====
-- The zero-knowledge proofs of Prototype B: proof_generation.cpp and the verifier.cpp of its client.
-- libsnark is a parameter.
pub mod Inputs
pub mod Messages
pub mod Circuits
pub mod Client
pub mod Server
pub mod Keys
pub mod Verifying
use khipu_v_fhe.Prelude.{
  ℕ, zero, suc, ◌+◌, ◌-◌, ◌*◌, ◌^◌, ◌≡◌, ◌≢◌, List, [], ◌∷◌, ◌++◌, Bytes, Bool, true, false, ◌||◌,
  Outcome, ok, throw, fault, ◌>>=◌, ◌>>◌, require, catch, text, length, take, drop, replicate,
  is_empty, leb, ltb, if◌then◌else◌, Option, none, some,
}
use khipu_v_fhe.Evidence.{le32, of_le32}

-- `r1cs_ppzksnark` over alt_bn128. The first argument of `generator` and `prover` stands for the random
-- numbers of the call. A field element in binary output, and reading one; `>>` from a string into a
-- proof or a key, where `none` is a stream that failed.
pub record Snark : Type 1 where
  pub ConstraintSystem : Type 0
  pub ProvingKey : Type 0
  pub VerificationKey : Type 0
  pub Field : Type 0
  pub AuxiliaryInput : Type 0
  pub Proof : Type 0
  pub is_satisfied : ConstraintSystem → List Field → AuxiliaryInput → Bool
  pub generator : ℕ → ConstraintSystem → ProvingKey × VerificationKey
  pub prover : ℕ → ProvingKey → List Field → AuxiliaryInput → Proof
  pub verifier_strong_ic : VerificationKey → List Field → Proof → Bool
  pub write_field : Field → Bytes
  pub read_field : Bytes → Field
  pub write_proof : Proof → Bytes
  pub read_proof : Bytes → Outcome (Option Proof)
  pub write_vk : VerificationKey → Bytes
  pub read_vk : Bytes → Outcome (Option VerificationKey)

-- `FieldT::num_limbs * sizeof(mp_limb_t)`
abbrev pub elem_bytes : ℕ
elem_bytes = 32

-- What is read of a value whose stream failed.
abbrev pub require_some {ℓ} :
    {A : Type ℓ} → Option A → Outcome Bool → (A → Outcome Bool) → Outcome Bool
require_some none failed next = failed
require_some (some a) failed next = next a

module _ (S : Snark) where
  open S use {
    ConstraintSystem, ProvingKey, VerificationKey, Field, AuxiliaryInput, Proof, is_satisfied,
    generator, prover, verifier_strong_ic, write_field, read_field, read_proof, read_vk,
  }

  -- The documented behaviour: values that were written are read back, a field element in 32 bytes, and
  -- a proof for a satisfied system is accepted under the key of its generation.
  pub record IsSnark : Type 0 where
    pub read-write_field : (x : Field) → read_field (write_field x) ≡ x
    pub length-write_field : (x : Field) → length (write_field x) ≡ 32
    pub read-write_proof : (p : Proof) → read_proof (S.write_proof p) ≡ ok (some p)
    pub write_proof_filled : (p : Proof) → is_empty (S.write_proof p) ≡ false
    pub read-write_vk : (vk : VerificationKey) → read_vk (S.write_vk vk) ≡ ok (some vk)
    pub write_vk_filled : (vk : VerificationKey) → is_empty (S.write_vk vk) ≡ false
    pub complete :
        (seed seed' : ℕ) (cs : ConstraintSystem) (x : List Field) (a : AuxiliaryInput)
        → is_satisfied cs x a ≡ true
        → verifier_strong_ic (generator seed cs).1 x (prover seed' (generator seed cs).0 x a) ≡ true

  pub record ProofBundle : Type 0 where
    pub proof : Proof
    pub public_inputs : List Field
    pub vk : VerificationKey

  -- The protoboard is its constraint system and its two inputs.
  unfoldable pub generate_proof :
      ℕ → ℕ → ConstraintSystem → List Field → AuxiliaryInput → Outcome ProofBundle
  generate_proof seed seed' cs primary_input auxiliary_input = do
    require (is_satisfied cs primary_input auxiliary_input)
        (text "Constraint system is not satisfied")
    let keypair = generator seed cs
    ok (record {
      proof = prover seed' keypair.0 primary_input auxiliary_input;
      public_inputs = primary_input;
      vk = keypair.1;
    })

  -- `g_cached_pk`, `g_cached_vk` and `g_keypair_valid`; a key that is default-constructed is `none`.
  pub record Cache : Type 0 where
    pub cached_pk : Option ProvingKey
    pub cached_vk : Option VerificationKey
    pub keypair_valid : Bool

  unfoldable pub setup : ℕ → ConstraintSystem → Cache → VerificationKey × Cache
  setup seed cs cache =
      let keypair = generator seed cs in
      (
        keypair.1,
        record { cached_pk = some keypair.0; cached_vk = some keypair.1; keypair_valid = true },
      )

  -- The prover on a key: libsnark on a default-constructed one is left undefined.
  unfoldable pub prove_with : Option ProvingKey → ℕ → List Field → AuxiliaryInput → Outcome Proof
  prove_with none seed primary_input auxiliary_input = fault
  prove_with (some pk) seed primary_input auxiliary_input =
      ok (prover seed pk primary_input auxiliary_input)

  unfoldable pub prove : ℕ → List Field → AuxiliaryInput → Cache → Outcome Proof
  prove seed primary_input auxiliary_input cache = do
    require cache.keypair_valid (text "Keypair not set up. Call setup() first.")
    prove_with cache.cached_pk seed primary_input auxiliary_input

  unfoldable pub clear_cached_keypair : Cache → Cache
  clear_cached_keypair cache = record { cached_pk = none; cached_vk = none; keypair_valid = false }

  -- The zeroed 32 bytes of one element, with what its stream has written copied over them.
  unfoldable pub element : Field → Bytes
  element x =
      let str = take elem_bytes (write_field x) in str ++ replicate (elem_bytes - length str) 0

  abbrev pub element_bytes : List Field → Bytes
  element_bytes [] = []
  element_bytes (x ∷ xs) = element x ++ element_bytes xs

  -- The count is cut to 32 bits and the buffer sized by it: with more inputs the loop writes behind
  -- the buffer.
  unfoldable pub serialize_public_inputs : List Field → Outcome Bytes
  serialize_public_inputs inputs =
      if ltb (length inputs) (2 ^ 32)
      then ok (le32 (length inputs) ++ element_bytes inputs)
      else fault

  -- The loop over the count, from an offset on.
  unfoldable pub read_elements : ℕ → Bytes → List Field
  read_elements zero bytes = []
  read_elements (suc n) bytes =
      read_field (take elem_bytes bytes) ∷ read_elements n (drop elem_bytes bytes)

  unfoldable pub deserialize_public_inputs : Bytes → Outcome (List Field)
  deserialize_public_inputs bytes = do
    require (leb 4 (length bytes)) (text "Invalid public inputs: too short")
    let num_inputs = of_le32 bytes
    require (leb (4 + num_inputs * elem_bytes) (length bytes))
        (text "Invalid public inputs: size mismatch")
    ok (read_elements num_inputs (drop 4 bytes))

  -- The checks of `Verifier::verify_proof` inside its `try`.
  unfoldable pub check_proof : Bytes → Bytes → Bytes → Outcome Bool
  check_proof proof_bytes public_inputs_bytes vk_bytes = do
    vk ← read_vk vk_bytes
    require_some vk (ok false) (λ vk. read_proof proof_bytes >>= λ proof.
        require_some proof (ok false) (λ proof.
          deserialize_public_inputs public_inputs_bytes >>= λ primary_input.
          ok (verifier_strong_ic vk primary_input proof)))

  unfoldable pub verify_proof : Bytes → Bytes → Bytes → Outcome Bool
  verify_proof proof_bytes public_inputs_bytes vk_bytes =
      if is_empty proof_bytes || is_empty vk_bytes
      then ok false
      else catch (check_proof proof_bytes public_inputs_bytes vk_bytes) (λ e. ok false)
