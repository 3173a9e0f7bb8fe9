-- ===== src/Zk/Server/Proving.antt =====
-- The ZK block of the server of Prototype B: the proofs it makes, and what it leaves in the cache.
use khipu_v_fhe.Prelude.{
  ℕ, ◌≡◌, ◌<◌, ◌^◌, ◌==◌, refl, sym, ap, ◌∙◌, List, [], ◌++◌, append-nil, Bytes, true, Outcome, ok,
  throw, fault, length, ltb, ltb→lt, Bool-cases, ◌⊎◌, inl, inr, Option, none, some,
}
use khipu_v_fhe.Evidence.{le32}
use khipu_v_fhe.Zk.{
  element_bytes, Snark, IsSnark, Cache, setup, prove, prove_with, clear_cached_keypair,
  serialize_public_inputs, deserialize_public_inputs, verify_proof,
}
use khipu_v_fhe.Zk.Inputs.{deserialize_public_inputs-serialize_public_inputs}
use khipu_v_fhe.Zk.Keys.{initial}
use khipu_v_fhe.Zk.Verifying.{verify_proof_iff}
use khipu_v_fhe.Zk.Server.{
  ZkFhe, ZkRun, Proved, cleared_on, third_pass, prove_system, prove_passed, zk_block,
}

module _ (S : Snark) where
  open S use {ConstraintSystem, Field, AuxiliaryInput, generator, prover, write_proof, write_vk}

  -- The three buffers are empty, or the client's verifier accepts them.
  abbrev pub IsAccepted : Proved → Type 0
  IsAccepted p =
      ((p.proof_bytes ≡ []) × (p.pi_bytes ≡ []) × (p.vk_bytes ≡ []))
      ⊎ (verify_proof S p.proof_bytes p.pi_bytes p.vk_bytes ≡ ok true)

  -- Public inputs are serialized, or there are too many of them.
  serialize_public_inputs_cases :
      (x : List Field)
      → ((bytes : Bytes) × (serialize_public_inputs S x ≡ ok bytes) × (length x < 2 ^ 32))
        ⊎ (serialize_public_inputs S x ≡ fault)
  unfolding serialize_public_inputs
  serialize_public_inputs_cases x = elim (Bool-cases (ltb (length x) (2 ^ 32))) [
    | inl h ↦ inl (le32 (length x) ++ element_bytes S x, rw h refl, ltb→lt _ _ h)
    | inr h ↦ inr (rw h refl)
  ]

  -- A proof that was just set up for is made.
  prove-setup :
      (seed seed' : ℕ) (cs : ConstraintSystem) (x : List Field) (a : AuxiliaryInput)
      (cache : Cache S)
      → prove S seed' x a (setup S seed cs cache).1 ≡ ok (prover seed' (generator seed cs).0 x a)
  unfolding prove setup prove_with
  prove-setup seed seed' cs x a cache = refl

  -- A proof for a satisfied system is accepted under the key of its set-up.
  verify_proof-prover :
      IsSnark S
      → (seed seed' : ℕ) (cs : ConstraintSystem) (x : List Field) (a : AuxiliaryInput)
        {bytes : Bytes}
      → S.is_satisfied cs x a ≡ true
      → length x < 2 ^ 32
      → serialize_public_inputs S x ≡ ok bytes
      → verify_proof S
          (write_proof (prover seed' (generator seed cs).0 x a))
          bytes
          (write_vk (generator seed cs).1)
        ≡ ok true
  verify_proof-prover L seed seed' cs x a {bytes} sat h written =
      let (bytes', written', back) = deserialize_public_inputs-serialize_public_inputs S L x [] h in
      let same : bytes' ≡ bytes = cc (sym written' ∙ written) in
      let proof = prover seed' (generator seed cs).0 x a in
      let vk = (generator seed cs).1 in
      (verify_proof_iff S (write_proof proof) bytes (write_vk vk)).1 (record {
        proof_filled = L.write_proof_filled proof;
        vk_filled = L.write_vk_filled vk;
        vk = vk;
        vk_read = L.read-write_vk vk;
        proof = proof;
        proof_read = L.read-write_proof proof;
        inputs = x;
        inputs_read = ap (deserialize_public_inputs S) (sym same ∙ sym (append-nil bytes')) ∙ back;
        valid = L.complete seed seed' cs x a sat;
      })

  -- What may be left of a step of the block: buffers that are accepted, and a cache as it was or
  -- cleared; an exception leaves the cache as it was.
  abbrev pub Leaves : Cache S → Outcome Proved × Cache S → Type 0
  Leaves cache (ok p, cache') = IsAccepted p × ((cache' ≡ cache) ⊎ (cache' ≡ initial S))
  Leaves cache (throw e, cache') = cache' ≡ cache
  Leaves cache (fault, cache') = Unit

  Leaves-cleared_on :
      (cache : Cache S) (r : Outcome Proved × Cache S)
      → Leaves cache r
      → Leaves cache (cleared_on r)
  Leaves-cleared_on cache (ok p, cache') h = h
  Leaves-cleared_on cache (throw e, cache') h = (inl (refl, refl, refl), inl h)
  Leaves-cleared_on cache (fault, cache') h = tt

  module _ (F : ZkFhe S) (L : IsSnark S) where
    open F use {Context, Keys, Ciphertext, ProofSystem, num_constraints, get_constraint_system}

    Leaves-third_pass :
        (run : ZkRun) (cs : ConstraintSystem) (x : List Field) (a : AuxiliaryInput)
        (cache : Cache S)
        → Leaves cache (third_pass S F run cs x a cache)
    unfolding third_pass setup clear_cached_keypair
    Leaves-third_pass run cs x a cache = elim (Bool-cases (S.is_satisfied cs x a)) [
      | inr unsatisfied ↦ rw unsatisfied refl
      | inl sat ↦
          let made = prove-setup run.generator_seed run.prover_seed cs x a cache in
          elim (serialize_public_inputs_cases x) [
            | inr many ↦ rw (sat, made, many) tt
            | inl (bytes, written, few) ↦
                rw (sat, made, written)
                  (
                    inr (
                        verify_proof-prover L run.generator_seed run.prover_seed cs x a sat few
                          written),
                    inr refl,
                  )
          ]
    ]

    Leaves-prove_system :
        (run : ZkRun) (ps : ProofSystem) (cache : Cache S)
        → Leaves cache (prove_system S F run ps cache)
    unfolding prove_system
    Leaves-prove_system run ps cache =
        elim (Bool-cases (num_constraints (get_constraint_system ps) == 0)) [
          | inl linear ↦ rw linear (inl (refl, refl, refl), inl refl)
          | inr other ↦ rw other (Leaves-third_pass run _ _ _ cache)
        ]

    Leaves-prove_passed :
        (run : ZkRun) (m : Outcome ProofSystem) (cache : Cache S)
        → Leaves cache (prove_passed S F run m cache)
    Leaves-prove_passed run (ok ps) cache = Leaves-prove_system run ps cache
    Leaves-prove_passed run (throw e) cache = refl
    Leaves-prove_passed run fault cache = tt

    pub Leaves-zk_block :
        (o : Option (Keys → ProofSystem → List Ciphertext → Outcome (Ciphertext × ProofSystem)))
        (cc : Context) (keys : Keys) (blobs : List Bytes) (run : ZkRun) (cache : Cache S)
        → Leaves cache (zk_block S F o cc keys blobs run cache)
    Leaves-zk_block none cc keys blobs run cache = (inl (refl, refl, refl), inl refl)
    Leaves-zk_block (some eval_zk) cc keys blobs run cache =
        Leaves-cleared_on cache _ (Leaves-prove_passed run _ cache)

  third_pass_eq :
      (F : ZkFhe S) (run : ZkRun) (cs : ConstraintSystem) (x : List Field) (a : AuxiliaryInput)
      (cache cache' : Cache S)
      → (third_pass S F run cs x a cache).0 ≡ (third_pass S F run cs x a cache').0
  unfolding third_pass setup prove prove_with
  third_pass_eq F run cs x a cache cache' = elim (Bool-cases (S.is_satisfied cs x a)) [
    | inr unsatisfied ↦ rw unsatisfied refl
    | inl sat ↦ elim (serialize_public_inputs_cases x) [
      | inr many ↦ rw (sat, many) refl
      | inl (bytes, written, few) ↦ rw (sat, written) refl
    ]
  ]

  cleared_on_eq :
      (r r' : Outcome Proved × Cache S) → r.0 ≡ r'.0 → (cleared_on r).0 ≡ (cleared_on r').0
  cleared_on_eq (ok p, c) (o, c') h = rw (sym h) refl
  cleared_on_eq (throw e, c) (o, c') h = rw (sym h) refl
  cleared_on_eq (fault, c) (o, c') h = rw (sym h) refl

  -- What the block makes does not depend on the keys that are cached.
  module _ (F : ZkFhe S) where
    open F use {Context, Keys, Ciphertext, ProofSystem, num_constraints, get_constraint_system}

    prove_passed_eq :
        (run : ZkRun) (m : Outcome ProofSystem) (cache cache' : Cache S)
        → (prove_passed S F run m cache).0 ≡ (prove_passed S F run m cache').0
    unfolding prove_system
    prove_passed_eq run (ok ps) cache cache' =
        elim (Bool-cases (num_constraints (get_constraint_system ps) == 0)) [
          | inl linear ↦ rw linear refl
          | inr other ↦ rw other (third_pass_eq F run _ _ _ cache cache')
        ]
    prove_passed_eq run (throw e) cache cache' = refl
    prove_passed_eq run fault cache cache' = refl

    pub zk_block_eq :
        (o : Option (Keys → ProofSystem → List Ciphertext → Outcome (Ciphertext × ProofSystem)))
        (cc : Context) (keys : Keys) (blobs : List Bytes) (run : ZkRun) (cache cache' : Cache S)
        → (zk_block S F o cc keys blobs run cache).0 ≡ (zk_block S F o cc keys blobs run cache').0
    zk_block_eq none cc keys blobs run cache cache' = refl
    zk_block_eq (some eval_zk) cc keys blobs run cache cache' =
        cleared_on_eq _ _ (prove_passed_eq run _ cache cache')
