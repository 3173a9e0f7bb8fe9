-- ===== src/Examples/Proofs.antt =====
-- A proof system in the clear: a system is a number, its inputs and the secret add up to it, and the
-- secret is the proof.
use khipu_v_fhe.Prelude.{
  ℕ, ◌+◌, ◌≡◌, refl, List, [], ◌∷◌, Bytes, true, ltb→lt, Outcome, ok, replicate, ◌==◌, Option, none,
  some,
}
use khipu_v_fhe.Zk.{
  Snark, IsSnark, ProofBundle, generate_proof, serialize_public_inputs, verify_proof, prove,
}
use khipu_v_fhe.Zk.Verifying.{verify_proof-generate_proof}
use khipu_v_fhe.Zk.Keys.{Use, set_up, proved, cleared, run, initial, latest, proof_for, prove-run}

abbrev sum : List ℕ → ℕ
sum [] = 0
sum (x ∷ xs) = x + sum xs

abbrev head : Bytes → ℕ
head [] = 0
head (b ∷ bs) = b

abbrev first_some : Bytes → Outcome (Option ℕ)
first_some [] = ok none
first_some (b ∷ bs) = ok (some b)

abbrev pub clear_snark : Snark
clear_snark = record {
  ConstraintSystem = ℕ;
  ProvingKey = ℕ;
  VerificationKey = ℕ;
  Field = ℕ;
  AuxiliaryInput = ℕ;
  Proof = ℕ;
  is_satisfied = λ cs x a. sum x + a == cs;
  generator = λ seed cs. (cs, cs);
  prover = λ seed pk x a. a;
  verifier_strong_ic = λ vk x p. sum x + p == vk;
  write_field = λ x. x ∷ replicate 31 0;
  read_field = head;
  write_proof = λ p. p ∷ [];
  read_proof = first_some;
  write_vk = λ vk. vk ∷ [];
  read_vk = first_some;
}

pub clear_snark-IsSnark : IsSnark clear_snark
clear_snark-IsSnark = record {
  read-write_field = λ x. refl;
  length-write_field = λ x. refl;
  read-write_proof = λ p. refl;
  write_proof_filled = λ p. refl;
  read-write_vk = λ vk. refl;
  write_vk_filled = λ vk. refl;
  complete = λ seed seed' cs x a h. h;
}

abbrev inputs : List ℕ
inputs = 3 ∷ 4 ∷ []

abbrev uses : List (Use clear_snark)
uses = set_up 1 5 ∷ cleared ∷ set_up 2 9 ∷ proved 0 inputs 2 ∷ []

prove-run_example :
    prove clear_snark 8 inputs 2 (run clear_snark uses (initial clear_snark))
    ≡ proof_for clear_snark (latest clear_snark uses none) 8 inputs 2
prove-run_example = prove-run clear_snark uses 8 inputs 2

verify_proof-generate_proof_example :
    (b : ProofBundle clear_snark) × (inputs_bytes : Bytes) × (generate_proof clear_snark 1 2 9
        inputs 2
      ≡ ok b)
    × (serialize_public_inputs clear_snark b.public_inputs ≡ ok inputs_bytes)
    × (verify_proof clear_snark (b.proof ∷ []) inputs_bytes (b.vk ∷ []) ≡ ok true)
verify_proof-generate_proof_example =
    verify_proof-generate_proof clear_snark clear_snark-IsSnark 1 2 9 inputs 2 refl
      (ltb→lt _ _ refl)
