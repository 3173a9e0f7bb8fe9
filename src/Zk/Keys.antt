-- ===== src/Zk/Keys.antt =====
-- The cached key pair as a state machine: which key a proof is made with.
use khipu_v_fhe.Prelude.{
  ℕ, ◌≡◌, refl, ap, ◌∙◌, List, [], ◌∷◌, true, false, Outcome, ok, throw, text, Option, none, some,
}
use khipu_v_fhe.Zk.{Snark, Cache, setup, prove_with, prove, clear_cached_keypair}

module _ (S : Snark) where
  open S use {
    ConstraintSystem, ProvingKey, VerificationKey, Field, AuxiliaryInput, Proof, generator, prover,
  }

  -- The calls of one thread on the cache. A proof reads it and leaves it as it is.
  pub data Use : Type 0 where
    set_up : ℕ → ConstraintSystem → Use
    proved : ℕ → List Field → AuxiliaryInput → Use
    cleared : Use

  abbrev pub step : Use → Cache S → Cache S
  step (set_up seed cs) cache = (setup S seed cs cache).1
  step (proved seed x a) cache = cache
  step cleared cache = clear_cached_keypair S cache

  abbrev pub run : List Use → Cache S → Cache S
  run [] cache = cache
  run (u ∷ us) cache = run us (step u cache)

  -- The cache of a process that starts.
  abbrev pub initial : Cache S
  initial = record { cached_pk = none; cached_vk = none; keypair_valid = false }

  -- The specification: the seed and the system of the last set-up, if the keys were not cleared since.
  abbrev pub latest : List Use → Option (ℕ × ConstraintSystem) → Option (ℕ × ConstraintSystem)
  latest [] current = current
  latest (set_up seed cs ∷ us) current = latest us (some (seed, cs))
  latest (proved seed x a ∷ us) current = latest us current
  latest (cleared ∷ us) current = latest us none

  abbrev holding : Option (ℕ × ConstraintSystem) → Cache S
  holding none = initial
  holding (some (seed, cs)) = record {
    cached_pk = some (generator seed cs).0;
    cached_vk = some (generator seed cs).1;
    keypair_valid = true;
  }

  run-latest :
      (us : List Use) (current : Option (ℕ × ConstraintSystem))
      → run us (holding current) ≡ holding (latest us current)
  unfolding setup clear_cached_keypair
  run-latest [] current = refl
  run-latest (set_up seed cs ∷ us) current = run-latest us (some (seed, cs))
  run-latest (proved seed x a ∷ us) current = run-latest us current
  run-latest (cleared ∷ us) current = run-latest us none

  -- What the specification says of a proof.
  abbrev pub proof_for :
      Option (ℕ × ConstraintSystem) → ℕ → List Field → AuxiliaryInput → Outcome Proof
  proof_for none seed x a = throw (text "Keypair not set up. Call setup() first.")
  proof_for (some (seed', cs)) seed x a = ok (prover seed (generator seed' cs).0 x a)

  prove-holding :
      (current : Option (ℕ × ConstraintSystem)) (seed : ℕ) (x : List Field) (a : AuxiliaryInput)
      → prove S seed x a (holding current) ≡ proof_for current seed x a
  unfolding prove prove_with
  prove-holding none seed x a = refl
  prove-holding (some (seed', cs)) seed x a = refl

  -- After any calls of one thread, a proof is made with the key of the last set-up, and throws if there
  -- was none since the process started or the keys were cleared.
  pub prove-run :
      (us : List Use) (seed : ℕ) (x : List Field) (a : AuxiliaryInput)
      → prove S seed x a (run us initial) ≡ proof_for (latest us none) seed x a
  prove-run us seed x a =
      ap (prove S seed x a) (run-latest us none) ∙ prove-holding (latest us none) seed x a
