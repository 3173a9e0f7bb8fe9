-- ===== src/Zk/Circuits.antt =====
-- The circuits of zk-vfhe/workloads, each once over the operations of the context and once over those
-- of the proof system of zkOpenFHE. Both libraries are parameters.
pub mod Agreement
use khipu_v_fhe.Prelude.{
  ℕ, suc, ◌+◌, ◌≡◌, List, [], ◌∷◌, ◌++◌, map, Outcome, ok, throw, fault, ◌>>=◌, text,
}

-- The operations of a crypto context for BGV.
pub record Bgv : Type 1 where
  pub Ciphertext : Type 0
  pub eval_mult_no_relin : Ciphertext → Ciphertext → Outcome Ciphertext
  pub eval_add : Ciphertext → Ciphertext → Outcome Ciphertext

-- `LibsnarkProofSystem`. `PublicInput` also writes to the ciphertext.
pub record ZkSystem (G : Bgv) : Type 1 where
  pub ProofSystem : Type 0
  pub public_input : G.Ciphertext → ProofSystem → Outcome (G.Ciphertext × ProofSystem)
  pub zk_mult_no_relin :
      G.Ciphertext → G.Ciphertext → ProofSystem → Outcome (G.Ciphertext × ProofSystem)
  pub zk_add : G.Ciphertext → G.Ciphertext → ProofSystem → Outcome (G.Ciphertext × ProofSystem)

-- The messages for a wrong number of inputs.
abbrev pub toy_error : List ℕ
toy_error = text "toy requires exactly 2 input ciphertexts"

abbrev pub small_error : List ℕ
small_error = text "small requires exactly 4 input ciphertexts"

abbrev pub medium_error : List ℕ
medium_error = text "medium requires exactly 6 input ciphertexts"

abbrev pub add_error : List ℕ
add_error = text "BGV-Add-4K requires exactly 2 input ciphertexts"

abbrev pub mul_error : List ℕ
mul_error = text "BGV-Mul-4K requires exactly 2 input ciphertexts"

abbrev pub bgv_noop_error : List ℕ
bgv_noop_error = text "noop requires at least 1 input ciphertext"

module _ (G : Bgv) where
  open G use {Ciphertext, eval_mult_no_relin, eval_add}

  unfoldable pub bgv_toy_eval : List Ciphertext → Outcome Ciphertext
  bgv_toy_eval (c1 ∷ c2 ∷ []) = eval_mult_no_relin c1 c2
  bgv_toy_eval _ = throw toy_error

  unfoldable pub bgv_add_4k_eval : List Ciphertext → Outcome Ciphertext
  bgv_add_4k_eval (c1 ∷ c2 ∷ []) = eval_add c1 c2
  bgv_add_4k_eval _ = throw add_error

  unfoldable pub bgv_mul_4k_eval : List Ciphertext → Outcome Ciphertext
  bgv_mul_4k_eval (c1 ∷ c2 ∷ []) = eval_mult_no_relin c1 c2
  bgv_mul_4k_eval _ = throw mul_error

  unfoldable pub bgv_noop_eval : List Ciphertext → Outcome Ciphertext
  bgv_noop_eval [] = throw bgv_noop_error
  bgv_noop_eval (c ∷ cts) = ok c

  unfoldable pub bgv_small_eval : List Ciphertext → Outcome Ciphertext
  bgv_small_eval (c1 ∷ c2 ∷ c3 ∷ c4 ∷ []) = do
    u1 ← eval_mult_no_relin c1 c2
    u2 ← eval_mult_no_relin c3 c4
    eval_add u1 u2
  bgv_small_eval _ = throw small_error

  unfoldable pub bgv_medium_eval : List Ciphertext → Outcome Ciphertext
  bgv_medium_eval (c1 ∷ c2 ∷ c3 ∷ c4 ∷ c5 ∷ c6 ∷ []) = do
    u1 ← eval_mult_no_relin c1 c2
    u2 ← eval_mult_no_relin c3 c4
    u3 ← eval_mult_no_relin c5 c6
    sum ← eval_add u1 u2
    eval_add sum u3
  bgv_medium_eval _ = throw medium_error

  module _ (Z : ZkSystem G) where
    open Z use {ProofSystem, public_input, zk_mult_no_relin, zk_add}

    -- `ps.PublicInput` on two inputs, and then two more.
    unfoldable pub declare_two :
        Ciphertext → Ciphertext → ProofSystem → Outcome (Ciphertext × Ciphertext × ProofSystem)
    declare_two c1 c2 ps = do
      (d1, ps1) ← public_input c1 ps
      (d2, ps2) ← public_input c2 ps1
      ok (d1, d2, ps2)

    unfoldable pub toy_eval_zk : List Ciphertext → ProofSystem → Outcome (Ciphertext × ProofSystem)
    toy_eval_zk (c1 ∷ c2 ∷ []) ps = do
      (d1, d2, ps') ← declare_two c1 c2 ps
      zk_mult_no_relin d1 d2 ps'
    toy_eval_zk _ ps = throw toy_error

    unfoldable pub bgv_add_4k_eval_zk :
        List Ciphertext → ProofSystem → Outcome (Ciphertext × ProofSystem)
    bgv_add_4k_eval_zk (c1 ∷ c2 ∷ []) ps = do (d1, d2, ps') ← declare_two c1 c2 ps; zk_add d1 d2 ps'
    bgv_add_4k_eval_zk _ ps = throw add_error

    unfoldable pub bgv_mul_4k_eval_zk :
        List Ciphertext → ProofSystem → Outcome (Ciphertext × ProofSystem)
    bgv_mul_4k_eval_zk (c1 ∷ c2 ∷ []) ps = do
      (d1, d2, ps') ← declare_two c1 c2 ps
      zk_mult_no_relin d1 d2 ps'
    bgv_mul_4k_eval_zk _ ps = throw mul_error

    unfoldable pub small_eval_zk :
        List Ciphertext → ProofSystem → Outcome (Ciphertext × ProofSystem)
    small_eval_zk (c1 ∷ c2 ∷ c3 ∷ c4 ∷ []) ps = do
      (d1, d2, ps1) ← declare_two c1 c2 ps
      (d3, d4, ps2) ← declare_two c3 c4 ps1
      (u1, ps3) ← zk_mult_no_relin d1 d2 ps2
      (u2, ps4) ← zk_mult_no_relin d3 d4 ps3
      zk_add u1 u2 ps4
    small_eval_zk _ ps = throw small_error

    unfoldable pub medium_eval_zk :
        List Ciphertext → ProofSystem → Outcome (Ciphertext × ProofSystem)
    medium_eval_zk (c1 ∷ c2 ∷ c3 ∷ c4 ∷ c5 ∷ c6 ∷ []) ps = do
      (d1, d2, ps1) ← declare_two c1 c2 ps
      (d3, d4, ps2) ← declare_two c3 c4 ps1
      (d5, d6, ps3) ← declare_two c5 c6 ps2
      (u1, ps4) ← zk_mult_no_relin d1 d2 ps3
      (u2, ps5) ← zk_mult_no_relin d3 d4 ps4
      (u3, ps6) ← zk_mult_no_relin d5 d6 ps5
      (sum, ps7) ← zk_add u1 u2 ps6
      zk_add sum u3 ps7
    medium_eval_zk _ ps = throw medium_error
