-- ===== src/Workloads.antt =====
-- The workloads of tee-vfhe/workloads: circuits over the slots of a CKKS ciphertext. OpenFHE is a
-- parameter, and so are the pseudo-random weights, which the standard library generates.
pub mod Sums
pub mod Slots
pub mod Matvec
pub mod Inference
pub mod Rotations
pub mod Logistic
pub mod Gpu
use khipu_v_fhe.Prelude.{
  ℕ, zero, suc, ◌+◌, ◌*◌, ◌%◌, ◌^◌, ◌≡◌, List, [], ◌∷◌, ◌++◌, map, Bool, true, false, Outcome, ok,
  throw, fault, ◌>>=◌, ◌>>◌, require, text, length, ltb, ◌==◌, bytes_eq, if◌then◌else◌, Option,
  none, some,
}

-- What a slot holds: the doubles of the source, without rounding.
pub record Scalars : Type 1 where
  pub Scalar : Type 0
  pub zero_s : Scalar
  pub one_s : Scalar
  pub half_s : Scalar
  pub add : Scalar → Scalar → Scalar
  pub mul : Scalar → Scalar → Scalar
  pub sub : Scalar → Scalar → Scalar

-- The index of `EvalRotate`, positive or negative.
pub data Rotation : Type 0 where
  left right : ℕ → Rotation

-- A crypto context of OpenFHE for CKKS. Each call may throw.
pub record Ckks (A : Scalars) : Type 1 where
  pub Ciphertext : Type 0
  pub Plaintext : Type 0
  pub make_packed_plaintext : List A.Scalar → Plaintext
  pub eval_rotate : Ciphertext → Rotation → Outcome Ciphertext
  pub eval_add : Ciphertext → Ciphertext → Outcome Ciphertext
  pub eval_add_plain : Ciphertext → Plaintext → Outcome Ciphertext
  pub eval_mult : Ciphertext → Ciphertext → Outcome Ciphertext
  pub eval_mult_plain : Ciphertext → Plaintext → Outcome Ciphertext
  pub eval_sum : Ciphertext → ℕ → Outcome Ciphertext
  pub rescale : Ciphertext → Outcome Ciphertext

-- `k` numbers from `d` on, for a loop over an index.
abbrev pub range : ℕ → ℕ → List ℕ
range zero d = []
range (suc k) d = d ∷ range k (suc d)

module _ {A : Scalars} (C : Ckks A) where
  open A use {Scalar, zero_s, one_s, half_s}
  open C use {
    Ciphertext, Plaintext, make_packed_plaintext, eval_rotate, eval_add, eval_add_plain, eval_mult,
    eval_mult_plain, eval_sum, rescale,
  }

  -- `if (inputs.size() != 1) throw …`, then `inputs[0]`; the same for two inputs.
  abbrev pub one_input :
      List ℕ → List Ciphertext → (Ciphertext → Outcome Ciphertext) → Outcome Ciphertext
  one_input e (x ∷ []) next = next x
  one_input e _ next = throw e

  abbrev pub two_inputs :
      List ℕ → List Ciphertext → (Ciphertext → Ciphertext → Outcome Ciphertext) → Outcome Ciphertext
  two_inputs e (x ∷ y ∷ []) next = next x y
  two_inputs e _ next = throw e

  unfoldable pub noop_eval : List Ciphertext → Outcome Ciphertext
  noop_eval [] = throw (text "noop workload requires at least one input ciphertext")
  noop_eval (x ∷ xs) = ok x

  unfoldable pub micro_add_eval : List Ciphertext → Outcome Ciphertext
  micro_add_eval inputs =
      two_inputs (text "micro_add workload requires exactly 2 input ciphertexts") inputs eval_add

  unfoldable pub micro_mul_eval : List Ciphertext → Outcome Ciphertext
  micro_mul_eval inputs =
      two_inputs (text "micro_mul workload requires exactly 2 input ciphertexts") inputs eval_mult

  unfoldable pub micro_rotate_eval : List Ciphertext → Outcome Ciphertext
  micro_rotate_eval inputs =
      one_input (text "micro_rotate workload requires exactly 1 input ciphertext") inputs
        (λ x. eval_rotate x (left 1))

  unfoldable pub toy_eval : List Ciphertext → Outcome Ciphertext
  toy_eval inputs =
      two_inputs (text "toy workload requires exactly 2 input ciphertexts") inputs
        (λ x y. eval_mult x y >>= rescale)

  -- The dot product with fixed weights.
  unfoldable pub small_eval : List Scalar → List Ciphertext → Outcome Ciphertext
  small_eval w inputs =
      one_input (text "small workload requires exactly 1 input ciphertext") inputs (λ x. do
        ct_prod ← eval_mult_plain x (make_packed_plaintext w)
        ct_rescaled ← rescale ct_prod
        eval_sum ct_rescaled 32)

  -- `if (d == 0) acc = ct_term; else acc = cc->EvalAdd(acc, ct_term);`
  abbrev pub added : Option Ciphertext → Ciphertext → Outcome Ciphertext
  added none ct_term = ok ct_term
  added (some acc) ct_term = eval_add acc ct_term

  -- The loop of the diagonal method, from round `d` on: `k` rounds are left.
  unfoldable pub diagonal_loop :
      (ℕ → List Scalar) → Ciphertext → ℕ → ℕ → Option Ciphertext → Outcome (Option Ciphertext)
  diagonal_loop diag x zero d acc = ok acc
  diagonal_loop diag x (suc k) d acc = do
    ct_rot ← eval_rotate x (left d)
    ct_term ← eval_mult_plain ct_rot (make_packed_plaintext (diag d))
    acc' ← added acc ct_term
    diagonal_loop diag x k (suc d) (some acc')

  -- `cc->Rescale(acc)`, on a null pointer without any round.
  abbrev pub rescale_sum : Option Ciphertext → Outcome Ciphertext
  rescale_sum none = fault
  rescale_sum (some acc) = rescale acc

  -- `diag[i] = W[i][(i + d) % kN]`
  abbrev pub square_diag : ℕ → (ℕ → ℕ → Scalar) → ℕ → List Scalar
  square_diag n W d = map (λ i. W i ((i + d) % n)) (range n 0)

  -- `medium` has `kN = 64`, `app_matvec` has 256.
  unfoldable pub medium_eval : (ℕ → ℕ → Scalar) → List Ciphertext → Outcome Ciphertext
  medium_eval W inputs =
      one_input (text "medium workload requires exactly 1 input ciphertext") inputs
        (λ x. diagonal_loop (square_diag 64 W) x 64 0 none >>= rescale_sum)

  unfoldable pub app_matvec_eval : (ℕ → ℕ → Scalar) → List Ciphertext → Outcome Ciphertext
  app_matvec_eval M inputs =
      one_input (text "app_matvec workload requires exactly 1 input ciphertext") inputs
        (λ x. diagonal_loop (square_diag 256 M) x 256 0 none >>= rescale_sum)

  -- One entry of a diagonal of the matrix that `diagonal_matvec` embeds into `kSlots` rows.
  abbrev pub embedded : (ℕ → ℕ → Scalar) → ℕ → ℕ → ℕ → ℕ → Scalar
  embedded M rows cols i j = if ltb i rows then (if ltb j cols then M i j else zero_s) else zero_s

  abbrev pub slots : ℕ
  slots = 128

  unfoldable pub diagonal_matvec : Ciphertext → (ℕ → ℕ → Scalar) → ℕ → ℕ → Outcome Ciphertext
  diagonal_matvec x M rows cols =
      diagonal_loop (square_diag slots (embedded M rows cols)) x slots 0 none >>= rescale_sum

  pub record Mlp : Type 0 where
    pub w1 : ℕ → ℕ → Scalar
    pub b1 : ℕ → Scalar
    pub w2 : ℕ → ℕ → Scalar
    pub b2 : ℕ → Scalar

  -- A vector with a bias in its first slots.
  abbrev pub bias : ℕ → (ℕ → Scalar) → List Scalar
  bias n b = map (λ i. if ltb i n then b i else zero_s) (range slots 0)

  abbrev pub constant : Scalar → List Scalar
  constant s = map (λ i. s) (range slots 0)

  -- `0.5 * t * (1 + t)`
  unfoldable pub activation : Ciphertext → Outcome Ciphertext
  activation t = do
    one_plus_t ← eval_add_plain t (make_packed_plaintext (constant one_s))
    product ← eval_mult t one_plus_t
    t_times_1pt ← rescale product
    halved ← eval_mult_plain t_times_1pt (make_packed_plaintext (constant half_s))
    rescale halved

  -- A network of 128 inputs, 64 hidden units and 10 outputs.
  unfoldable pub app_inference_eval : Mlp → List Ciphertext → Outcome Ciphertext
  app_inference_eval w inputs =
      one_input (text "app_inference workload requires exactly 1 input ciphertext") inputs (λ x. do
        t ← diagonal_matvec x w.w1 64 128
        t' ← eval_add_plain t (make_packed_plaintext (bias 64 w.b1))
        act ← activation t'
        out ← diagonal_matvec act w.w2 10 64
        eval_add_plain out (make_packed_plaintext (bias 10 w.b2)))

  -- `for (uint32_t j = 1; j < limit; j <<= 1) { … EvalRotate(ct, j * stride) … EvalAddInPlace … }`,
  -- from `j` on. A uint32_t is doubled at most 32 times before it is 0.
  unfoldable pub accumulate : (ℕ → Rotation) → ℕ → ℕ → ℕ → ℕ → Ciphertext → Outcome Ciphertext
  accumulate direction stride limit zero j ct = fault
  accumulate direction stride limit (suc fuel) j ct =
      if ltb j limit
      then (do
        rotated ← eval_rotate ct (direction (j * stride))
        ct' ← eval_add ct rotated
        accumulate direction stride limit fuel (2 * j % 2 ^ 32) ct')
      else ok ct

  -- Of the logistic regression, whose ciphertexts hold 128 rows of 256 columns.
  unfoldable pub row_accumulate : Ciphertext → Outcome Ciphertext
  row_accumulate ct = accumulate left 1 256 33 1 ct

  unfoldable pub row_propagate : Ciphertext → Outcome Ciphertext
  row_propagate ct = accumulate right 1 256 33 1 ct

  unfoldable pub col_accumulate : Ciphertext → Outcome Ciphertext
  col_accumulate ct = accumulate left 256 128 33 1 ct

-- The rotations that the `gen_keys` of a workload makes keys for.
unfoldable pub medium_rotations : List Rotation
medium_rotations = map left (range 64 0)

unfoldable pub app_matvec_rotations : List Rotation
app_matvec_rotations = map left (range 256 0)

unfoldable pub app_inference_rotations : List Rotation
app_inference_rotations = map left (range 128 0)

-- `for (uint32_t j = 1; j < limit; j <<= 1)`, with what is pushed for each `j`.
abbrev pub doublings : ℕ → ℕ → ℕ → (ℕ → List Rotation) → List Rotation
doublings limit zero j push = []
doublings limit (suc fuel) j push =
    let rest = doublings limit fuel (2 * j % 2 ^ 32) push in
    if ltb j limit then push j ++ rest else []

unfoldable pub logistic_rotations : List Rotation
logistic_rotations =
    doublings 256 32 1 (λ j. left j ∷ right j ∷ []) ++ doublings 128 32 1 (λ j. left (j * 256) ∷ [])

-- `Register`: `std::map::emplace` keeps an entry that is there.
unfoldable pub register {ℓ} : {W : Type ℓ} → List ℕ → W → List (List ℕ × W) → List (List ℕ × W)
register id w [] = (id, w) ∷ []
register id w ((name, v) ∷ registry) =
    let rest = register id w registry in
    if bytes_eq name id then (name, v) ∷ registry else (name, v) ∷ rest
