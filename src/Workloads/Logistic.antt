-- ===== src/Workloads/Logistic.antt =====
-- The logistic regression of tee-vfhe/workloads/logistic_regression.cpp: two steps of a gradient
-- descent on 128 rows of 256 columns. Its context rescales by itself.
pub mod Steps
pub mod Descent
use khipu_v_fhe.Prelude.{
  ℕ, zero, suc, ◌+◌, ◌%◌, ◌<◌, ◌≡◌, min, List, [], ◌∷◌, Bool, Outcome, ok, throw, fault, ◌>>=◌,
  text, length, replicate, ◌==◌, if◌then◌else◌, Option, none, some, take, drop,
}
use khipu_v_fhe.Attestation.{to_string}
use khipu_v_fhe.Workloads.{Scalars, Rotation, Ckks, row_accumulate, row_propagate, col_accumulate}
use khipu_v_fhe.Workloads.Sums.{entry_at}
use khipu_v_fhe.Workloads.Slots.{Interpretation, Gives, IsRotating}

-- The further operations of a context with automatic rescaling; a packed plaintext of `slots` entries
-- repeats over the ciphertext.
pub record FlexCkks (A : Scalars) : Type 1 where
  pub base : Ckks A
  pub make_repeated_plaintext : List A.Scalar → ℕ → base.Plaintext
  pub eval_square : base.Ciphertext → Outcome base.Ciphertext
  pub eval_mult_const : base.Ciphertext → A.Scalar → Outcome base.Ciphertext
  pub eval_sub : base.Ciphertext → base.Ciphertext → Outcome base.Ciphertext
  pub relinearize : base.Ciphertext → Outcome base.Ciphertext

-- The three coefficients of the activation, and `max(10 / (iter + 1), 0.005) / kRows`.
pub record Coefficients (A : Scalars) : Type 0 where
  pub constant_c : A.Scalar
  pub linear_c : A.Scalar
  pub cubic_c : A.Scalar
  pub scale : ℕ → A.Scalar

module _ {A : Scalars} (C : FlexCkks A) (k : Coefficients A) where
  open C use {make_repeated_plaintext, eval_square, eval_mult_const, eval_sub, relinearize}
  open C.base use {Ciphertext, Plaintext, eval_add, eval_add_plain, eval_mult, eval_mult_plain}

  -- A coefficient in slot 0 of each row.
  abbrev pub mask : A.Scalar → Plaintext
  mask c = make_repeated_plaintext (c ∷ replicate 255 A.zero_s) 256

  unfoldable pub masked_activation : Ciphertext → Outcome Ciphertext
  masked_activation ct = do
    square ← eval_square ct
    aux ← eval_mult_plain ct (mask k.cubic_c)
    ct3 ← eval_mult square aux
    linear ← eval_mult_plain ct (mask k.linear_c)
    both ← eval_add linear ct3
    eval_add_plain both (mask k.constant_c)

  -- Forward: the products of a row with the weights, summed into its first slot.
  unfoldable pub score : Ciphertext → Ciphertext → Outcome Ciphertext
  score data_ct weights = do
    product ← eval_mult data_ct weights
    relinearized ← relinearize product
    row_accumulate C.base relinearized

  -- The activation less the labels, spread over the rows.
  unfoldable pub residual : Ciphertext → Ciphertext → Outcome Ciphertext
  residual rows labels = do
    active ← masked_activation rows
    error ← eval_sub active labels
    row_propagate C.base error

  -- Backward: the error times the scaled data, summed over the rows.
  unfoldable pub gradient : ℕ → Ciphertext → Ciphertext → Outcome Ciphertext
  gradient iter data_ct error = do
    data_scaled ← eval_mult_const data_ct (k.scale iter)
    product ← eval_mult error data_scaled
    relinearized ← relinearize product
    col_accumulate C.base relinearized

  -- One iteration: the new weights.
  unfoldable pub iteration : ℕ → Ciphertext → Ciphertext → Ciphertext → Outcome Ciphertext
  iteration iter data_ct labels weights = do
    rows ← score data_ct weights
    error ← residual rows labels
    columns ← gradient iter data_ct error
    eval_sub weights columns

  abbrev pub at_index : List Ciphertext → ℕ → (Ciphertext → Outcome Ciphertext) → Outcome Ciphertext
  at_index [] i next = fault
  at_index (x ∷ xs) zero next = next x
  at_index (x ∷ xs) (suc i) next = at_index xs i next

  -- The iterations from `iter` on.
  unfoldable pub descend : List Ciphertext → ℕ → ℕ → Ciphertext → Outcome Ciphertext
  descend inputs zero iter weights = ok weights
  descend inputs (suc n) iter weights = at_index inputs iter (λ data_ct.
      at_index inputs (10 + iter) (λ labels.
        iteration iter data_ct labels weights >>= λ weights'. descend inputs n (suc iter) weights'))

  unfoldable pub logistic_eval : List Ciphertext → Outcome Ciphertext
  logistic_eval inputs =
      if length inputs == 21
      then at_index inputs 20 (λ weights. descend inputs 2 0 weights)
      else throw (text "logistic-regression workload requires exactly 21 inputs")

module _ {A : Scalars} (C : FlexCkks A) (I : Interpretation C.base) (n : ℕ)
    (rotations : List Rotation) where
  open A use {Scalar, add, mul, sub}
  open C use {make_repeated_plaintext, eval_square, eval_mult_const, eval_sub, relinearize}
  open C.base use {Ciphertext, Plaintext, eval_add, eval_add_plain, eval_mult, eval_mult_plain}
  open I use {value, level, entry}

  -- The documented behaviour: operands are brought to one level, and each multiplication uses one up.
  pub record IsFlex : Type 0 where
    pub rotating : IsRotating C.base I n rotations
    pub repeated :
        (v : List Scalar) (i : ℕ)
        → i < n
        → entry (make_repeated_plaintext v (length v)) i ≡ entry_at A v (i % length v)
    pub adds :
        (x y : Ciphertext)
        → Gives C.base I n
            (eval_add x y)
            (min (level x) (level y))
            (λ i. add (value x i) (value y i))
    pub subs :
        (x y : Ciphertext)
        → Gives C.base I n
            (eval_sub x y)
            (min (level x) (level y))
            (λ i. sub (value x i) (value y i))
    pub adds_plain :
        (x : Ciphertext) (p : Plaintext)
        → Gives C.base I n (eval_add_plain x p) (level x) (λ i. add (value x i) (entry p i))
    pub mults :
        (x y : Ciphertext) (l : ℕ)
        → min (level x) (level y) ≡ suc l
        → Gives C.base I n (eval_mult x y) l (λ i. mul (value x i) (value y i))
    pub mults_plain :
        (x : Ciphertext) (p : Plaintext) (l : ℕ)
        → level x ≡ suc l
        → Gives C.base I n (eval_mult_plain x p) l (λ i. mul (value x i) (entry p i))
    pub mults_const :
        (x : Ciphertext) (c : Scalar) (l : ℕ)
        → level x ≡ suc l
        → Gives C.base I n (eval_mult_const x c) l (λ i. mul (value x i) c)
    pub squares :
        (x : Ciphertext) (l : ℕ)
        → level x ≡ suc l
        → Gives C.base I n (eval_square x) l (λ i. mul (value x i) (value x i))
    pub relinearizes : (x : Ciphertext) → Gives C.base I n (relinearize x) (level x) (value x)
