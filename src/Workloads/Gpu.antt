-- ===== src/Workloads/Gpu.antt =====
-- The logistic regression of gpucc-vfhe/workloads/logistic_regression.cpp, on the GPU. FIDESlib is a
-- parameter: its context, its copies of ciphertexts, and its sums by a cascade of rotations.
pub mod Keys
pub mod Training
pub mod Agreement
use khipu_v_fhe.Prelude.{
  ℕ, zero, suc, ◌+◌, ◌-◌, ◌*◌, ◌/◌, ◌%◌, ◌≡◌, List, [], ◌∷◌, ◌++◌, Bool, true, false, ◌&&◌, Outcome,
  ok, throw, fault, ◌>>=◌, text, length, replicate, ltb, leb, ◌==◌, if◌then◌else◌, Option, none,
  some,
}
use khipu_v_fhe.Attestation.{to_string}
use khipu_v_fhe.Workloads.{Scalars, Rotation, left, right, Ckks}
use khipu_v_fhe.Workloads.Slots.{same_rotation}
use khipu_v_fhe.Workloads.Logistic.{FlexCkks, Coefficients, at_index}

-- The signed index of least size for a rotation by `idx` slots of 32768. The indices are not negative.
unfoldable pub reduce_rotation : ℕ → Rotation
reduce_rotation idx =
    let r = (idx % 32768 + 32768) % 32768 in if ltb (32768 / 2) r then right (32768 - r) else left r

-- `for (idx = stride * s; idx < stride * size && idx < 4 * stride * s; idx += stride * s)`: after three
-- rounds the index has reached the second bound.
unfoldable pub emit_step : ℕ → ℕ → ℕ → ℕ → ℕ → List Rotation
emit_step stride size s zero idx = []
emit_step stride size s (suc rounds) idx =
    let rest = emit_step stride size s rounds (idx + stride * s) in
    if ltb idx (stride * size) then reduce_rotation idx ∷ rest else []

-- `for (s = start_factor; s < size; s <<= 2)`: an `int` is passed after 16 rounds from 1 on.
unfoldable pub emit_from : ℕ → ℕ → ℕ → ℕ → Outcome (List Rotation)
emit_from stride size zero s = fault
emit_from stride size (suc fuel) s =
    if ltb s size
    then (emit_from stride size fuel (4 * s) >>= λ rest.
        ok (emit_step stride size s 3 (stride * s) ++ rest))
    else ok []

unfoldable pub emit_accumulate_indices : ℕ → ℕ → Outcome (List Rotation)
emit_accumulate_indices stride size = emit_from stride size 17 1

unfoldable pub emit_accumulate_cascade_indices : ℕ → ℕ → ℕ → Outcome (List Rotation)
emit_accumulate_cascade_indices stride size start_factor = emit_from stride size 17 start_factor

-- `a <= b` for `int32_t`.
abbrev pub rotation_leb : Rotation → Rotation → Bool
rotation_leb (left a) (left b) = leb a b
rotation_leb (left a) (right b) = a == 0 && b == 0
rotation_leb (right a) (left b) = true
rotation_leb (right a) (right b) = leb b a

-- `std::sort`.
abbrev pub insert_rotation : Rotation → List Rotation → List Rotation
insert_rotation r [] = r ∷ []
insert_rotation r (q ∷ qs) =
    let rest = insert_rotation r qs in if rotation_leb r q then r ∷ q ∷ qs else q ∷ rest

abbrev pub sort : List Rotation → List Rotation
sort [] = []
sort (r ∷ rs) = insert_rotation r (sort rs)

-- `std::unique` with `erase`.
abbrev pub unique_after : Rotation → List Rotation → List Rotation
unique_after r [] = r ∷ []
unique_after r (q ∷ qs) =
    let rest = unique_after q qs in if same_rotation r q then rest else r ∷ rest

abbrev pub unique : List Rotation → List Rotation
unique [] = []
unique (r ∷ rs) = unique_after r rs

-- What FIDESlib asks for at a bootstrap and OpenFHE does not generate.
abbrev pub bootstrap_indices : List Rotation
bootstrap_indices =
    left 3
    ∷ left 5
    ∷ left 6
    ∷ left 7
    ∷ left 9
    ∷ left 10
    ∷ left 11
    ∷ left 12
    ∷ left 13
    ∷ left 14
    ∷ left 15
    ∷ left 257
    ∷ []

unfoldable pub logreg_rotation_indices : Outcome (List Rotation)
logreg_rotation_indices = do
  rows ← emit_accumulate_indices 1 256
  spread ← emit_accumulate_indices 32767 256
  columns ← emit_accumulate_cascade_indices 1 32768 256
  ok (unique (sort (rows ++ (spread ++ (columns ++ bootstrap_indices)))))

-- FIDESlib beside a context `C` of OpenFHE. `load_context` stands for the set-up of the context on the
-- GPU with the keys of these rotations; its operations are named like those of OpenFHE.
pub record Fideslib {A : Scalars} (C : FlexCkks A) : Type 1 where
  pub PublicKey : Type 0
  pub GpuContext : Type 0
  pub load_context : PublicKey → List Rotation → Outcome GpuContext
  pub flex : GpuContext → FlexCkks A
  pub accumulate_sum :
      (g : GpuContext) → (flex g).base.Ciphertext → ℕ → ℕ → Outcome (flex g).base.Ciphertext
  pub accumulate_sum_from :
      (g : GpuContext) → (flex g).base.Ciphertext → ℕ → ℕ → ℕ → Outcome (flex g).base.Ciphertext
  pub load_ciphertext : (g : GpuContext) → C.base.Ciphertext → Outcome (flex g).base.Ciphertext
  pub encrypt_zeros : PublicKey → Outcome C.base.Ciphertext
  pub sync_ciphertext_to_cpu :
      (g : GpuContext)
      → (flex g).base.Ciphertext
      → Option C.base.Ciphertext
      → Outcome C.base.Ciphertext

abbrev pub no_public_key : List ℕ
no_public_key =
    text "create_gpu_context: client public key not set (call set_client_public_key first)"

module _ {A : Scalars} {C : FlexCkks A} (F : Fideslib C) where
  open F use {
    PublicKey, GpuContext, load_context, flex, accumulate_sum, accumulate_sum_from, load_ciphertext,
    encrypt_zeros, sync_ciphertext_to_cpu,
  }

  unfoldable pub create_gpu_context : Option PublicKey → Outcome GpuContext
  create_gpu_context none = throw no_public_key
  create_gpu_context (some pk) = do
    rotation_indexes ← logreg_rotation_indices
    load_context pk rotation_indexes

  -- A fresh ciphertext is installed for the result before it is copied; without a key it is copied into
  -- the one that the input came from.
  unfoldable pub gpu_to_openfhe :
      (g : GpuContext) → Option PublicKey → (flex g).base.Ciphertext → Outcome C.base.Ciphertext
  gpu_to_openfhe g none gpu_ct = sync_ciphertext_to_cpu g gpu_ct none
  gpu_to_openfhe g (some pk) gpu_ct = do
    tmpl_ct ← encrypt_zeros pk
    sync_ciphertext_to_cpu g gpu_ct (some tmpl_ct)

  module _ (k : Coefficients A) (g : GpuContext) where
    open (flex g) use {make_repeated_plaintext, eval_square, eval_mult_const, eval_sub}
    open (flex g).base use {
      Ciphertext, Plaintext, eval_add, eval_add_plain, eval_mult, eval_mult_plain,
    }

    unfoldable pub gpu_row_accumulate : Ciphertext → Outcome Ciphertext
    gpu_row_accumulate ct = accumulate_sum g ct 256 1

    unfoldable pub gpu_row_propagate : Ciphertext → Outcome Ciphertext
    gpu_row_propagate ct = accumulate_sum g ct 256 32767

    unfoldable pub gpu_col_accumulate : Ciphertext → Outcome Ciphertext
    gpu_col_accumulate ct = accumulate_sum_from g ct 32768 1 256

    -- A coefficient in slot 0 of each row.
    abbrev pub gpu_mask : A.Scalar → Plaintext
    gpu_mask c = make_repeated_plaintext (c ∷ replicate 255 A.zero_s) 256

    unfoldable pub activation_gpu : Ciphertext → Outcome Ciphertext
    activation_gpu ct = do
      square ← eval_square ct
      aux ← eval_mult_plain ct (gpu_mask k.cubic_c)
      ct3 ← eval_mult square aux
      linear ← eval_mult_plain ct (gpu_mask k.linear_c)
      both ← eval_add linear ct3
      eval_add_plain both (gpu_mask k.constant_c)

    -- Forward: the rows of the data times the weights.
    unfoldable pub gpu_score : Ciphertext → Ciphertext → Outcome Ciphertext
    gpu_score data_ct weights = do product ← eval_mult data_ct weights; gpu_row_accumulate product

    unfoldable pub gpu_residual : Ciphertext → Ciphertext → Outcome Ciphertext
    gpu_residual rows labels = do
      active ← activation_gpu rows
      error ← eval_sub active labels
      gpu_row_propagate error

    -- The data is a copy, so that scaling it in place leaves the input as it is.
    unfoldable pub gpu_gradient : ℕ → Ciphertext → Ciphertext → Outcome Ciphertext
    gpu_gradient iter data_ct error = do
      data_scaled ← eval_mult_const data_ct (k.scale iter)
      product ← eval_mult error data_scaled
      gpu_col_accumulate product

    -- The body of the loop: the new weights.
    unfoldable pub gpu_iteration : ℕ → Ciphertext → Ciphertext → Ciphertext → Outcome Ciphertext
    gpu_iteration iter data_ct labels weights = do
      rows ← gpu_score data_ct weights
      error ← gpu_residual rows labels
      columns ← gpu_gradient iter data_ct error
      eval_sub weights columns

    unfoldable pub gpu_descend : List Ciphertext → ℕ → ℕ → Ciphertext → Outcome Ciphertext
    gpu_descend gpu_inputs zero iter weights = ok weights
    gpu_descend gpu_inputs (suc n) iter weights = at_index (flex g) k gpu_inputs iter (λ data_ct.
        at_index (flex g) k gpu_inputs (10 + iter) (λ labels.
          gpu_iteration iter data_ct labels weights >>= λ weights'.
          gpu_descend gpu_inputs n (suc iter) weights'))

  unfoldable pub upload :
      (g : GpuContext) → List C.base.Ciphertext → Outcome (List (flex g).base.Ciphertext)
  upload g [] = ok []
  upload g (ct ∷ cts) = do gpu_ct ← load_ciphertext g ct; rest ← upload g cts; ok (gpu_ct ∷ rest)

  unfoldable pub gpu_logistic_eval :
      Coefficients A → Option PublicKey → List C.base.Ciphertext → Outcome C.base.Ciphertext
  gpu_logistic_eval k pk inputs =
      if length inputs == 21
      then (do
        g ← create_gpu_context pk
        gpu_inputs ← upload g inputs
        weights ← at_index (flex g) k gpu_inputs 20 (gpu_descend k g gpu_inputs 2 0)
        gpu_to_openfhe g pk weights)
      else throw (
          text "logistic-regression requires "
          ++ (to_string 21 ++ (text " inputs, got " ++ to_string (length inputs))))
