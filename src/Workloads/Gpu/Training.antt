-- ===== src/Workloads/Gpu/Training.antt =====
-- The training on the GPU is the gradient descent of the training on the CPU.
use khipu_v_fhe.Prelude.{
  ℕ, suc, ◌+◌, ◌*◌, ◌/◌, ◌%◌, ◌^◌, ◌≤◌, ◌<◌, ◌≡◌, ◌≢◌, refl, ap, ◌∙◌, arith, List, true, ok, some,
}
use khipu_v_fhe.Workloads.{Scalars, Rotation}
use khipu_v_fhe.Workloads.Sums.{IsScalars, sum, sum_ext, sum_single, sum_rotated}
use khipu_v_fhe.Workloads.Slots.{Interpretation, Gives, Gives-ext}
use khipu_v_fhe.Workloads.Logistic.{FlexCkks, Coefficients, IsFlex, masked_activation}
use khipu_v_fhe.Workloads.Logistic.Steps.{AreSums, descent_step, round-Gives}
use khipu_v_fhe.Workloads.Gpu.{
  Fideslib, emit_accumulate_indices, emit_accumulate_cascade_indices, gpu_row_accumulate,
  gpu_row_propagate, gpu_col_accumulate, activation_gpu, gpu_score, gpu_residual, gpu_gradient,
  gpu_iteration,
}
use khipu_v_fhe.Workloads.Gpu.Keys.{
  has_rotations, row_indices, row_indices_lem, spread_indices, spread_indices_lem, column_indices,
  column_indices_lem, gpu_rotations,
}

module _ {A : Scalars} {C : FlexCkks A} (F : Fideslib C) (I : Interpretation C.base) where
  open F use {
    PublicKey, GpuContext, flex, accumulate_sum, accumulate_sum_from, load_ciphertext,
    encrypt_zeros, sync_ciphertext_to_cpu,
  }

  -- A ciphertext on the GPU with the slots and the level of one of OpenFHE.
  pub record IsCopy (g : GpuContext) (J : Interpretation (flex g).base) (c : C.base.Ciphertext)
      (x : (flex g).base.Ciphertext) : Type 0 where
    pub level_eq : J.level x ≡ I.level c
    pub value_eq : (i : ℕ) → i < 32768 → J.value x i ≡ I.value c i

  -- The documented behaviour of a context on the GPU that was loaded with the keys of a client for these
  -- rotations. A sum over a power of two of terms wants the keys for the indices of its cascade, and a
  -- result is copied back into a fresh ciphertext of the client's key.
  pub record IsLoaded (pk : PublicKey) (g : GpuContext) (J : Interpretation (flex g).base)
      (rotations : List Rotation) : Type 0 where
    pub flexible : IsFlex (flex g) J 32768 rotations
    pub accumulates :
        (x : (flex g).base.Ciphertext) (e size stride : ℕ) (needed : List Rotation)
        → size ≡ 2 ^ e
        → emit_accumulate_indices stride size ≡ ok needed
        → has_rotations rotations needed ≡ true
        → Gives
            (flex g).base
            J
            32768
            (accumulate_sum g x size stride)
            (J.level x)
            (λ i. sum A size (λ t. J.value x ((i + t * stride) % 32768)))
    pub accumulates_from :
        (x : (flex g).base.Ciphertext) (e size stride start terms : ℕ) (needed : List Rotation)
        → 0 < start
        → terms ≡ 2 ^ e
        → size ≡ terms * start
        → emit_accumulate_cascade_indices stride size start ≡ ok needed
        → has_rotations rotations needed ≡ true
        → Gives
            (flex g).base
            J
            32768
            (accumulate_sum_from g x size stride start)
            (J.level x)
            (λ i. sum A terms (λ t. J.value x ((i + t * start * stride) % 32768)))
    pub loads :
        (c : C.base.Ciphertext)
        → (x : (flex g).base.Ciphertext) × (load_ciphertext g c ≡ ok x) × IsCopy g J c x
    pub syncs :
        (x : (flex g).base.Ciphertext) (tmpl_ct : C.base.Ciphertext)
        → encrypt_zeros pk ≡ ok tmpl_ct
        → Gives C.base I 32768 (sync_ciphertext_to_cpu g x (some tmpl_ct)) (J.level x) (J.value x)

module _ {A : Scalars} {C : FlexCkks A} (F : Fideslib C) (I : Interpretation C.base)
    (L : IsScalars A) (pk : F.PublicKey) (g : F.GpuContext) (J : Interpretation (F.flex g).base)
    (K : IsLoaded F I pk g J gpu_rotations) (k : Coefficients A) where
  open A use {Scalar, zero_s}
  open (F.flex g).base use {Ciphertext}
  open J use {value, level}

  gpu_row_accumulate-Gives :
      (x : Ciphertext)
      → Gives
          (F.flex g).base
          J
          32768
          (gpu_row_accumulate F k g x)
          (level x)
          (λ i. sum A 256 (λ t. value x ((i + t) % 32768)))
  unfolding gpu_row_accumulate
  gpu_row_accumulate-Gives x =
      Gives-ext (F.flex g).base J 32768
        (K.accumulates x 8 256 1 row_indices refl row_indices_lem refl) refl
        (λ i hi.
          sum_ext A L 256 (λ t. value x ((i + t * 1) % 32768)) (λ t. value x ((i + t) % 32768))
            (λ t ht. ap (value x) (omega arith)))

  gpu_row_propagate-Gives :
      (x : Ciphertext)
      → ((i : ℕ) → i < 32768 → i % 256 ≢ 0 → value x i ≡ zero_s)
      → Gives
          (F.flex g).base
          J
          32768
          (gpu_row_propagate F k g x)
          (level x)
          (λ i. value x (i / 256 * 256))
  unfolding gpu_row_propagate
  gpu_row_propagate-Gives x zeros =
      Gives-ext (F.flex g).base J 32768
        (K.accumulates x 8 256 32767 spread_indices refl spread_indices_lem refl) refl
        (λ i hi.
          sum_single A L 256 (i % 256) (λ t. value x ((i + t * 32767) % 32768))
            (λ t ht ne. zeros ((i + t * 32767) % 32768) (omega arith) (λ e. ne (omega arith)))
            (omega arith)
          ∙ ap (value x) (omega arith))

  gpu_col_accumulate-Gives :
      (x : Ciphertext)
      → Gives
          (F.flex g).base
          J
          32768
          (gpu_col_accumulate F k g x)
          (level x)
          (λ i. sum A 128 (λ r. value x (r * 256 + i % 256)))
  unfolding gpu_col_accumulate
  gpu_col_accumulate-Gives x =
      Gives-ext (F.flex g).base J 32768
        (K.accumulates_from x 7 32768 1 256 128 column_indices (omega arith) refl refl
          column_indices_lem refl)
        refl
        (λ i hi.
          sum_ext A L 128 (λ t. value x ((i + t * 256 * 1) % 32768))
            (λ t. value x ((i / 256 + t) % 128 * 256 + i % 256))
            (λ t ht. ap (value x) (omega arith))
          ∙ sum_rotated A L 128 (i / 256) (λ r. value x (r * 256 + i % 256)))

  cascades-AreSums :
      AreSums
        (F.flex g)
        J
        (gpu_row_accumulate F k g)
        (gpu_row_propagate F k g)
        (gpu_col_accumulate F k g)
  cascades-AreSums = record {
    over_rows = gpu_row_accumulate-Gives;
    spreads = gpu_row_propagate-Gives;
    over_columns = gpu_col_accumulate-Gives;
  }

  pub gpu_iteration-Gives :
      (iter l : ℕ) (data_ct labels weights : Ciphertext)
      → level weights ≡ suc (suc (suc (suc l)))
      → level weights ≤ level data_ct
      → level weights ≤ level labels
      → ((i : ℕ) → i < 32768 → i % 256 ≢ 0 → value labels i ≡ zero_s)
      → Gives
          (F.flex g).base
          J
          32768
          (gpu_iteration F k g iter data_ct labels weights)
          l
          (descent_step A k iter (value data_ct) (value labels) (value weights))
  unfolding gpu_iteration gpu_score gpu_residual gpu_gradient activation_gpu masked_activation
  gpu_iteration-Gives = round-Gives (F.flex g) k J L K.flexible _ _ _ cascades-AreSums
