-- ===== src/Examples/Regressions.antt =====
-- A run of the logistic regression in the clear, with the CKKS of Examples.Circuits and automatic
-- rescaling.
use khipu_v_fhe.Prelude.{
  ℕ, zero, suc, ◌+◌, ◌-◌, ◌*◌, ◌/◌, ◌%◌, ◌≡◌, ◌≤◌, refl, ap, ◌∙◌, ◌<◌, arith, min, List, [], ◌∷◌,
  ◌++◌, replicate, ok, some,
}
use native.Mathlib.Nat.{mul-div_cancel}
use khipu_v_fhe.Workloads.{Rotation, Ckks, logistic_rotations}
use khipu_v_fhe.Workloads.Sums.{sum, entry_at}
use khipu_v_fhe.Workloads.Slots.{Interpretation, IsRotating, Gives}
use khipu_v_fhe.Workloads.Logistic.{FlexCkks, Coefficients, logistic_eval, IsFlex}
use khipu_v_fhe.Workloads.Logistic.Steps.{descent_step}
use khipu_v_fhe.Workloads.Logistic.Descent.{IsBatch, logistic_eval-Gives}
use khipu_v_fhe.Workloads.Gpu.{
  Fideslib, reduce_rotation, emit_accumulate_cascade_indices, gpu_logistic_eval,
}
use khipu_v_fhe.Workloads.Gpu.Keys.{
  gpu_rotations, reduce_rotation_lem, source_slot, width, emit_accumulate_cascade_indices_total,
}
use khipu_v_fhe.Workloads.Gpu.Training.{IsLoaded}
use khipu_v_fhe.Workloads.Gpu.Agreement.{gpu_logistic_eval-logistic_eval}
use khipu_v_fhe.Examples.Circuits.{numbers, numbers-IsScalars, Clear, lower, clear_ckks, counting}

abbrev pub flex_base : ℕ → Ckks numbers
flex_base n = record (clear_ckks n) {
  eval_add = λ x y.
      ok
        (record { values = λ i. x.values i + y.values i; left_over = min x.left_over y.left_over });
  eval_mult = λ x y. lower (λ i. x.values i * y.values i) (min x.left_over y.left_over);
  eval_mult_plain = λ x p. lower (λ i. x.values i * p i) x.left_over;
}

abbrev pub flex : ℕ → FlexCkks numbers
flex n = record {
  base = flex_base n;
  make_repeated_plaintext = λ v s i. entry_at numbers v (i % s);
  eval_square = λ x. lower (λ i. x.values i * x.values i) x.left_over;
  eval_mult_const = λ x c. lower (λ i. x.values i * c) x.left_over;
  eval_sub = λ x y.
      ok
        (record { values = λ i. x.values i - y.values i; left_over = min x.left_over y.left_over });
  relinearize = ok;
}

abbrev pub flex_reading : (n : ℕ) → Interpretation (flex_base n)
flex_reading n = record { value = λ x. x.values; level = λ x. x.left_over; entry = λ p. p }

flex_lowered :
    (n : ℕ) (v : ℕ → ℕ) (m l : ℕ)
    → m ≡ suc l
    → Gives (flex_base n) (flex_reading n) n (lower v m) l v
flex_lowered n v zero l h = absurd (omega arith)
flex_lowered n v (suc m) l h = record {
  ct = record { values = v; left_over = m };
  returned = refl;
  level_eq = omega arith;
  value_eq = λ i hi. refl;
}

flex-IsRotating :
    (n : ℕ) (rotations : List Rotation) → IsRotating (flex_base n) (flex_reading n) n rotations
flex-IsRotating n rotations = record {
  rotate_left =
      λ x d h. record { ct = _; returned = refl; level_eq = refl; value_eq = λ i hi. refl };
  rotate_right =
      λ x d h. record { ct = _; returned = refl; level_eq = refl; value_eq = λ i hi. refl };
  adds = λ x y h. record {
    ct = _;
    returned = refl;
    level_eq = omega (arith, h);
    value_eq = λ i hi. refl;
  };
}

pub flex-IsFlex : (n : ℕ) (rotations : List Rotation) → IsFlex (flex n) (flex_reading n) n rotations
flex-IsFlex n rotations = record {
  rotating = flex-IsRotating n rotations;
  repeated = λ v i h. refl;
  adds = λ x y. record { ct = _; returned = refl; level_eq = refl; value_eq = λ i hi. refl };
  subs = λ x y. record { ct = _; returned = refl; level_eq = refl; value_eq = λ i hi. refl };
  adds_plain = λ x p. record { ct = _; returned = refl; level_eq = refl; value_eq = λ i hi. refl };
  mults =
      λ x y l h. flex_lowered n (λ i. x.values i * y.values i) (min x.left_over y.left_over) l h;
  mults_plain = λ x p l h. flex_lowered n (λ i. x.values i * p i) x.left_over l h;
  mults_const = λ x c l h. flex_lowered n (λ i. x.values i * c) x.left_over l h;
  squares = λ x l h. flex_lowered n (λ i. x.values i * x.values i) x.left_over l h;
  relinearizes = λ x. record { ct = x; returned = refl; level_eq = refl; value_eq = λ i hi. refl };
}

abbrev pub whole : Coefficients numbers
whole = record { constant_c = 5; linear_c = 2; cubic_c = 1; scale = λ iter. iter + 1 }

abbrev no_labels : Clear
no_labels = record { values = λ i. 0; left_over = 9 }

abbrev batches : List Clear
batches = replicate 10 (counting 9) ++ (replicate 10 no_labels ++ (counting 9 ∷ []))

sample-IsBatch :
    (m : ℕ) → m ≤ 9 → IsBatch (flex 32768) (flex_reading 32768) m (counting 9) no_labels
sample-IsBatch m h = record { data_level = h; labels_level = h; only_heads = λ i hi ne. refl }

logistic_eval-Gives_example :
    Gives
      (flex_base 32768)
      (flex_reading 32768)
      32768
      (logistic_eval (flex 32768) whole batches)
      1
      (descent_step numbers whole 1
        (λ i. i)
        (λ i. 0)
        (descent_step numbers whole 0 (λ i. i) (λ i. 0) (λ i. i)))
logistic_eval-Gives_example =
    logistic_eval-Gives (flex 32768) whole (flex_reading 32768) numbers-IsScalars
      (flex-IsFlex 32768 logistic_rotations) batches 1 (counting 9) no_labels (counting 9) no_labels
      (counting 9) refl refl refl refl refl refl refl (sample-IsBatch 9 (omega arith))
      (sample-IsBatch 5 (omega arith))

-- A GPU that computes in the clear.
abbrev clear_gpu : Fideslib (flex 32768)
clear_gpu = record {
  PublicKey = ℕ;
  GpuContext = Unit {0};
  load_context = λ pk rotations. ok tt;
  flex = λ g. flex 32768;
  accumulate_sum = λ g x size stride. ok (record {
    values = λ i. sum numbers size (λ t. x.values ((i + t * stride) % 32768));
    left_over = x.left_over;
  });
  accumulate_sum_from = λ g x size stride start. ok (record {
    values = λ i. sum numbers (size / start) (λ t. x.values ((i + t * start * stride) % 32768));
    left_over = x.left_over;
  });
  load_ciphertext = λ g c. ok c;
  encrypt_zeros = λ pk. ok no_labels;
  sync_ciphertext_to_cpu = λ g x tmpl_ct. ok x;
}

clear_gpu-IsLoaded : IsLoaded clear_gpu (flex_reading 32768) 5 tt (flex_reading 32768) gpu_rotations
clear_gpu-IsLoaded = record {
  flexible = flex-IsFlex 32768 gpu_rotations;
  accumulates = λ x e size stride needed h emitted keys. record {
    ct = _;
    returned = refl;
    level_eq = refl;
    value_eq = λ i hi. refl;
  };
  accumulates_from = λ x e size stride start terms needed h0 h h' emitted keys. record {
    ct = _;
    returned = refl;
    level_eq = refl;
    value_eq = λ i hi.
        ap (λ m. sum numbers m (λ t. x.values ((i + t * start * stride) % 32768)))
          (ap (λ m. m / start) h' ∙ mul-div_cancel terms h0);
  };
  loads = λ c. (c, refl, record { level_eq = refl; value_eq = λ i hi. refl });
  syncs =
      λ x tmpl_ct h. record { ct = x; returned = refl; level_eq = refl; value_eq = λ i hi. refl };
}

gpu_logistic_eval-logistic_eval_example :
    (on_gpu on_cpu : Clear) × (gpu_logistic_eval clear_gpu whole (some 5) batches ≡ ok on_gpu)
    × (logistic_eval (flex 32768) whole batches ≡ ok on_cpu)
    × (on_gpu.left_over ≡ on_cpu.left_over)
    × ((i : ℕ) → i < 32768 → on_gpu.values i ≡ on_cpu.values i)
gpu_logistic_eval-logistic_eval_example =
    gpu_logistic_eval-logistic_eval clear_gpu (flex_reading 32768) numbers-IsScalars 5 tt
      (flex_reading 32768) clear_gpu-IsLoaded whole batches 1 (counting 9) no_labels (counting 9)
      no_labels (counting 9) no_labels (flex-IsFlex 32768 logistic_rotations) refl refl refl refl
      refl refl refl refl refl (sample-IsBatch 9 (omega arith)) (sample-IsBatch 5 (omega arith))

reduce_rotation_lem_example :
    (source_slot 5 (reduce_rotation 32767) ≡ (5 + 32767) % 32768)
    × (width (reduce_rotation 32767) ≤ 16384)
reduce_rotation_lem_example = reduce_rotation_lem 32767 5 (omega arith)

emit_accumulate_cascade_indices_total_example :
    (rs : List Rotation) × (emit_accumulate_cascade_indices 1 32768 256 ≡ ok rs)
emit_accumulate_cascade_indices_total_example =
    emit_accumulate_cascade_indices_total 1 32768 256 (omega arith) (omega arith)
