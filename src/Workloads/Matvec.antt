-- ===== src/Workloads/Matvec.antt =====
-- The diagonal method computes the product of a matrix and a vector.
use khipu_v_fhe.Prelude.{
  ℕ, zero, suc, ◌+◌, ◌%◌, ◌<◌, ◌≡◌, refl, sym, ap, ◌∙◌, arith, List, [], ◌∷◌, true, subst, ok,
  ◌>>=◌, none, some,
}
use khipu_v_fhe.Workloads.{
  Scalars, Rotation, left, Ckks, diagonal_loop, rescale_sum, square_diag, medium_eval,
  app_matvec_eval, medium_rotations, app_matvec_rotations,
}
use khipu_v_fhe.Workloads.Sums.{IsScalars, sum, sum_rotated}
use khipu_v_fhe.Workloads.Slots.{
  has_rotation, has_range, Interpretation, Gives, IsCkks, Gives-ext, length-map-range,
  entry_at-range,
}

module _ {A : Scalars} (C : Ckks A) (I : Interpretation C) (n : ℕ) (rotations : List Rotation)
    (L : IsScalars A) (K : IsCkks C I n rotations) where
  open A use {Scalar, zero_s, add, mul}
  open C use {Ciphertext, eval_rotate, eval_mult_plain, make_packed_plaintext}
  open I use {value, level, entry}

  module _ (diag : ℕ → List Scalar) (entries : ℕ → ℕ → Scalar) (x : Ciphertext) (l : ℕ)
      (reads : (d i : ℕ) → d < n → i < n → entry (make_packed_plaintext (diag d)) i ≡ entries d i)
      (keys : (d : ℕ) → d < n → has_rotation rotations (left d) ≡ true)
      (levels : level x ≡ suc l) where
    -- The term of one diagonal.
    abbrev term : ℕ → ℕ → Scalar
    term d i = mul (value x ((i + d) % n)) (entries d i)

    round :
        (d : ℕ)
        → d < n
        → (r : Ciphertext) × (t : Ciphertext) × (eval_rotate x (left d) ≡ ok r)
          × (eval_mult_plain r (make_packed_plaintext (diag d)) ≡ ok t)
          × (level t ≡ suc l)
          × ((i : ℕ) → i < n → value t i ≡ term d i)
    round d h =
        let rotated = K.rotate_left x d (keys d h) in
        let r = rotated.ct in
        let product =
          K.mults_plain r (make_packed_plaintext (diag d)) l (rotated.level_eq ∙ levels) in
        (
          r,
          product.ct,
          rotated.returned,
          product.returned,
          product.level_eq,
          λ i hi.
              product.value_eq i hi
              ∙ ap (λ v. mul v (entry (make_packed_plaintext (diag d)) i)) (rotated.value_eq i hi)
              ∙ ap (mul (value x ((i + d) % n))) (reads d i h hi),
        )

    -- From a sum over the diagonals before `d` on.
    loop-Gives :
        (k d : ℕ) (acc : Ciphertext)
        → d + k ≡ n
        → level acc ≡ suc l
        → ((i : ℕ) → i < n → value acc i ≡ sum A d (λ e. term e i))
        → Gives C I n
            (diagonal_loop C diag x k d (some acc) >>= rescale_sum C)
            l
            (λ i. sum A n (λ e. term e i))
    unfolding diagonal_loop
    loop-Gives zero d acc all at_level values =
        Gives-ext C I n (K.rescales acc l at_level) refl
          (λ i hi. values i hi ∙ ap (λ m. sum A m (λ e. term e i)) (omega arith))
    loop-Gives (suc k) d acc all at_level values =
        let (r, t, rotated, multiplied, t_level, t_values) = round d (omega arith) in
        let total = K.adds acc t (at_level ∙ sym t_level) in
        rw (rotated, multiplied, total.returned)
          (loop-Gives k (suc d) total.ct (omega arith) (total.level_eq ∙ at_level) (λ i hi.
            total.value_eq i hi
            ∙ ap (λ v. add v (value t i)) (values i hi)
            ∙ ap (add (sum A d (λ e. term e i))) (t_values i hi)))

    -- All rounds.
    product-Gives :
        zero < n
        → Gives C I n
            (diagonal_loop C diag x n 0 none >>= rescale_sum C)
            l
            (λ i. sum A n (λ e. term e i))
    unfolding diagonal_loop
    product-Gives h = whole n refl h
      where
        whole :
            (k : ℕ)
            → k ≡ n
            → zero < k
            → Gives C I n
                (diagonal_loop C diag x k 0 none >>= rescale_sum C)
                l
                (λ i. sum A n (λ e. term e i))
        whole zero e h = absurd (omega arith)
        whole (suc k) e h =
            let (r, t, rotated, multiplied, t_level, t_values) = round 0 (omega arith) in
            rw (rotated, multiplied)
              (loop-Gives k 1 t (omega arith) t_level
                (λ i hi. t_values i hi ∙ sym (L.zero_add (term 0 i))))

  -- A square matrix by its diagonals.
  module _ (W : ℕ → ℕ → Scalar) (x : Ciphertext) (l : ℕ) where
    pub square-Gives :
        zero < n
        → ((d : ℕ) → d < n → has_rotation rotations (left d) ≡ true)
        → level x ≡ suc l
        → Gives C I n
            (diagonal_loop C (square_diag C n W) x n 0 none >>= rescale_sum C)
            l
            (λ i. sum A n (λ j. mul (value x j) (W i j)))
    square-Gives h keys levels =
        let reads : (d i : ℕ)
            → d < n
            → i < n
            → entry (make_packed_plaintext (square_diag C n W d)) i ≡ W i ((i + d) % n) =
          λ d i hd hi.
            K.packed (square_diag C n W d) i
              (subst (λ m. i < m) (sym (length-map-range A (λ i. W i ((i + d) % n)) n 0)) hi)
            ∙ entry_at-range A (λ i. W i ((i + d) % n)) n 0 i hi
            ∙ ap (λ i. W i ((i + d) % n)) (omega arith) in
        Gives-ext C I n
          (product-Gives (square_diag C n W) (λ d i. W i ((i + d) % n)) x l reads keys levels h)
          refl (λ i hi. sum_rotated A L n i (λ j. mul (value x j) (W i j)))

module _ {A : Scalars} (C : Ckks A) (I : Interpretation C) (L : IsScalars A) where
  open A use {Scalar, mul}
  open C use {Ciphertext}
  open I use {value, level}

  -- With the keys that its `gen_keys` makes and a level to spare, the workload `medium` returns one
  -- ciphertext whose 64 slots are the product of the matrix and the vector in the input's slots.
  pub medium_eval-Gives :
      IsCkks C I 64 medium_rotations
      → (W : ℕ → ℕ → Scalar) (x : Ciphertext) (l : ℕ) → level x ≡ suc l
      → Gives C I 64 (medium_eval C W (x ∷ [])) l (λ i. sum A 64 (λ j. mul (value x j) (W i j)))
  unfolding medium_eval medium_rotations
  medium_eval-Gives K W x l levels =
      square-Gives C I 64 medium_rotations L K W x l (omega arith)
        (λ d h. has_range 64 0 d (omega arith) (omega arith)) levels

  -- The same for `app_matvec` with 256 slots.
  pub app_matvec_eval-Gives :
      IsCkks C I 256 app_matvec_rotations
      → (M : ℕ → ℕ → Scalar) (x : Ciphertext) (l : ℕ) → level x ≡ suc l
      → Gives C I 256
          (app_matvec_eval C M (x ∷ []))
          l
          (λ i. sum A 256 (λ j. mul (value x j) (M i j)))
  unfolding app_matvec_eval app_matvec_rotations
  app_matvec_eval-Gives K M x l levels =
      square-Gives C I 256 app_matvec_rotations L K M x l (omega arith)
        (λ d h. has_range 256 0 d (omega arith) (omega arith)) levels
