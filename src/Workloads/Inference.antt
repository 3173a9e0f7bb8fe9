-- ===== src/Workloads/Inference.antt =====
-- The network of `app_inference` is evaluated as it is written down.
use khipu_v_fhe.Prelude.{
  ℕ, suc, ◌≤◌, ◌<◌, ◌≡◌, refl, sym, ap, ◌∙◌, subst, arith, [], ◌∷◌, map, false, ok, ltb, lt→ltb,
  ltb→lt, if◌then◌else◌, Bool-cases, inl, inr,
}
use khipu_v_fhe.Workloads.{
  Scalars, Ckks, range, embedded, diagonal_matvec, Mlp, bias, constant, activation,
  app_inference_eval, app_inference_rotations,
}
use khipu_v_fhe.Workloads.Sums.{IsScalars, sum, sum_ext, sum_cut, sum_zero}
use khipu_v_fhe.Workloads.Slots.{
  has_range, Interpretation, Gives, IsCkks, Gives-ext, length-map-range, entry_at-range,
}
use khipu_v_fhe.Workloads.Matvec.{square-Gives}

module _ (A : Scalars) where
  open A use {Scalar, zero_s, one_s, half_s, add, mul}

  -- `0.5 * t * (1 + t)`
  abbrev pub act : Scalar → Scalar
  act t = mul (mul t (add t one_s)) half_s

  -- A layer by its rows, with nothing in the slots behind them.
  abbrev pub layer : (ℕ → ℕ → Scalar) → (ℕ → Scalar) → ℕ → ℕ → (ℕ → Scalar) → ℕ → Scalar
  layer M b rows cols v i =
      if ltb i rows then add (sum A cols (λ j. mul (v j) (M i j))) (b i) else zero_s

module _ {A : Scalars} (C : Ckks A) where
  open A use {Scalar}

  -- The network as a function of its 128 inputs, `act` between the two layers.
  abbrev pub network : Mlp C → (ℕ → Scalar) → ℕ → Scalar
  network w v = layer A w.w2 w.b2 10 64 (λ j. act A (layer A w.w1 w.b1 64 128 v j))

module _ {A : Scalars} (C : Ckks A) (I : Interpretation C) (L : IsScalars A)
    (K : IsCkks C I 128 app_inference_rotations) where
  open A use {Scalar, zero_s, one_s, half_s, add, mul}
  open C use {Ciphertext, make_packed_plaintext, eval_add_plain}
  open I use {value, level, entry}

  -- A row of the embedded matrix ends where that of the matrix does.
  embedded-row :
      (M : ℕ → ℕ → Scalar) (rows cols : ℕ) (v : ℕ → Scalar) (i : ℕ)
      → cols ≤ 128
      → i < rows
      → sum A 128 (λ j. mul (v j) (embedded C M rows cols i j))
        ≡ sum A cols (λ j. mul (v j) (M i j))
  embedded-row M rows cols v i h hi =
      sum_cut A L cols 128 (λ j. mul (v j) (embedded C M rows cols i j))
        (λ j le. rw (lt→ltb i rows hi, ltb_false j cols le) (L.mul_zero (v j))) h
      ∙ sum_ext A L cols _ _ (λ j hj. rw (lt→ltb i rows hi, lt→ltb j cols hj) refl)
    where
      ltb_false : (a b : ℕ) → b ≤ a → ltb a b ≡ false
      ltb_false a b le = ground arith

  pub diagonal_matvec-Gives :
      (x : Ciphertext) (M : ℕ → ℕ → Scalar) (rows cols l : ℕ)
      → level x ≡ suc l
      → Gives C I 128
          (diagonal_matvec C x M rows cols)
          l
          (λ i. sum A 128 (λ j. mul (value x j) (embedded C M rows cols i j)))
  unfolding diagonal_matvec app_inference_rotations
  diagonal_matvec-Gives x M rows cols l levels =
      square-Gives C I 128 app_inference_rotations L K (embedded C M rows cols) x l (omega arith)
        (λ d h. has_range 128 0 d (omega arith) (omega arith)) levels

  -- A plaintext that is written entry by entry.
  entry-range :
      (f : ℕ → Scalar) (i : ℕ)
      → i < 128
      → entry (make_packed_plaintext (map f (range 128 0))) i ≡ f i
  entry-range f i h =
      K.packed (map f (range 128 0)) i (subst (λ m. i < m) (sym (length-map-range A f 128 0)) h)
      ∙ entry_at-range A f 128 0 i h
      ∙ ap f (omega arith)

  activation-Gives :
      (t : Ciphertext) (l : ℕ)
      → level t ≡ suc (suc l)
      → Gives C I 128 (activation C t) l (λ i. act A (value t i))
  unfolding activation
  activation-Gives t l levels =
      let one_plus = K.adds_plain t (make_packed_plaintext (constant C one_s)) in
      let product = K.mults t one_plus.ct (suc l) levels (one_plus.level_eq ∙ levels) in
      let scaled = K.rescales product.ct (suc l) product.level_eq in
      let halved =
        K.mults_plain scaled.ct (make_packed_plaintext (constant C half_s)) l scaled.level_eq in
      let last = K.rescales halved.ct l halved.level_eq in
      rw (one_plus.returned, product.returned, scaled.returned, halved.returned)
        (Gives-ext C I 128 last refl (λ i h.
          halved.value_eq i h
          ∙ ap (mul (value scaled.ct i)) (entry-range (λ i. half_s) i h)
          ∙ ap (λ v. mul v half_s)
              (scaled.value_eq i h
                ∙ product.value_eq i h
                ∙ ap (mul (value t i))
                    (one_plus.value_eq i h ∙ ap (add (value t i)) (entry-range (λ i. one_s) i h)))))

  layer_lem :
      (M : ℕ → ℕ → Scalar) (b : ℕ → Scalar) (rows cols : ℕ) (v : ℕ → Scalar) (i : ℕ)
      → cols ≤ 128
      → add
          (sum A 128 (λ j. mul (v j) (embedded C M rows cols i j)))
          (if ltb i rows then b i else zero_s)
        ≡ layer A M b rows cols v i
  layer_lem M b rows cols v i h = elim (Bool-cases (ltb i rows)) [
    | inl inside ↦
        ap (λ s. add s (if ltb i rows then b i else zero_s))
          (embedded-row M rows cols v i h (ltb→lt i rows inside))
        ∙ rw inside refl
    | inr behind ↦
        ap (λ s. add s (if ltb i rows then b i else zero_s))
          (sum_zero A L 128 (λ j. mul (v j) (embedded C M rows cols i j))
            (λ j hj. rw behind (L.mul_zero (v j))))
        ∙ rw behind (L.zero_add zero_s)
  ]

  layer-Gives :
      (x : Ciphertext) (M : ℕ → ℕ → Scalar) (b : ℕ → Scalar) (rows cols l : ℕ)
      → level x ≡ suc l
      → cols ≤ 128
      → (t : Ciphertext) × (t' : Ciphertext) × (diagonal_matvec C x M rows cols ≡ ok t)
        × (eval_add_plain t (make_packed_plaintext (bias C rows b)) ≡ ok t')
        × (level t' ≡ l)
        × ((i : ℕ) → i < 128 → value t' i ≡ layer A M b rows cols (value x) i)
  layer-Gives x M b rows cols l levels h =
      let product = diagonal_matvec-Gives x M rows cols l levels in
      let total = K.adds_plain product.ct (make_packed_plaintext (bias C rows b)) in
      (
        product.ct,
        total.ct,
        product.returned,
        total.returned,
        total.level_eq ∙ product.level_eq,
        λ i hi.
            total.value_eq i hi
            ∙ ap (add (value product.ct i))
                (entry-range (λ i. if ltb i rows then b i else zero_s) i hi)
            ∙ ap (λ s. add s (if ltb i rows then b i else zero_s)) (product.value_eq i hi)
            ∙ layer_lem M b rows cols (value x) i h,
      )

  layer_ext :
      (M : ℕ → ℕ → Scalar) (b : ℕ → Scalar) (rows cols : ℕ) (v v' : ℕ → Scalar) (i : ℕ)
      → ((j : ℕ) → j < cols → v j ≡ v' j)
      → layer A M b rows cols v i ≡ layer A M b rows cols v' i
  layer_ext M b rows cols v v' i h =
      ap (λ s. if ltb i rows then add s (b i) else zero_s)
        (sum_ext A L cols _ _ (λ j hj. ap (λ s. mul s (M i j)) (h j hj)))

  -- With the keys that its `gen_keys` makes and four levels to spare, the workload `app_inference`
  -- returns a ciphertext that holds the outputs of the two-layer network with the activation
  -- `0.5 * t * (1 + t)` in its first ten slots, and zero in the others.
  pub app_inference_eval-Gives :
      (w : Mlp C) (x : Ciphertext) (l : ℕ)
      → level x ≡ suc (suc (suc (suc l)))
      → Gives C I 128 (app_inference_eval C w (x ∷ [])) l (network C w (value x))
  unfolding app_inference_eval
  app_inference_eval-Gives w x l levels =
      let (t, t', multiplied, biased, t_level, t_values) =
        layer-Gives x w.w1 w.b1 64 128 (suc (suc (suc l))) levels (omega arith) in
      let active = activation-Gives t' (suc l) t_level in
      let (o, o', multiplied', biased', o_level, o_values) =
        layer-Gives active.ct w.w2 w.b2 10 64 l active.level_eq (omega arith) in
      record {
        ct = o';
        returned = rw (multiplied, biased, active.returned, multiplied') biased';
        level_eq = o_level;
        value_eq = λ i hi.
            o_values i hi
            ∙ layer_ext w.w2 w.b2 10 64 _ _ i
                (λ j hj. active.value_eq j (omega arith) ∙ ap (act A) (t_values j (omega arith)));
      }
