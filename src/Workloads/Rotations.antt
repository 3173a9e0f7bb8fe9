-- ===== src/Workloads/Rotations.antt =====
-- The sums over rows and columns of the logistic regression, by rotations that double.
use khipu_v_fhe.Prelude.{
  ℕ, zero, suc, ◌+◌, ◌-◌, ◌*◌, ◌/◌, ◌%◌, ◌^◌, ◌<◌, ◌≡◌, ◌≢◌, refl, sym, ap, ◌∙◌, arith, List, Bool,
  true, false, ◌&&◌, ltb, ltb→lt, ◌==◌, ==_iff, if◌then◌else◌, Bool-cases, inl, inr,
}
use khipu_v_fhe.Workloads.{
  Scalars, Rotation, left, right, Ckks, accumulate, row_accumulate, row_propagate, col_accumulate,
  logistic_rotations,
}
use khipu_v_fhe.Workloads.Sums.{IsScalars, sum, sum_ext, sum_single, sum_split, sum_rotated}
use khipu_v_fhe.Workloads.Slots.{has_rotation, Interpretation, Gives, IsRotating, given, Gives-ext}

&&→ : (a b : Bool) → (a && b) ≡ true → (a ≡ true) × (b ≡ true)
&&→ true b h = (refl, h)
&&→ false b h = cc

-- The loop meets the limit exactly within its fuel, and there is a key for each of its rotations.
abbrev exact : List Rotation → (ℕ → Rotation) → ℕ → ℕ → ℕ → ℕ → Bool
exact rotations direction stride limit zero j = false
exact rotations direction stride limit (suc fuel) j =
    let rest = exact rotations direction stride limit fuel (2 * j % 2 ^ 32) in
    if ltb j limit
    then has_rotation rotations (direction (j * stride)) && (ltb (2 * j) (2 ^ 32) && rest)
    else (j == limit)

module _ {A : Scalars} (C : Ckks A) (I : Interpretation C) (L : IsScalars A) (n : ℕ)
    (rotations : List Rotation) (K : IsRotating C I n rotations) where
  open A use {Scalar, add}
  open C use {Ciphertext, eval_rotate}
  open I use {value, level}

  -- `pos i j` is the slot that a rotation for `j` brings to slot `i`.
  module _ (direction : ℕ → Rotation) (stride limit : ℕ) (pos : ℕ → ℕ → ℕ)
      (inside : (i j : ℕ) → i < n → j < limit → pos i j < n)
      (again : (i j t : ℕ) → i < n → j < limit → t < limit → pos (pos i j) t ≡ pos i (j + t))
      (moves : (x : Ciphertext) (j : ℕ)
        → j < limit
        → has_rotation rotations (direction (j * stride)) ≡ true
        → Gives C I n (eval_rotate x (direction (j * stride))) (level x) (λ i. value x (pos i j)))
      (x : Ciphertext) where
    accumulate-Gives :
        (fuel j : ℕ) (ct : Ciphertext)
        → exact rotations direction stride limit fuel j ≡ true
        → level ct ≡ level x
        → ((i : ℕ) → i < n → value ct i ≡ sum A j (λ t. value x (pos i t)))
        → Gives C I n
            (accumulate C direction stride limit fuel j ct)
            (level x)
            (λ i. sum A limit (λ t. value x (pos i t)))
    unfolding accumulate
    accumulate-Gives zero j ct h same values = cc
    accumulate-Gives (suc fuel) j ct h same values = elim (Bool-cases (ltb j limit)) [
      | inr over ↦
          let reached : j ≡ limit = (==_iff j limit).0 (rw over at h) in
          rw over (
            Gives-ext C I n (given C I n ct) same
              (λ i hi. values i hi ∙ ap (λ k. sum A k (λ t. value x (pos i t))) reached))
      | inl below ↦
          let (key, h') =
            &&→ (has_rotation rotations (direction (j * stride)))
              (ltb (2 * j) (2 ^ 32) && exact rotations direction stride limit fuel (2 * j % 2 ^ 32))
              (rw below at h) in
          let (small, rest) =
            &&→ (ltb (2 * j) (2 ^ 32))
              (exact rotations direction stride limit fuel (2 * j % 2 ^ 32)) h' in
          let hj = ltb→lt j limit below in
          let rotated = moves ct j hj key in
          let total = K.adds ct rotated.ct (sym rotated.level_eq) in
          let twice : j + j ≡ 2 * j % 2 ^ 32 = omega (arith, ltb→lt (2 * j) (2 ^ 32) small) in
          rw (below, rotated.returned, total.returned)
            (accumulate-Gives fuel (2 * j % 2 ^ 32) total.ct rest (total.level_eq ∙ same) (λ i hi.
              total.value_eq i hi
              ∙ ap (add (value ct i)) (rotated.value_eq i hi)
              ∙ ap (λ v. add v (value ct (pos i j))) (values i hi)
              ∙ ap (add (sum A j (λ t. value x (pos i t)))) (
                  values (pos i j) (inside i j hi hj)
                  ∙ sum_ext A L j _ _ (λ t ht. ap (value x) (again i j t hi hj (omega arith))))
              ∙ sym (sum_split A L j j (λ t. value x (pos i t)))
              ∙ ap (λ k. sum A k (λ t. value x (pos i t))) twice))
    ]

-- 128 rows of 256 columns, with the keys that the workload's `gen_keys` makes.
module _ {A : Scalars} (C : Ckks A) (I : Interpretation C) (L : IsScalars A)
    (K : IsRotating C I 32768 logistic_rotations) where
  open A use {Scalar, zero_s, add}
  open C use {Ciphertext}
  open I use {value, level}

  -- The sum that a loop starts with.
  once : (v : ℕ → Scalar) (i j : ℕ) → i ≡ j → v i ≡ sum A 1 (λ t. v j)
  once v i j same = ap v same ∙ sym (L.zero_add (v j))

  -- `row_accumulate` of the logistic regression sums, for every slot, the 256 slots from it on,
  -- cyclically: for the first slot of a row these are the row.
  pub row_accumulate-Gives :
      (x : Ciphertext)
      → Gives C I 32768
          (row_accumulate C x)
          (level x)
          (λ i. sum A 256 (λ t. value x ((i + t) % 32768)))
  unfolding row_accumulate logistic_rotations
  row_accumulate-Gives x =
      accumulate-Gives C I L 32768 logistic_rotations K left 1 256 (λ i t. (i + t) % 32768)
        (λ i j hi hj. omega arith) (λ i j t hi hj ht. omega arith)
        (λ y j hj key.
          Gives-ext C I 32768 (K.rotate_left y (j * 1) key) refl
            (λ i hi. ap (value y) (omega arith)))
        x 33 1 x refl refl (λ i hi. once (value x) i ((i + 0) % 32768) (omega arith))

  -- The other way round: the 256 slots up to a slot.
  backward-Gives :
      (x : Ciphertext)
      → Gives C I 32768
          (row_propagate C x)
          (level x)
          (λ i. sum A 256 (λ t. value x ((i + (32768 - t)) % 32768)))
  unfolding row_propagate logistic_rotations
  backward-Gives x =
      accumulate-Gives C I L 32768 logistic_rotations K right 1 256
        (λ i t. (i + (32768 - t)) % 32768) (λ i j hi hj. omega arith)
        (λ i j t hi hj ht. omega arith)
        (λ y j hj key.
          Gives-ext C I 32768 (K.rotate_right y (j * 1) key) refl
            (λ i hi. ap (value y) (omega arith)))
        x 33 1 x refl refl (λ i hi. once (value x) i ((i + (32768 - 0)) % 32768) (omega arith))

  -- On a ciphertext that is zero but in the first slot of each row, `row_propagate` copies the value of
  -- that slot to the whole row.
  pub row_propagate-Gives :
      (x : Ciphertext)
      → ((i : ℕ) → i < 32768 → i % 256 ≢ 0 → value x i ≡ zero_s)
      → Gives C I 32768 (row_propagate C x) (level x) (λ i. value x (i / 256 * 256))
  row_propagate-Gives x zeros = Gives-ext C I 32768 (backward-Gives x) refl (λ i hi.
      sum_single A L 256 (i % 256) (λ t. value x ((i + (32768 - t)) % 32768))
        (λ t ht ne. zeros ((i + (32768 - t)) % 32768) (omega arith) (λ e. ne (omega arith)))
        (omega arith)
      ∙ ap (value x) (omega arith))

  -- `col_accumulate` gives every slot the sum of its column over the 128 rows.
  pub col_accumulate-Gives :
      (x : Ciphertext)
      → Gives C I 32768
          (col_accumulate C x)
          (level x)
          (λ i. sum A 128 (λ r. value x (r * 256 + i % 256)))
  unfolding col_accumulate logistic_rotations
  col_accumulate-Gives x =
      Gives-ext C I 32768
        (accumulate-Gives C I L 32768 logistic_rotations K left 256 128
          (λ i t. (i + t * 256) % 32768) (λ i j hi hj. omega arith) (λ i j t hi hj ht. omega arith)
          (λ y j hj key. K.rotate_left y (j * 256) key) x 33 1 x refl refl
          (λ i hi. once (value x) i ((i + 0 * 256) % 32768) (omega arith)))
        refl
        (λ i hi.
          sum_ext A L 128 (λ t. value x ((i + t * 256) % 32768))
            (λ t. value x ((i / 256 + t) % 128 * 256 + i % 256))
            (λ t ht. ap (value x) (omega arith))
          ∙ sum_rotated A L 128 (i / 256) (λ r. value x (r * 256 + i % 256)))
