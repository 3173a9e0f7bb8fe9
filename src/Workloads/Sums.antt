-- ===== src/Workloads/Sums.antt =====
-- Finite sums of scalars, and what it means to take them cyclically.
use khipu_v_fhe.Prelude.{
  ℕ, zero, suc, ◌+◌, ◌-◌, ◌%◌, ◌≤◌, ◌<◌, ◌≡◌, ◌≢◌, refl, sym, ap, ◌∙◌, arith, List, [], ◌∷◌, ◌==◌,
  ==_iff, Bool-cases, inl, inr,
}
use native.Mathlib.Nat.{mod-eq_of_lt, add-mod_right}
use khipu_v_fhe.Workloads.{Scalars}

-- `add` with `zero_s` is a commutative monoid, `zero_s` absorbs, and nothing less nothing is nothing.
pub record IsScalars (A : Scalars) : Type 0 where
  pub add_assoc : (x y z : A.Scalar) → A.add (A.add x y) z ≡ A.add x (A.add y z)
  pub add_comm : (x y : A.Scalar) → A.add x y ≡ A.add y x
  pub zero_add : (x : A.Scalar) → A.add A.zero_s x ≡ x
  pub mul_zero : (x : A.Scalar) → A.mul x A.zero_s ≡ A.zero_s
  pub sub_zero : A.sub A.zero_s A.zero_s ≡ A.zero_s

module _ (A : Scalars) where
  open A use {Scalar, zero_s, add}

  -- `f 0 + f 1 + … + f (n - 1)`
  abbrev pub sum : ℕ → (ℕ → Scalar) → Scalar
  sum zero f = zero_s
  sum (suc n) f = add (sum n f) (f n)

  -- `v[i]`
  abbrev pub entry_at : List Scalar → ℕ → Scalar
  entry_at [] i = zero_s
  entry_at (x ∷ xs) zero = x
  entry_at (x ∷ xs) (suc i) = entry_at xs i

  module _ (L : IsScalars A) where
    pub sum_ext : (n : ℕ) (f g : ℕ → Scalar) → ((i : ℕ) → i < n → f i ≡ g i) → sum n f ≡ sum n g
    sum_ext zero f g h = refl
    sum_ext (suc n) f g h =
        ap (λ x. add x (f n)) (sum_ext n f g (λ i hi. h i (omega arith)))
        ∙ ap (add (sum n g)) (h n (omega arith))

    pub sum_zero : (n : ℕ) (f : ℕ → Scalar) → ((i : ℕ) → i < n → f i ≡ zero_s) → sum n f ≡ zero_s
    sum_zero zero f h = refl
    sum_zero (suc n) f h =
        ap (λ x. add x (f n)) (sum_zero n f (λ i hi. h i (omega arith)))
        ∙ ap (add zero_s) (h n (omega arith))
        ∙ L.zero_add zero_s

    -- The first part of a sum, and the rest.
    pub sum_split :
        (m n : ℕ) (f : ℕ → Scalar) → sum (m + n) f ≡ add (sum m f) (sum n (λ i. f (m + i)))
    sum_split m zero f = ap (λ k. sum k f) (omega arith) ∙ sym (L.add_comm _ _ ∙ L.zero_add _)
    sum_split m (suc n) f =
        let next : m + suc n ≡ suc (m + n) = omega arith in
        ap (λ k. sum k f) next ∙ ap (λ x. add x (f (m + n))) (sum_split m n f) ∙ L.add_assoc _ _ _

    -- A sum ends where the rest of its terms is zero.
    pub sum_cut :
        (m n : ℕ) (f : ℕ → Scalar) → ((i : ℕ) → m ≤ i → f i ≡ zero_s) → m ≤ n → sum n f ≡ sum m f
    sum_cut m n f h le =
        let whole : n ≡ m + (n - m) = omega arith in
        let rest = sum_zero (n - m) (λ i. f (m + i)) (λ i hi. h (m + i) (omega arith)) in
        ap (λ k. sum k f) whole
        ∙ sum_split m (n - m) f
        ∙ ap (add (sum m f)) rest
        ∙ L.add_comm _ _
        ∙ L.zero_add _

    -- One step around: the first term may come last.
    sum_shift : (n : ℕ) (f : ℕ → Scalar) → f 0 ≡ f n → sum n (λ i. f (suc i)) ≡ sum n f
    sum_shift zero f h = refl
    sum_shift (suc n) f h =
        let later : sum n (λ i. f (suc i)) ≡ sum n (λ i. f (1 + i)) =
          sum_ext n _ _ (λ i hi. ap f (omega arith)) in
        let first : sum 1 f ≡ f 0 = L.zero_add (f 0) in
        let whole : 1 + n ≡ suc n = omega arith in
        ap (add (sum n (λ i. f (suc i)))) (sym h)
        ∙ L.add_comm _ _
        ∙ ap (λ x. add x (sum n (λ i. f (suc i)))) (sym first)
        ∙ ap (add (sum 1 f)) later
        ∙ sym (sum_split 1 n f)
        ∙ ap (λ k. sum k f) whole

    -- A sum over all slots does not depend on the slot it starts at.
    pub sum_rotated : (n i : ℕ) (f : ℕ → Scalar) → sum n (λ d. f ((i + d) % n)) ≡ sum n f
    sum_rotated n zero f =
        sum_ext n (λ d. f ((0 + d) % n)) f
          (λ d h. ap f (ap (λ k. k % n) (omega arith) ∙ mod-eq_of_lt h))
    sum_rotated n (suc i) f =
        let g : ℕ → Scalar = λ d. f ((i + d) % n) in
        let moved : sum n (λ d. f ((suc i + d) % n)) ≡ sum n (λ d. g (suc d)) =
          sum_ext n _ _ (λ d h. ap (λ k. f (k % n)) (omega arith)) in
        let around : g 0 ≡ g n = ap f (ap (λ k. k % n) (omega arith) ∙ sym (add-mod_right i n)) in
        moved ∙ sum_shift n g around ∙ sum_rotated n i f

    -- A sum with one term.
    pub sum_single :
        (n k : ℕ) (f : ℕ → Scalar)
        → ((i : ℕ) → i < n → i ≢ k → f i ≡ zero_s)
        → k < n
        → sum n f ≡ f k
    sum_single zero k f h hk = absurd (omega arith)
    sum_single (suc n) k f h hk = elim (Bool-cases (n == k)) [
      | inl last ↦
          let here = (==_iff n k).0 last in
          ap (λ s. add s (f n)) (sum_zero n f (λ i hi. h i (omega arith) (λ e. omega arith)))
          ∙ L.zero_add (f n)
          ∙ ap f here
      | inr earlier ↦
          let other : n ≢ k = λ e. cc ((==_iff n k).1 e) in
          ap (add (sum n f)) (h n (omega arith) other)
          ∙ L.add_comm _ _
          ∙ L.zero_add _
          ∙ sum_single n k f (λ i hi ne. h i (omega arith) ne) (omega arith)
    ]
