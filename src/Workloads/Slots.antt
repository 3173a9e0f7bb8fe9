-- ===== src/Workloads/Slots.antt =====
-- What the operations of CKKS do to the slots of a ciphertext, apart from the noise.
use khipu_v_fhe.Prelude.{
  ℕ, zero, suc, ◌+◌, ◌-◌, ◌%◌, ◌≤◌, ◌<◌, ◌≡◌, Bool-cases, inl, inr, refl, ap, ◌∙◌, arith, List, [],
  ◌∷◌, map, Bool, true, false, ◌||◌, ◌==◌, Outcome, ok, ◌>>=◌, length,
}
use khipu_v_fhe.Workloads.{Scalars, Rotation, left, right, Ckks, range}
use khipu_v_fhe.Workloads.Sums.{sum, entry_at}

abbrev pub same_rotation : Rotation → Rotation → Bool
same_rotation (left d) (left e) = d == e
same_rotation (right d) (right e) = d == e
same_rotation _ _ = false

-- There is a key for a rotation.
abbrev pub has_rotation : List Rotation → Rotation → Bool
has_rotation [] r = false
has_rotation (s ∷ rotations) r = same_rotation s r || has_rotation rotations r

module _ {A : Scalars} (C : Ckks A) where
  open A use {Scalar, add, mul}
  open C use {
    Ciphertext, Plaintext, make_packed_plaintext, eval_rotate, eval_add, eval_add_plain, eval_mult,
    eval_mult_plain, eval_sum, rescale,
  }

  -- What a ciphertext decrypts to, how often it can still be rescaled, and what a plaintext encodes.
  pub record Interpretation : Type 0 where
    pub value : Ciphertext → ℕ → Scalar
    pub level : Ciphertext → ℕ
    pub entry : Plaintext → ℕ → Scalar

  module _ (I : Interpretation) (n : ℕ) where
    open I use {value, level, entry}

    -- A call returns a ciphertext of this level that holds these values in its `n` slots.
    pub record Gives (m : Outcome Ciphertext) (l : ℕ) (f : ℕ → Scalar) : Type 0 where
      pub ct : Ciphertext
      pub returned : m ≡ ok ct
      pub level_eq : level ct ≡ l
      pub value_eq : (i : ℕ) → i < n → value ct i ≡ f i

    -- Rotations are cyclic, and two ciphertexts of one level are added slot by slot.
    pub record IsRotating (rotations : List Rotation) : Type 0 where
      pub rotate_left :
          (x : Ciphertext) (d : ℕ)
          → has_rotation rotations (left d) ≡ true
          → Gives (eval_rotate x (left d)) (level x) (λ i. value x ((i + d) % n))
      pub rotate_right :
          (x : Ciphertext) (d : ℕ)
          → has_rotation rotations (right d) ≡ true
          → Gives (eval_rotate x (right d)) (level x) (λ i. value x ((i + (n - d % n)) % n))
      pub adds :
          (x y : Ciphertext)
          → level x ≡ level y
          → Gives (eval_add x y) (level x) (λ i. add (value x i) (value y i))

    -- The documented behaviour of a context with keys for these rotations: operations work slot by
    -- slot on ciphertexts of one level, and a multiplication wants a level to rescale to.
    pub record IsCkks (rotations : List Rotation) : Type 0 where
      pub rotating : IsRotating rotations
      pub open rotating use *
      pub packed :
          (v : List Scalar) (i : ℕ)
          → i < length v
          → entry (make_packed_plaintext v) i ≡ entry_at A v i
      pub adds_plain :
          (x : Ciphertext) (p : Plaintext)
          → Gives (eval_add_plain x p) (level x) (λ i. add (value x i) (entry p i))
      pub mults :
          (x y : Ciphertext) (l : ℕ)
          → level x ≡ suc l
          → level y ≡ suc l
          → Gives (eval_mult x y) (suc l) (λ i. mul (value x i) (value y i))
      pub mults_plain :
          (x : Ciphertext) (p : Plaintext) (l : ℕ)
          → level x ≡ suc l
          → Gives (eval_mult_plain x p) (suc l) (λ i. mul (value x i) (entry p i))
      pub sums : (x : Ciphertext) → Gives (eval_sum x n) (level x) (λ i. sum A n (value x))
      pub rescales : (x : Ciphertext) (l : ℕ) → level x ≡ suc l → Gives (rescale x) l (value x)

    -- A ciphertext that is at hand.
    pub given : (x : Ciphertext) → Gives (ok x) (level x) (value x)
    given x = record { ct = x; returned = refl; level_eq = refl; value_eq = λ i h. refl }

    -- What follows a call may rely on what the call gives.
    pub >>=-Gives :
        {m : Outcome Ciphertext} {l l' : ℕ} {f g : ℕ → Scalar}
        (next : Ciphertext → Outcome Ciphertext)
        → Gives m l f
        → ((x : Ciphertext)
            → level x ≡ l
            → ((i : ℕ) → i < n → value x i ≡ f i)
            → Gives (next x) l' g)
        → Gives (m >>= next) l' g
    >>=-Gives next called h =
        let later = h called.ct called.level_eq called.value_eq in
        record {
          ct = later.ct;
          returned = rw called.returned later.returned;
          level_eq = later.level_eq;
          value_eq = later.value_eq;
        }

    -- The same call under another description of its level and its values.
    pub Gives-ext :
        {m : Outcome Ciphertext} {l l' : ℕ} {f g : ℕ → Scalar}
        → Gives m l f
        → l ≡ l'
        → ((i : ℕ) → i < n → f i ≡ g i)
        → Gives m l' g
    Gives-ext called same h = record {
      ct = called.ct;
      returned = called.returned;
      level_eq = called.level_eq ∙ same;
      value_eq = λ i hi. called.value_eq i hi ∙ h i hi;
    }

-- A vector that is written entry by entry.
module _ (A : Scalars) where
  pub length-map-range : (f : ℕ → A.Scalar) (k d : ℕ) → length (map f (range k d)) ≡ k
  length-map-range f zero d = refl
  length-map-range f (suc k) d = ap suc (length-map-range f k (suc d))

  pub entry_at-range :
      (f : ℕ → A.Scalar) (k d i : ℕ) → i < k → entry_at A (map f (range k d)) i ≡ f (d + i)
  entry_at-range f zero d i h = absurd (omega arith)
  entry_at-range f (suc k) d zero h = ap f (omega arith)
  entry_at-range f (suc k) d (suc i) h =
      entry_at-range f k (suc d) i (omega arith) ∙ ap f (omega arith)

pub has_range :
    (k d e : ℕ) → d ≤ e → e < d + k → has_rotation (map left (range k d)) (left e) ≡ true
has_range zero d e h h' = absurd (omega arith)
has_range (suc k) d e h h' = elim (Bool-cases (d == e)) [
  | inl same ↦ rw same refl
  | inr other ↦ rw other (has_range k (suc d) e (ground arith) (omega arith))
]
