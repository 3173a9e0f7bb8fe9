-- ===== src/Zk/Client/Main/Seeds.antt =====
-- The seeds of the inputs of the client of Prototype B.
use khipu_v_fhe.Prelude.{
  ℕ, zero, suc, ◌+◌, ◌*◌, ◌≡◌, ◌<◌, ◌≤◌, refl, ap, List, [], ◌∷◌, Bytes, length, ok, ◌>>=◌, fault,
  ltb, ltb→lt, Bool-cases, inl, inr, ℤ, pos, arith,
}
use khipu_v_fhe.Zk.Client.Options.{ZkOptions}
use khipu_v_fhe.Zk.Client.Main.{zk_seed, ZkClientFhe, zk_gen_input_vec, zk_inputs}

zk_seed_fits : (a i : ℕ) → a + i * 123 < 2_147_483_648 → zk_seed (pos a) i ≡ ok (pos (a + i * 123))
unfolding zk_seed
zk_seed_fits a i h = ground arith

zk_seed_overflow : (a i : ℕ) → 2_147_483_648 ≤ a + i * 123 → zk_seed (pos a) i ≡ fault
unfolding zk_seed
zk_seed_overflow a i h = ground arith

module _ (F : ZkClientFhe) (cc : F.Context) (kp : F.KeyPair) where
  -- Every vector can be encrypted, and its ciphertext written.
  abbrev pub EncryptsAll : Type 0
  EncryptsAll =
      (v : List ℤ)
      → (ct : F.Ciphertext) × (b : Bytes) × (F.encrypt cc kp v ≡ ok ct)
        × (F.serialize_ciphertext ct ≡ ok b)

  module _ (E : EncryptsAll) (o : ZkOptions) (s a : ℕ) (slots : o.slots ≡ pos s)
      (seed : o.seed_a ≡ pos a) where
    zk_inputs-zero : (i : ℕ) → zk_inputs F cc kp o zero i ≡ ok []
    unfolding zk_inputs
    zk_inputs-zero i = refl

    vector_made : (z : ℤ) → zk_gen_input_vec F o.slots z ≡ ok (F.draws s z)
    unfolding zk_gen_input_vec
    vector_made z = rw slots refl

    -- A round whose seed fits.
    zk_inputs-suc :
        (n i : ℕ)
        → a + i * 123 < 2_147_483_648
        → (b : Bytes) × (zk_inputs F cc kp o (suc n) i
            ≡ (zk_inputs F cc kp o n (suc i) >>= λ blobs. ok (b ∷ blobs)))
    unfolding zk_inputs
    zk_inputs-suc n i h =
        let (ct, b, encrypted, serialized) = E (F.draws s (pos (a + i * 123))) in
        let fits : zk_seed o.seed_a i ≡ ok (pos (a + i * 123)) = rw seed (zk_seed_fits a i h) in
        (b, rw (fits, vector_made (pos (a + i * 123)), encrypted, serialized) refl)

    zk_inputs-suc_overflow :
        (n i : ℕ) → 2_147_483_648 ≤ a + i * 123 → zk_inputs F cc kp o (suc n) i ≡ fault
    unfolding zk_inputs
    zk_inputs-suc_overflow n i h =
        let overflows : zk_seed o.seed_a i ≡ fault = rw seed (zk_seed_overflow a i h) in
        rw overflows refl

    zk_inputs_fit :
        (n i : ℕ)
        → a + (i + n) * 123 < 2_147_483_771
        → (blobs : List Bytes) × (zk_inputs F cc kp o n i ≡ ok blobs) × (length blobs ≡ n)
    zk_inputs_fit zero i h = ([], zk_inputs-zero i, refl)
    zk_inputs_fit (suc n) i h =
        let (b, step) = zk_inputs-suc n i (omega arith) in
        let (blobs, rest, size) = zk_inputs_fit n (suc i) (omega arith) in
        (b ∷ blobs, rw (step, rest) refl, ap suc size)

    zk_inputs_overflow :
        (n i : ℕ) → 2_147_483_771 ≤ a + (i + suc n) * 123 → zk_inputs F cc kp o (suc n) i ≡ fault
    zk_inputs_overflow zero i h = zk_inputs-suc_overflow zero i (omega arith)
    zk_inputs_overflow (suc n) i h =
        let rest = zk_inputs_overflow n (suc i) (omega arith) in
        elim (Bool-cases (ltb (a + i * 123) 2_147_483_648)) [
          | inl small ↦
              let (b, step) = zk_inputs-suc (suc n) i (ltb→lt _ _ small) in rw (step, rest) refl
          | inr large ↦ zk_inputs-suc_overflow (suc n) i (ground arith)
        ]

    -- With a seed and a number of slots that are not negative, and if encryption never fails, `n` inputs,
    -- at least one, are made if the last seed, `a + (n - 1) * 123`, fits an `int`; else the
    -- behaviour is undefined.
    pub zk_inputs_bounds :
        (m : ℕ)
        → (a + m * 123 < 2_147_483_648
            → (blobs : List Bytes) × (zk_inputs F cc kp o (suc m) 0 ≡ ok blobs)
              × (length blobs ≡ suc m))
          × (2_147_483_648 ≤ a + m * 123 → zk_inputs F cc kp o (suc m) 0 ≡ fault)
    zk_inputs_bounds m =
        (λ h. zk_inputs_fit (suc m) 0 (omega arith), λ h. zk_inputs_overflow m 0 (omega arith))
