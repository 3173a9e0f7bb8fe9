-- ===== src/Zk/Circuits/Agreement.antt =====
-- The circuit that is proved computes what the circuit on the crypto context does, for
-- zk-vfhe/workloads/small_circuit.cpp and medium_circuit.cpp.
use khipu_v_fhe.Prelude.{
  ℕ, suc, ◌+◌, ◌≡◌, refl, arith, ap, ◌∙◌, List, [], ◌∷◌, ◌++◌, map, Outcome, ok, >>=-eq-ok,
  append_assoc,
}
use khipu_v_fhe.Zk.Circuits.{
  Bgv, ZkSystem, declare_two, bgv_small_eval, bgv_medium_eval, small_eval_zk, medium_eval_zk,
}

module _ {G : Bgv} (Z : ZkSystem G) where
  open G use {Ciphertext, eval_mult_no_relin, eval_add}
  open Z use {ProofSystem, public_input, zk_mult_no_relin, zk_add}

  -- What a ciphertext stands for, the public inputs so far, and the multiplications so far.
  pub record Reading (V : Type 0) : Type 0 where
    pub value : Ciphertext → V
    pub publics : ProofSystem → List V
    pub mults : ProofSystem → ℕ

  module _ {V : Type 0} (R : Reading V) where
    open R use {value, publics, mults}

    -- A call on the proof system returns this value, with these public inputs and multiplications.
    pub record Builds (m : Outcome (Ciphertext × ProofSystem)) (v : V) (ins : List V) (n : ℕ)
        : Type 0 where
      pub ct : Ciphertext
      pub ps : ProofSystem
      pub returned : m ≡ ok (ct, ps)
      pub value_eq : value ct ≡ v
      pub publics_eq : publics ps ≡ ins
      pub mults_eq : mults ps ≡ n

    -- A declared ciphertext keeps its value, and an operation of the proof system agrees with that of
    -- the context where this one returns.
    pub record IsZk : Type 0 where
      pub declares :
          (c : Ciphertext) (ps : ProofSystem)
          → Builds (public_input c ps) (value c) (publics ps ++ (value c ∷ [])) (mults ps)
      pub multiplies :
          (c1 c2 u d1 d2 : Ciphertext) (ps : ProofSystem)
          → eval_mult_no_relin c1 c2 ≡ ok u
          → value d1 ≡ value c1
          → value d2 ≡ value c2
          → Builds (zk_mult_no_relin d1 d2 ps) (value u) (publics ps) (suc (mults ps))
      pub adds :
          (c1 c2 u d1 d2 : Ciphertext) (ps : ProofSystem)
          → eval_add c1 c2 ≡ ok u
          → value d1 ≡ value c1
          → value d2 ≡ value c2
          → Builds (zk_add d1 d2 ps) (value u) (publics ps) (mults ps)

    module _ (K : IsZk) where
      -- Two inputs are declared.
      record Declared (c1 c2 : Ciphertext) (ps : ProofSystem) : Type 0 where
        d1 : Ciphertext
        d2 : Ciphertext
        after : ProofSystem
        returned : declare_two G Z c1 c2 ps ≡ ok (d1, d2, after)
        first : value d1 ≡ value c1
        second : value d2 ≡ value c2
        publics_eq : publics after ≡ publics ps ++ (value c1 ∷ value c2 ∷ [])
        mults_eq : mults after ≡ mults ps

      declare_two-Declared : (c1 c2 : Ciphertext) (ps : ProofSystem) → Declared c1 c2 ps
      unfolding declare_two
      declare_two-Declared c1 c2 ps =
          let one = K.declares c1 ps in
          let two = K.declares c2 one.ps in
          record {
            d1 = one.ct;
            d2 = two.ct;
            after = two.ps;
            returned = rw (one.returned, two.returned) refl;
            first = one.value_eq;
            second = two.value_eq;
            publics_eq =
                two.publics_eq
                ∙ ap (λ ins. ins ++ (value c2 ∷ [])) one.publics_eq
                ∙ append_assoc (publics ps) (value c1 ∷ []) (value c2 ∷ []);
            mults_eq = two.mults_eq ∙ one.mults_eq;
          }

      pub small_eval_zk-Builds :
          (c1 c2 c3 c4 out : Ciphertext) (ps : ProofSystem)
          → bgv_small_eval G (c1 ∷ c2 ∷ c3 ∷ c4 ∷ []) ≡ ok out
          → Builds
              (small_eval_zk G Z (c1 ∷ c2 ∷ c3 ∷ c4 ∷ []) ps)
              (value out)
              (publics ps ++ map value (c1 ∷ c2 ∷ c3 ∷ c4 ∷ []))
              (2 + mults ps)
      unfolding bgv_small_eval small_eval_zk
      small_eval_zk-Builds c1 c2 c3 c4 out ps h =
          let first = >>=-eq-ok (eval_mult_no_relin c1 c2) _ h in
          let second = >>=-eq-ok (eval_mult_no_relin c3 c4) _ first.2 in
          let a = declare_two-Declared c1 c2 ps in
          let b = declare_two-Declared c3 c4 a.after in
          let u1 = K.multiplies c1 c2 first.0 a.d1 a.d2 b.after first.1 a.first a.second in
          let u2 = K.multiplies c3 c4 second.0 b.d1 b.d2 u1.ps second.1 b.first b.second in
          let last =
            K.adds first.0 second.0 out u1.ct u2.ct u2.ps second.2 u1.value_eq u2.value_eq in
          record {
            ct = last.ct;
            ps = last.ps;
            returned = rw (a.returned, b.returned, u1.returned, u2.returned, last.returned) refl;
            value_eq = last.value_eq;
            publics_eq =
                last.publics_eq
                ∙ u2.publics_eq
                ∙ u1.publics_eq
                ∙ b.publics_eq
                ∙ ap (λ ins. ins ++ (value c3 ∷ value c4 ∷ [])) a.publics_eq
                ∙ append_assoc (publics ps) (value c1 ∷ value c2 ∷ []) (value c3 ∷ value c4 ∷ []);
            mults_eq =
                last.mults_eq
                ∙ u2.mults_eq
                ∙ ap suc (u1.mults_eq ∙ ap suc (b.mults_eq ∙ a.mults_eq))
                ∙ omega arith;
          }

      -- Where the circuit `medium` on the context returns a ciphertext, the circuit that is proved returns
      -- one of the same value, if a declared ciphertext keeps its value and each operation of the proof
      -- system agrees with that of the context. All six inputs have become public, in their order, and
      -- three multiplications are added to the system.
      pub medium_eval_zk-Builds :
          (c1 c2 c3 c4 c5 c6 out : Ciphertext) (ps : ProofSystem)
          → bgv_medium_eval G (c1 ∷ c2 ∷ c3 ∷ c4 ∷ c5 ∷ c6 ∷ []) ≡ ok out
          → Builds
              (medium_eval_zk G Z (c1 ∷ c2 ∷ c3 ∷ c4 ∷ c5 ∷ c6 ∷ []) ps)
              (value out)
              (publics ps ++ map value (c1 ∷ c2 ∷ c3 ∷ c4 ∷ c5 ∷ c6 ∷ []))
              (3 + mults ps)
      unfolding bgv_medium_eval medium_eval_zk
      medium_eval_zk-Builds c1 c2 c3 c4 c5 c6 out ps h =
          let first = >>=-eq-ok (eval_mult_no_relin c1 c2) _ h in
          let second = >>=-eq-ok (eval_mult_no_relin c3 c4) _ first.2 in
          let third = >>=-eq-ok (eval_mult_no_relin c5 c6) _ second.2 in
          let sum = >>=-eq-ok (eval_add first.0 second.0) _ third.2 in
          let a = declare_two-Declared c1 c2 ps in
          let b = declare_two-Declared c3 c4 a.after in
          let c = declare_two-Declared c5 c6 b.after in
          let u1 = K.multiplies c1 c2 first.0 a.d1 a.d2 c.after first.1 a.first a.second in
          let u2 = K.multiplies c3 c4 second.0 b.d1 b.d2 u1.ps second.1 b.first b.second in
          let u3 = K.multiplies c5 c6 third.0 c.d1 c.d2 u2.ps third.1 c.first c.second in
          let s = K.adds first.0 second.0 sum.0 u1.ct u2.ct u3.ps sum.1 u1.value_eq u2.value_eq in
          let last = K.adds sum.0 third.0 out s.ct u3.ct s.ps sum.2 s.value_eq u3.value_eq in
          record {
            ct = last.ct;
            ps = last.ps;
            returned =
                rw
                  (
                    a.returned, b.returned, c.returned, u1.returned, u2.returned, u3.returned,
                    s.returned, last.returned,
                  )
                  refl;
            value_eq = last.value_eq;
            publics_eq =
                last.publics_eq
                ∙ s.publics_eq
                ∙ u3.publics_eq
                ∙ u2.publics_eq
                ∙ u1.publics_eq
                ∙ c.publics_eq
                ∙ ap (λ ins. ins ++ (value c5 ∷ value c6 ∷ []))
                    (b.publics_eq ∙ ap (λ ins. ins ++ (value c3 ∷ value c4 ∷ [])) a.publics_eq)
                ∙ regroup (publics ps) (value c1) (value c2) (value c3) (value c4) (value c5)
                    (value c6);
            mults_eq =
                last.mults_eq
                ∙ s.mults_eq
                ∙ u3.mults_eq
                ∙ ap suc (
                    u2.mults_eq
                    ∙ ap suc (u1.mults_eq ∙ ap suc (c.mults_eq ∙ b.mults_eq ∙ a.mults_eq)))
                ∙ omega arith;
          }
        where
          regroup :
              (ins : List V) (v1 v2 v3 v4 v5 v6 : V)
              → (ins ++ (v1 ∷ v2 ∷ [])) ++ (v3 ∷ v4 ∷ []) ++ (v5 ∷ v6 ∷ [])
                ≡ ins ++ (v1 ∷ v2 ∷ v3 ∷ v4 ∷ v5 ∷ v6 ∷ [])
          regroup ins v1 v2 v3 v4 v5 v6 =
              append_assoc (ins ++ (v1 ∷ v2 ∷ [])) (v3 ∷ v4 ∷ []) (v5 ∷ v6 ∷ [])
              ∙ append_assoc ins (v1 ∷ v2 ∷ []) (v3 ∷ v4 ∷ v5 ∷ v6 ∷ [])
