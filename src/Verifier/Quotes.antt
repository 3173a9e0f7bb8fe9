-- ===== src/Verifier/Quotes.antt =====
-- What the check of a quote accepts, given what the DCAP library reports.
use khipu_v_fhe.Prelude.{
  ℕ, ◌≡◌, ◌≢◌, ◌↔◌, ◌⊎◌, inl, inr, refl, subst, ap, ◌∙◌, List, [], ◌∷◌, Bytes, Bool, true, false,
  not, ◌&&◌, Outcome, ok, throw, fault, ◌>>=◌, catch, >>=-eq-ok, text, is_empty, Bool-cases, Option,
  none, some,
}
use khipu_v_fhe.Hex.{hex_match}
use khipu_v_fhe.Libraries.{JsonLib}
use khipu_v_fhe.Verifier.{
  JsonNav, Dcap, measurement, measured, check_measurement, check_mr_td, verify_tdx_quote,
}

is_empty→ : (xs : Bytes) → is_empty xs ≡ false → xs ≢ []
is_empty→ [] h e = cc
is_empty→ (x ∷ xs) h e = cc

→is_empty : (xs : Bytes) → xs ≢ [] → is_empty xs ≡ false
→is_empty [] h = absurd (h refl)
→is_empty (x ∷ xs) h = refl

is_empty-eq : (xs : Bytes) → is_empty xs ≡ true → xs ≡ []
is_empty-eq [] h = refl
is_empty-eq (x ∷ xs) h = cc

ok-injective : (a b : Bool) → ok a ≡ ok b → a ≡ b
ok-injective a b h = cc

filled→ :
    (s expected : List ℕ)
    → (not (is_empty s) && hex_match s expected) ≡ true
    → (s ≢ []) × (hex_match s expected ≡ true)
filled→ [] expected h = cc
filled→ (c ∷ cs) expected h = (is_empty→ (c ∷ cs) refl, h)

→filled :
    (s expected : List ℕ)
    → s ≢ []
    → hex_match s expected ≡ true
    → (not (is_empty s) && hex_match s expected) ≡ true
→filled [] expected n h = absurd (n refl)
→filled (c ∷ cs) expected n h = h

catch_false→ : (m : Outcome Bool) → catch m (λ e. ok false) ≡ ok true → m ≡ ok true
catch_false→ (ok b) h = h
catch_false→ (throw e) h = cc
catch_false→ fault h = cc

module _ (J : JsonLib) (N : JsonNav J) (D : Dcap) where
  open J use {Json}
  open N use {value_string}

  -- A key of the measurement holds a text that is not empty and matches, whatever its case.
  abbrev pub Matches : Json → List ℕ → List ℕ → Type 0
  Matches meas key expected =
      (s : List ℕ) × (value_string meas key [] ≡ ok s) × (s ≢ []) × (hex_match s expected ≡ true)

  -- No check, or a match.
  abbrev pub MrTdMatches : Json → List ℕ → Type 0
  MrTdMatches meas mr_td = (mr_td ≡ []) ⊎ Matches meas (text "tdx_mrtd") mr_td

  check_mr_td_iff :
      (meas : Json) (mr_td : List ℕ)
      → (check_mr_td J N D meas mr_td ≡ ok true) ↔ MrTdMatches meas mr_td
  unfolding check_mr_td
  check_mr_td_iff meas [] = (λ h. inl refl, λ h. refl)
  check_mr_td_iff meas (c ∷ cs) = (
    λ h.
        let (s, e, r) = >>=-eq-ok (value_string meas (text "tdx_mrtd") []) _ h in
        let (n, m) = filled→ s (c ∷ cs) (ok-injective _ _ r) in inr (s, e, n, m),
    λ h. elim h [
      | inl e ↦ cc
      | inr (s, e, n, m) ↦
          ap (λ r. r >>= λ (x : List ℕ). ok (not (is_empty x) && hex_match x (c ∷ cs))) e
          ∙ ap ok (→filled s (c ∷ cs) n m)
    ],
  )

  -- What a measurement must hold to be accepted.
  pub record Holds (meas : Json) (mr rd : List ℕ) : Type 0 where
    pub report_data : Matches meas (text "tdx_reportdata") rd
    pub mr_td : MrTdMatches meas mr

  check_measurement_iff :
      (meas : Json) (mr_td rd : List ℕ)
      → (check_measurement J N D meas mr_td rd ≡ ok true) ↔ Holds meas mr_td rd
  unfolding check_measurement
  check_measurement_iff meas mr_td rd = (
    λ h.
        let (s, e, r) = >>=-eq-ok (value_string meas (text "tdx_reportdata") []) _ h in
        elim (Bool-cases (is_empty s)) [
          | inl empty ↦ absurd (cc (rw empty at r))
          | inr filled ↦ elim (Bool-cases (hex_match s rd)) [
            | inr other ↦ absurd (cc (rw (filled, other) at r))
            | inl same ↦ record {
              report_data = (s, e, is_empty→ s filled, same);
              mr_td = (check_mr_td_iff meas mr_td).0 (rw (filled, same) at r);
            }
          ]
        ],
    λ h.
        let (s, e, n, same) = h.report_data in
        rw (e, →is_empty s n, same) ((check_mr_td_iff meas mr_td).1 h.mr_td),
  )

  measured_iff :
      (found : Option Json) (mr_td rd : List ℕ)
      → (measured J N D found mr_td rd ≡ ok true)
        ↔ ((meas : Json) × (found ≡ some meas) × Holds meas mr_td rd)
  unfolding measured
  measured_iff none mr_td rd = (λ h. cc, λ (m, e, h). cc)
  measured_iff (some meas) mr_td rd = (
    λ h. (meas, refl, (check_measurement_iff meas mr_td rd).0 h),
    λ (m, e, h).
        let same : m ≡ meas = cc in
        (check_measurement_iff meas mr_td rd).1 (subst (λ m. Holds m mr_td rd) same h),
  )

  -- A quote is accepted exactly when the DCAP library finds a measurement for it whose report data
  -- matches, and whose MR_TD matches unless the client expects the empty text.
  pub verify_tdx_quote_iff :
      (quote_bytes : Bytes) (mr_td rd : List ℕ)
      → (verify_tdx_quote J N D quote_bytes mr_td rd ≡ ok true)
        ↔ ((meas : Json) × (measurement J N D quote_bytes ≡ ok (some meas)) × Holds meas mr_td rd)
  unfolding verify_tdx_quote
  verify_tdx_quote_iff quote_bytes mr_td rd = (
    λ h.
        let (found, m, r) = >>=-eq-ok (measurement J N D quote_bytes) _ (catch_false→ _ h) in
        let (meas, e, holds) = (measured_iff found mr_td rd).0 r in (meas, m ∙ ap ok e, holds),
    λ (meas, m, holds). rw m (
        ap (λ r. catch r (λ e. ok false))
          ((measured_iff (some meas) mr_td rd).1 (meas, refl, holds))),
  )
