-- ===== src/Zk/Client/Accepting.antt =====
-- Which responses the client of Prototype B decrypts, and that those of its server are among them.
use khipu_v_fhe.Prelude.{
  ℕ, ◌<◌, ◌^◌, ◌≡◌, ◌↔◌, ◌⊎◌, inl, inr, refl, sym, ap, ◌∙◌, List, Bytes, Bool, true, false, Outcome,
  ok, throw, fault, >>=-eq-ok, catch, text, length, is_empty, if◌then◌else◌, Option, none, some,
  Bool-cases,
}
use khipu_v_fhe.Libraries.{Blake3, JsonLib}
use khipu_v_fhe.Client.{contains_text}
use khipu_v_fhe.Zk.{Snark, IsSnark, Cache, verify_proof}
use khipu_v_fhe.Zk.Messages.{ZkResponse, build_zk_response, build_zk_error_response}
use khipu_v_fhe.Zk.Messages.RoundTrip.{
  parse_zk_response-build_zk_response, build_zk_response_filled,
}
use khipu_v_fhe.Zk.Verifying.{Proves, verify_proof_iff}
use khipu_v_fhe.Zk.Server.{
  ZkFhe, ZkWorkload, ZkRun, Globals, respond_zk, zk_reader_error, zk_trailing_error,
}
use khipu_v_fhe.Zk.Server.Proving.{IsAccepted}
use khipu_v_fhe.Zk.Server.Serving.{Carries, carried, Sends, respond_zk-Sends}
use khipu_v_fhe.Zk.Client.{proof_ok, check_zk_parsed, check_zk_response}

-- A response whose proof is not looked at.
abbrev pub IsUnproved : ZkResponse → Type 0
IsUnproved p =
    (is_empty p.proof ≡ true) ⊎ ((is_empty p.vk ≡ true) ⊎ (is_empty p.public_inputs ≡ true))

catch_none→ :
    (m : Outcome (Option Bytes)) {out : Bytes}
    → catch m (λ e. ok none) ≡ ok (some out)
    → m ≡ ok (some out)
catch_none→ (ok b) h = h
catch_none→ (throw e) h = cc
catch_none→ fault h = cc

chosen→ :
    (b : Bool) {x out : Bytes} → (if b then some x else none) ≡ some out → (b ≡ true) × (out ≡ x)
chosen→ true h = (refl, cc h)
chosen→ false h = cc

module _ (S : Snark) where
  proof_ok_unproved : (p : ZkResponse) → IsUnproved p → proof_ok S p ≡ ok true
  unfolding proof_ok
  proof_ok_unproved p (inl h) = rw h refl
  proof_ok_unproved p (inr (inl h)) = elim (Bool-cases (is_empty p.proof)) [
    | inl e ↦ rw e refl
    | inr e ↦ rw (e, h) refl
  ]
  proof_ok_unproved p (inr (inr h)) = elim (Bool-cases (is_empty p.proof)) [
    | inl e ↦ rw e refl
    | inr e ↦ elim (Bool-cases (is_empty p.vk)) [
      | inl e' ↦ rw (e, e') refl
      | inr e' ↦ rw (e, e', h) refl
    ]
  ]

  proof_ok_cases :
      (p : ZkResponse) → IsUnproved p ⊎ (proof_ok S p ≡ verify_proof S p.proof p.public_inputs p.vk)
  unfolding proof_ok
  proof_ok_cases p = elim (Bool-cases (is_empty p.proof)) [
    | inl e ↦ inl (inl e)
    | inr e ↦ elim (Bool-cases (is_empty p.vk)) [
      | inl e' ↦ inl (inr (inl e'))
      | inr e' ↦ elim (Bool-cases (is_empty p.public_inputs)) [
        | inl e'' ↦ inl (inr (inr e''))
        | inr e'' ↦ inr (rw (e, e', e'') refl)
      ]
    ]
  ]

  proof_ok-accepted :
      (p : ZkResponse)
      → verify_proof S p.proof p.public_inputs p.vk ≡ ok true
      → proof_ok S p ≡ ok true
  proof_ok-accepted p h = elim (proof_ok_cases p) [
    | inl unproved ↦ proof_ok_unproved p unproved
    | inr same ↦ same ∙ h
  ]

  check-accepted :
      (p : ZkResponse)
      → length (build_zk_response p) < 2 ^ 63
      → contains_text (text "\"error\"") p.transcript_json ≡ false
      → proof_ok S p ≡ ok true
      → check_zk_response S (build_zk_response p) ≡ ok (some p.output_ct)
  unfolding check_zk_response check_zk_parsed
  check-accepted p fits no_error accepted =
      rw
        (
          build_zk_response_filled p,
          parse_zk_response-build_zk_response zk_reader_error zk_trailing_error p fits,
          no_error,
          accepted,
        )
        refl

  accepted→ :
      (p : ZkResponse) (out : Bytes)
      → check_zk_parsed S p ≡ ok (some out)
      → (contains_text (text "\"error\"") p.transcript_json ≡ false)
        × (out ≡ p.output_ct)
        × (proof_ok S p ≡ ok true)
  unfolding check_zk_parsed
  accepted→ p out h = elim (Bool-cases (contains_text (text "\"error\"") p.transcript_json)) [
    | inl error ↦ absurd (cc (rw error at h))
    | inr no_error ↦
        let (b, made, h') = >>=-eq-ok (proof_ok S p) _ (rw no_error at h) in
        let (chosen, same) = chosen→ b (cc h') in (no_error, same, made ∙ ap ok chosen)
  ]

  -- Of a response that fits a vector, the client of Prototype B decrypts an output exactly if it is
  -- the response's, the transcript does not say `"error"`, and the proof holds for the public inputs
  -- and under the key that the response brings, or any of these three parts is empty.
  pub check_zk_response_iff :
      (p : ZkResponse) (out : Bytes)
      → length (build_zk_response p) < 2 ^ 63
      → (check_zk_response S (build_zk_response p) ≡ ok (some out))
        ↔ (contains_text (text "\"error\"") p.transcript_json ≡ false)
          × (out ≡ p.output_ct)
          × (IsUnproved p ⊎ Proves S p.proof p.public_inputs p.vk)
  unfolding check_zk_response
  check_zk_response_iff p out fits = (
    λ h.
        let (no_error, same, accepted) = accepted→ p out (
          rw (parse_zk_response-build_zk_response zk_reader_error zk_trailing_error p fits) at
            (catch_none→ _ (rw (build_zk_response_filled p) at h))) in
        (
          no_error,
          same,
          elim (proof_ok_cases p) [
            | inl unproved ↦ inl unproved
            | inr is_verified ↦ inr ((verify_proof_iff S _ _ _).0 (sym is_verified ∙ accepted))
          ],
        ),
    λ (no_error, same, proof).
        let accepted : proof_ok S p ≡ ok true = elim proof [
          | inl unproved ↦ proof_ok_unproved p unproved
          | inr proves ↦ proof_ok-accepted p ((verify_proof_iff S _ _ _).1 proves)
        ] in
        check-accepted p fits no_error accepted ∙ ap (λ x. ok (some x)) (sym same),
  )

  module _ (F : ZkFhe S) (J : JsonLib) (B : Blake3) where
    module _ (registry : List (List ℕ × ZkWorkload S F)) (req : Bytes) (run : ZkRun) where
      -- What the client makes of a response that fits a vector.
      abbrev pub Decrypts : Bytes → Type 0
      Decrypts resp =
          ((e : List ℕ) × (resp ≡ build_zk_error_response e))
          ⊎ ((c : Carries S F J B registry req run) × (resp
                ≡ build_zk_response (carried S F J B registry req run c))
              × ((contains_text (text "\"error\"") c.json ≡ true)
                  ⊎ (check_zk_response S resp ≡ ok (some c.output))))

      accepted-carried :
          (c : Carries S F J B registry req run)
          → proof_ok S (carried S F J B registry req run c) ≡ ok true
      accepted-carried c = accepted_ok c.accepted
        where
          accepted_ok :
              IsAccepted S c.proved → proof_ok S (carried S F J B registry req run c) ≡ ok true
          accepted_ok (inl (no_proof, no_inputs, no_key)) =
              proof_ok_unproved (carried S F J B registry req run c) (inl (rw no_proof refl))
          accepted_ok (inr verified) =
              proof_ok-accepted (carried S F J B registry req run c) verified

      Decrypts-Sends :
          (cache : Cache S) (r : Outcome Bytes × Globals S F) (resp : Bytes)
          → Sends S F J B registry req run cache r
          → r.0 ≡ ok resp
          → length resp < 2 ^ 63
          → Decrypts resp
      Decrypts-Sends cache (ok resp', g) resp (inl (e, same), k) h fits = inl (e, cc)
      Decrypts-Sends cache (ok resp', g) resp (inr (c, same), k) h fits =
          let built : resp ≡ build_zk_response (carried S F J B registry req run c) = cc in
          inr (
            c,
            built,
            elim (Bool-cases (contains_text (text "\"error\"") c.json)) [
              | inl error ↦ inl error
              | inr no_error ↦ inr (
                  rw built (
                    check-accepted (carried S F J B registry req run c) (rw built at fits) no_error
                      (accepted-carried c)))
            ],
          )
      Decrypts-Sends cache (throw e, g) resp sends h fits = cc
      Decrypts-Sends cache (fault, g) resp sends h fits = cc

    -- A response of the server of Prototype B to any request, at any state, is an error response, or
    -- its transcript says `"error"`, or the client decrypts the output that it carries, if it fits a
    -- vector: no proof of the server is refused. libsnark must have its documented behaviour.
    pub respond_zk-check_zk_response :
        (L : IsSnark S) (registry : List (List ℕ × ZkWorkload S F)) (req : Bytes) (run : ZkRun)
        (g : Globals S F) (resp : Bytes)
        → (respond_zk S F J B registry req run g).0 ≡ ok resp
        → length resp < 2 ^ 63
        → Decrypts registry req run resp
    respond_zk-check_zk_response L registry req run g resp answered fits =
        Decrypts-Sends registry req run g.cache (respond_zk S F J B registry req run g) resp
          (respond_zk-Sends S F J B registry req run g.cache L g.keys) answered fits
