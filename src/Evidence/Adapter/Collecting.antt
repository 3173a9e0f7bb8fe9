-- ===== src/Evidence/Adapter/Collecting.antt =====
-- The evidence that is collected is for the nonce, and no handle is left behind.
use khipu_v_fhe.Prelude.{
  ℕ, suc, ◌-◌, ◌^◌, ◌<◌, ◌≡◌, ◌≢◌, ◌↔◌, refl, sym, ap, ◌∙◌, arith, min, List, [], ◌∷◌, append-nil,
  Bytes, Bool, true, false, Outcome, ok, length, length-append, length-take, length-drop,
  length-replicate, take, drop, replicate, if◌then◌else◌, Option, none, some, ◌⊎◌, inl, inr,
}
use khipu_v_fhe.Evidence.{
  GpuEvidencePackage, serialize, deserialize, nonce_array, verify_gpu_evidence,
}
use khipu_v_fhe.Evidence.Package.{deserialize-serialize, verify_gpu_evidence_iff}
use khipu_v_fhe.Evidence.Adapter.{
  Nvat, Handle, Event, created, freed, fetched, collected, with_array, with_source, with_nonce,
  collect_evidence, opts, nonce, source, array, str,
}

-- How many handles of one kind are open after the events.
abbrev pub same_kind : Handle → Handle → Bool
same_kind opts opts = true
same_kind nonce nonce = true
same_kind source source = true
same_kind array array = true
same_kind str str = true
same_kind _ _ = false

abbrev pub open_after : Handle → List Event → ℕ → ℕ
open_after h [] n = n
open_after h (created k ∷ es) n = open_after h es (if same_kind h k then suc n else n)
open_after h (freed k ∷ es) n = open_after h es (if same_kind h k then n - 1 else n)

by_kind :
    (es : List Event)
    → open_after opts es 0 ≡ 0
    → open_after nonce es 0 ≡ 0
    → open_after source es 0 ≡ 0
    → open_after array es 0 ≡ 0
    → open_after str es 0 ≡ 0
    → (h : Handle) → open_after h es 0 ≡ 0
by_kind es o n s a t opts = o
by_kind es o n s a t nonce = n
by_kind es o n s a t source = s
by_kind es o n s a t array = a
by_kind es o n s a t str = t

-- Nothing that the events create stays open.
abbrev pub AllFreed : List Event → Type 0
AllFreed es = (h : Handle) → open_after h es 0 ≡ 0

left_open : (es : List Event) (h : Handle) {C : Type 0} → open_after h es 0 ≡ 1 → AllFreed es → C
left_open es h one all = absurd (cc (sym one ∙ all h))

module _ (N : Nvat) where
  -- What the calls of the SDK must give, one after the other, for a run that leaves nothing open: a
  -- call that fails has not set its handle, and an array that is not null has elements.
  abbrev pub CleanText : (List ℕ × Bool) ⊎ Bytes → Type 0
  CleanText (inl (e, made)) = made ≡ false
  CleanText (inr json) = Unit

  abbrev pub CleanArray : (List ℕ × Bool) ⊎ Option (List N.GpuEvidence) → Type 0
  CleanArray (inl (e, made)) = made ≡ false
  CleanArray (inr none) = Unit
  CleanArray (inr (some [])) = ⊥
  CleanArray (inr (some (x ∷ xs))) = CleanText (N.serialize_json (x ∷ xs))

  abbrev pub CleanSource : Bytes → Option (List ℕ × Bool) → Type 0
  CleanSource nonce_bytes (some (e, made)) = made ≡ false
  CleanSource nonce_bytes none = CleanArray (N.evidence_collect nonce_bytes)

  abbrev pub CleanNonce : Bytes → Option (List ℕ × Bool) → Type 0
  CleanNonce nonce_bytes (some (e, made)) = made ≡ false
  CleanNonce nonce_bytes none = CleanSource nonce_bytes N.source_nvml_create

  -- What a run may give: an error, or a package for the nonce; and when nothing is left open.
  pub record Collects (nonce_bytes : Bytes) (clean : Type 0)
      (run : Outcome GpuEvidencePackage × List Event) : Type 0 where
    pub freed_iff : AllFreed run.1 ↔ clean
    pub for_nonce : (pkg : GpuEvidencePackage) → run.0 ≡ ok pkg → pkg.nonce ≡ nonce_bytes

  collected-Collects :
      (nonce_bytes : Bytes) (o : (List ℕ × Bool) ⊎ Bytes)
      → Collects nonce_bytes (CleanText o) (collected N nonce_bytes o)
  collected-Collects nonce_bytes (inl (e, true)) = record {
    freed_iff = (left_open (fetched N true (created str ∷ freed array ∷ [])) str refl, λ h. cc);
    for_nonce = λ pkg h. cc;
  }
  collected-Collects nonce_bytes (inl (e, false)) = record {
    freed_iff =
        (λ h. refl, λ h. by_kind (fetched N true (freed array ∷ [])) refl refl refl refl refl);
    for_nonce = λ pkg h. cc;
  }
  collected-Collects nonce_bytes (inr json) = record {
    freed_iff = (
      λ h. tt,
      λ h.
          by_kind (fetched N true (created str ∷ freed array ∷ freed str ∷ [])) refl refl refl refl
            refl,
    );
    for_nonce = λ pkg h. cc;
  }

  with_array-Collects :
      (nonce_bytes : Bytes) (o : (List ℕ × Bool) ⊎ Option (List N.GpuEvidence))
      → Collects nonce_bytes (CleanArray o) (with_array N nonce_bytes o)
  with_array-Collects nonce_bytes (inl (e, true)) = record {
    freed_iff = (left_open (fetched N true []) array refl, λ h. cc);
    for_nonce = λ pkg h. cc;
  }
  with_array-Collects nonce_bytes (inl (e, false)) = record {
    freed_iff = (λ h. refl, λ h. by_kind (fetched N false []) refl refl refl refl refl);
    for_nonce = λ pkg h. cc;
  }
  with_array-Collects nonce_bytes (inr none) = record {
    freed_iff = (λ h. tt, λ h. by_kind (fetched N false []) refl refl refl refl refl);
    for_nonce = λ pkg h. cc;
  }
  with_array-Collects nonce_bytes (inr (some [])) = record {
    freed_iff = (left_open (fetched N true []) array refl, λ h. absurd h);
    for_nonce = λ pkg h. cc;
  }
  with_array-Collects nonce_bytes (inr (some (x ∷ xs))) =
      collected-Collects nonce_bytes (N.serialize_json (x ∷ xs))

  with_source-Collects :
      (nonce_bytes : Bytes) (o : Option (List ℕ × Bool))
      → Collects nonce_bytes (CleanSource nonce_bytes o) (with_source N nonce_bytes o)
  with_source-Collects nonce_bytes (some (e, true)) = record {
    freed_iff =
        (left_open (created nonce ∷ created source ∷ freed nonce ∷ []) source refl, λ h. cc);
    for_nonce = λ pkg h. cc;
  }
  with_source-Collects nonce_bytes (some (e, false)) = record {
    freed_iff =
        (λ h. refl, λ h. by_kind (created nonce ∷ freed nonce ∷ []) refl refl refl refl refl);
    for_nonce = λ pkg h. cc;
  }
  with_source-Collects nonce_bytes none =
      with_array-Collects nonce_bytes (N.evidence_collect nonce_bytes)

  with_nonce-Collects :
      (nonce_bytes : Bytes) (o : Option (List ℕ × Bool))
      → Collects nonce_bytes (CleanNonce nonce_bytes o) (with_nonce N nonce_bytes o)
  with_nonce-Collects nonce_bytes (some (e, true)) = record {
    freed_iff = (left_open (created nonce ∷ []) nonce refl, λ h. cc);
    for_nonce = λ pkg h. cc;
  }
  with_nonce-Collects nonce_bytes (some (e, false)) = record {
    freed_iff = (λ h. refl, λ h k. refl);
    for_nonce = λ pkg h. cc;
  }
  with_nonce-Collects nonce_bytes none = with_source-Collects nonce_bytes N.source_nvml_create

  abbrev pub IsClean : Bool → Bytes → Type 0
  IsClean true nonce_bytes = CleanNonce nonce_bytes (N.nonce_from_bytes nonce_bytes)
  IsClean false nonce_bytes = Unit

  -- Whatever the calls of the SDK give, `collect_evidence` has freed every handle that was created when
  -- it returns or throws, exactly if it was not initialized, or no call of the SDK that it made set a
  -- handle and failed and the array is null or has elements; and a package that it returns has the nonce
  -- that was asked for.
  pub collect_evidence-Collects :
      (initialized : Bool) (nonce_bytes : Bytes)
      → Collects nonce_bytes
          (IsClean initialized nonce_bytes)
          (collect_evidence N initialized nonce_bytes)
  unfolding collect_evidence
  collect_evidence-Collects true nonce_bytes =
      with_nonce-Collects nonce_bytes (N.nonce_from_bytes nonce_bytes)
  collect_evidence-Collects false nonce_bytes = record {
    freed_iff = (λ h. tt, λ h k. refl);
    for_nonce = λ pkg h. cc;
  }

length-nonce_array : (nonce_bytes : Bytes) → length (nonce_array nonce_bytes) ≡ 32
unfolding nonce_array
length-nonce_array nonce_bytes = omega (
  arith,
  length-append (take (min (length nonce_bytes) 32) nonce_bytes)
      (drop (min (length nonce_bytes) 32) (replicate {A = ℕ} 32 0)),
  length-take (min (length nonce_bytes) 32) nonce_bytes,
  length-drop (min (length nonce_bytes) 32) (replicate {A = ℕ} 32 0),
  length-replicate {A = ℕ} 32 0,
)

-- Evidence that the server collects for the client's nonce, cut or padded to 32 bytes, is accepted by
-- the client once it is serialized, if it has some JSON and its sizes fit 32 bits.
pub verify_gpu_evidence-collect_evidence :
    (N : Nvat) (initialized : Bool) (client_nonce : Bytes) (pkg : GpuEvidencePackage)
    → (collect_evidence N initialized (nonce_array client_nonce)).0 ≡ ok pkg
    → length pkg.evidence_json < 2 ^ 32
    → length pkg.detached_eat < 2 ^ 32
    → length pkg.claims_json < 2 ^ 32
    → pkg.evidence_json ≢ []
    → verify_gpu_evidence (serialize pkg) client_nonce ≡ true
verify_gpu_evidence-collect_evidence N initialized client_nonce pkg e h1 h2 h3 filled =
    let fresh =
      (collect_evidence-Collects N initialized (nonce_array client_nonce)).for_nonce pkg e in
    let size : length pkg.nonce ≡ 32 = ap length fresh ∙ length-nonce_array client_nonce in
    let back : deserialize (serialize pkg) ≡ ok pkg =
      ap deserialize (sym (append-nil (serialize pkg)))
      ∙ deserialize-serialize pkg [] h1 h2 h3 size in
    (verify_gpu_evidence_iff (serialize pkg) client_nonce).1 (pkg, back, fresh, filled)
