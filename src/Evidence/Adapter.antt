-- ===== src/Evidence/Adapter.antt =====
-- `H100EvidenceAdapter::init` and `collect_evidence`, with the handles of the NVTrust SDK that they
-- create and free.
pub mod Collecting
use khipu_v_fhe.Prelude.{
  ℕ, zero, suc, ◌+◌, ◌-◌, ◌≡◌, List, [], ◌∷◌, ◌++◌, Bytes, Bool, true, false, not, Outcome, ok,
  throw, text, is_empty, if◌then◌else◌, Option, none, some, ◌⊎◌, inl, inr,
}
use khipu_v_fhe.Evidence.{GpuEvidencePackage}

-- The calls of the SDK. A return code that is not OK comes with the text of `nvat_rc_to_string`, and with
-- whether the call has set its handle all the same (sdk_opts_create is taken not to). The array that
-- evidence_collect gives may be null, or have no elements.
pub record Nvat : Type 1 where
  pub GpuEvidence : Type 0
  pub sdk_opts_create : Option (List ℕ)
  pub sdk_init : Option (List ℕ)
  pub nonce_from_bytes : Bytes → Option (List ℕ × Bool)
  pub source_nvml_create : Option (List ℕ × Bool)
  pub evidence_collect : Bytes → (List ℕ × Bool) ⊎ Option (List GpuEvidence)
  pub serialize_json : List GpuEvidence → (List ℕ × Bool) ⊎ Bytes

pub data Handle : Type 0 where
  opts nonce source array str : Handle

-- What the adapter does to handles, in order.
pub data Event : Type 0 where
  created freed : Handle → Event

module _ (N : Nvat) where
  open N use {
    GpuEvidence, sdk_opts_create, sdk_init, nonce_from_bytes, source_nvml_create, evidence_collect,
    serialize_json,
  }

  abbrev pub after_opts : Option (List ℕ) → Bool × List Event
  after_opts none = (true, created opts ∷ freed opts ∷ [])
  after_opts (some e) = (false, created opts ∷ freed opts ∷ [])

  abbrev pub begin : Option (List ℕ) → Option (List ℕ) → Bool × List Event
  begin (some e) started = (false, [])
  begin none started = after_opts started

  -- Given `initialized_`: what is returned, which is also `initialized_` afterwards.
  unfoldable pub init : Bool → Bool × List Event
  init initialized = if initialized then (true, []) else begin sdk_opts_create sdk_init

  -- A call that fails may have set its handle.
  abbrev pub if_made : Bool → Handle → List Event → List Event
  if_made true h later = created h ∷ later
  if_made false h later = later

  -- The array, if it is not null, comes before the source and the nonce are freed.
  abbrev pub fetched : Bool → List Event → List Event
  fetched made later =
      created nonce ∷ created source ∷ if_made made array (freed source ∷ freed nonce ∷ later)

  abbrev pub collected : Bytes → (List ℕ × Bool) ⊎ Bytes → Outcome GpuEvidencePackage × List Event
  collected nonce_bytes (inl (e, made)) = (
    throw (text "[h100] serialize_json: " ++ e),
    fetched true (if_made made str (freed array ∷ [])),
  )
  collected nonce_bytes (inr json) = (
    ok (record { evidence_json = json; detached_eat = []; claims_json = []; nonce = nonce_bytes }),
    fetched true (created str ∷ freed array ∷ freed str ∷ []),
  )

  -- An array that comes with an error, or has no elements, is not freed.
  abbrev pub with_array :
      Bytes → (List ℕ × Bool) ⊎ Option (List GpuEvidence) → Outcome GpuEvidencePackage × List Event
  with_array nonce_bytes (inl (e, made)) =
      (throw (text "[h100] evidence_collect: " ++ e), fetched made [])
  with_array nonce_bytes (inr none) =
      (throw (text "[h100] no GPU evidence collected"), fetched false [])
  with_array nonce_bytes (inr (some [])) =
      (throw (text "[h100] no GPU evidence collected"), fetched true [])
  with_array nonce_bytes (inr (some (x ∷ xs))) = collected nonce_bytes (serialize_json (x ∷ xs))

  abbrev pub with_source : Bytes → Option (List ℕ × Bool) → Outcome GpuEvidencePackage × List Event
  with_source nonce_bytes (some (e, made)) = (
    throw (text "[h100] source_nvml_create: " ++ e),
    created nonce ∷ if_made made source (freed nonce ∷ []),
  )
  with_source nonce_bytes none = with_array nonce_bytes (evidence_collect nonce_bytes)

  abbrev pub with_nonce : Bytes → Option (List ℕ × Bool) → Outcome GpuEvidencePackage × List Event
  with_nonce nonce_bytes (some (e, made)) =
      (throw (text "[h100] nonce_from_bytes: " ++ e), if_made made nonce [])
  with_nonce nonce_bytes none = with_source nonce_bytes source_nvml_create

  unfoldable pub collect_evidence : Bool → Bytes → Outcome GpuEvidencePackage × List Event
  collect_evidence initialized nonce_bytes =
      if not initialized
      then (throw (text "[h100] not initialized"), [])
      else with_nonce nonce_bytes (nonce_from_bytes nonce_bytes)
