-- ===== src/Examples/Adapters.antt =====
-- An SDK that finds one GPU, and a run against it.
use khipu_v_fhe.Prelude.{[], ◌∷◌, Bytes, true, text, replicate, none, some, inr}
use khipu_v_fhe.Evidence.Adapter.{Nvat, collect_evidence}
use khipu_v_fhe.Evidence.Adapter.Collecting.{Collects, IsClean, collect_evidence-Collects}

abbrev pub one_gpu : Nvat
one_gpu = record {
  GpuEvidence = Bytes;
  sdk_opts_create = none;
  sdk_init = none;
  nonce_from_bytes = λ b. none;
  source_nvml_create = none;
  evidence_collect = λ b. inr (some (b ∷ []));
  serialize_json = λ es. inr (text "[{}]");
}

collect_evidence-Collects_example :
    Collects one_gpu
      (replicate 32 5)
      (IsClean one_gpu true (replicate 32 5))
      (collect_evidence one_gpu true (replicate 32 5))
collect_evidence-Collects_example = collect_evidence-Collects one_gpu true (replicate 32 5)
