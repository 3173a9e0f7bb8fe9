-- ===== src/Zk/Client/Main/Overriding.antt =====
-- The defaults of the workloads override the options of the client of Prototype B.
use khipu_v_fhe.Prelude.{
  ℕ, ◌≡◌, refl, ap, List, [], ◌∷◌, Bool, true, false, ◌||◌, bytes_eq, Bool-cases, inl, inr, ◌⊎◌,
  ◌++◌, sym, subst, ℤ, pos,
}
use khipu_v_fhe.Zk.{Snark}
use khipu_v_fhe.Zk.Client.Options.{
  ZkOptions, WorkloadDefaults, zk_run_with, zk_workload_defaults, overridden,
}
use khipu_v_fhe.Zk.Client.Main.{ZkClientFhe, ZkClientWorkload, ZkOutside, zk_run_client, zk_started}

-- Whether a workload has an entry.
abbrev pub is_listed : List ℕ → List WorkloadDefaults → Bool
is_listed workload_id [] = false
is_listed workload_id (wd ∷ wds) = bytes_eq workload_id wd.id || is_listed workload_id wds

abbrev pub with_sizes : ZkOptions → ℤ → ℤ → ZkOptions
with_sizes o n s = record o { num_inputs = n; slots = s }

overridden-with_sizes :
    (wds : List WorkloadDefaults) (o : ZkOptions) (n s : ℤ)
    → is_listed o.workload_id wds ≡ true
    → overridden wds (with_sizes o n s) ≡ overridden wds o
unfolding overridden
overridden-with_sizes [] o n s listed = cc
overridden-with_sizes (wd ∷ wds) o n s listed = elim (Bool-cases (bytes_eq o.workload_id wd.id)) [
  | inl e ↦ rw e refl
  | inr e ↦ rw e (overridden-with_sizes wds o n s (rw e at listed))
]

-- The first entry of the workload gives the sizes; without one the options stay as they are.
pub record Entry (wds : List WorkloadDefaults) (given o : ZkOptions) : Type 0 where
  pub before : List WorkloadDefaults
  pub wd : WorkloadDefaults
  pub later : List WorkloadDefaults
  pub split : wds ≡ before ++ (wd ∷ later)
  pub first : is_listed given.workload_id before ≡ false
  pub named : bytes_eq given.workload_id wd.id ≡ true
  pub sized : o ≡ with_sizes given (pos wd.num_inputs) (pos wd.slots)

abbrev pub Adjusts : List WorkloadDefaults → ZkOptions → ZkOptions → Type 0
Adjusts wds given o = ((is_listed given.workload_id wds ≡ false) × (o ≡ given)) ⊎ Entry wds given o

later_entry :
    (x : WorkloadDefaults) (wds : List WorkloadDefaults) (given o : ZkOptions)
    → bytes_eq given.workload_id x.id ≡ false
    → Adjusts wds given o
    → Adjusts (x ∷ wds) given o
later_entry x wds given o other (inl (unlisted, same)) = inl (rw (other, unlisted) refl, same)
later_entry x wds given o other (inr e) = inr (record {
  before = x ∷ e.before;
  wd = e.wd;
  later = e.later;
  split = ap (λ l. x ∷ l) e.split;
  first = rw (other, e.first) refl;
  named = e.named;
  sized = e.sized;
})

pub overridden-Adjusts :
    (wds : List WorkloadDefaults) (o : ZkOptions) → Adjusts wds o (overridden wds o)
unfolding overridden
overridden-Adjusts [] o = inl (refl, refl)
overridden-Adjusts (wd ∷ wds) o = elim (Bool-cases (bytes_eq o.workload_id wd.id)) [
  | inl e ↦ inr (record {
    before = [];
    wd = wd;
    later = wds;
    split = refl;
    first = refl;
    named = e;
    sized = rw e refl;
  })
  | inr e ↦
      let rest = later_entry wd wds o (overridden wds o) e (overridden-Adjusts wds o) in
      let skipped : overridden (wd ∷ wds) o ≡ overridden wds o = rw e refl in
      subst (Adjusts (wd ∷ wds) o) (sym skipped) rest
]

module _ (F : ZkClientFhe) (S : Snark) (registry : List (List ℕ × ZkClientWorkload F))
    (world : ZkOutside F) where
  -- For a workload with an entry in the client's table of defaults, the run does not depend on the
  -- numbers of inputs and slots that the options give.
  pub zk_started-with_sizes :
      (o : ZkOptions) (n s : ℤ)
      → is_listed o.workload_id zk_workload_defaults ≡ true
      → zk_started F S registry world (zk_run_with (with_sizes o n s))
        ≡ zk_started F S registry world (zk_run_with o)
  zk_started-with_sizes o n s listed =
      ap (λ o'. zk_run_client F S registry world o')
        (overridden-with_sizes zk_workload_defaults o n s listed)
