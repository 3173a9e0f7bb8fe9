-- ===== src/Examples/ZkCircuits.antt =====
-- A context on numbers, and a proof system that keeps its public inputs and counts.
use khipu_v_fhe.Prelude.{ℕ, suc, ◌+◌, ◌*◌, ◌≡◌, refl, List, [], ◌∷◌, ◌++◌, map, ok}
use khipu_v_fhe.Zk.Circuits.{Bgv, ZkSystem, bgv_medium_eval, medium_eval_zk}
use khipu_v_fhe.Zk.Circuits.Agreement.{Reading, Builds, IsZk, medium_eval_zk-Builds}

abbrev numbers_bgv : Bgv
numbers_bgv = record {
  Ciphertext = ℕ;
  eval_mult_no_relin = λ x y. ok (x * y);
  eval_add = λ x y. ok (x + y);
}

record Counter : Type 0 where
  declared : List ℕ
  products : ℕ

abbrev counting_system : ZkSystem numbers_bgv
counting_system = record {
  ProofSystem = Counter;
  public_input = λ x s. ok (x, record { declared = s.declared ++ (x ∷ []); products = s.products });
  zk_mult_no_relin =
      λ x y s. ok (x * y, record { declared = s.declared; products = suc s.products });
  zk_add = λ x y s. ok (x + y, s);
}

abbrev counted : Reading counting_system ℕ
counted = record { value = λ x. x; publics = λ s. s.declared; mults = λ s. s.products }

counting_system-IsZk : IsZk counting_system counted
counting_system-IsZk = record {
  declares = λ c s. record {
    ct = c;
    ps = _;
    returned = refl;
    value_eq = refl;
    publics_eq = refl;
    mults_eq = refl;
  };
  multiplies = λ c1 c2 u d1 d2 s h h1 h2. record {
    ct = _;
    ps = _;
    returned = refl;
    value_eq = cc;
    publics_eq = refl;
    mults_eq = refl;
  };
  adds = λ c1 c2 u d1 d2 s h h1 h2. record {
    ct = _;
    ps = _;
    returned = refl;
    value_eq = cc;
    publics_eq = refl;
    mults_eq = refl;
  };
}

abbrev fresh : Counter
fresh = record { declared = []; products = 0 }

medium_on_numbers : bgv_medium_eval numbers_bgv (1 ∷ 2 ∷ 3 ∷ 4 ∷ 5 ∷ 6 ∷ []) ≡ ok 44
unfolding bgv_medium_eval
medium_on_numbers = refl

medium_eval_zk-Builds_example :
    Builds counting_system counted
      (medium_eval_zk numbers_bgv counting_system (1 ∷ 2 ∷ 3 ∷ 4 ∷ 5 ∷ 6 ∷ []) fresh)
      44
      ([] ++ map (λ x. x) (1 ∷ 2 ∷ 3 ∷ 4 ∷ 5 ∷ 6 ∷ []))
      (3 + 0)
medium_eval_zk-Builds_example =
    medium_eval_zk-Builds counting_system counted counting_system-IsZk 1 2 3 4 5 6 44 fresh
      medium_on_numbers
