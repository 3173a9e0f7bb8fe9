-- ===== src/Libraries.antt =====
-- The libraries that the program only calls: BLAKE3 (thirdparty/blake3) and nlohmann/json
-- (thirdparty/nlohmann), as parameters with the laws that the program relies on.
pub mod Instances
use khipu_v_fhe.Prelude.{
  ℕ, ◌≡◌, ◌<◌, ◌^◌, List, [], ◌∷◌, map, Bytes, IsByte, All, Outcome, ok, Option, none, some, length,
  bytes_eq, if◌then◌else◌,
}

-- `blake3_hasher_init`, `_update` over the data and `_finalize` into 32 bytes.
pub record Blake3 : Type 0 where
  pub hash : Bytes → Bytes
  pub length-hash : (input : Bytes) → length (hash input) ≡ 32
  pub hash-IsByte : (input : Bytes) → All IsByte (hash input)

-- What the program stores under a key: a string, an unsigned number, or an array of strings.
pub data Field : Type 0 where
  str : List ℕ → Field
  num : ℕ → Field
  strs : List (List ℕ) → Field

abbrev pub Fields : Type 0
Fields = List (List ℕ × Field)

-- The last value stored under a key.
abbrev pub assigned : List ℕ → Fields → Option Field
assigned k [] = none
assigned k ((j, v) ∷ fs) = elim (assigned k fs) [
  | some w ↦ some w
  | none ↦ if bytes_eq j k then some v else none
]

-- Characters that `dump` takes as they are valid UTF-8 one by one.
abbrev pub IsAscii : List ℕ → Type 0
IsAscii = All (λ c. c < 128)

abbrev pub FieldIsFine : Field → Type 0
FieldIsFine (str s) = IsAscii s
FieldIsFine (num n) = n < 2 ^ 64
FieldIsFine (strs ss) = All IsAscii ss

-- `nlohmann::json`. `object fs` is `json j; j[k] = v; …` over the fields in order.
pub record JsonLib : Type 1 where
  pub Json : Type 0
  pub object : Fields → Json
  pub dump : Json → Outcome (List ℕ)
  pub parse : List ℕ → Outcome Json
  pub at : Json → List ℕ → Outcome Json
  pub get_string : Json → Outcome (List ℕ)
  pub elements : Json → List Json
  pub value : Json → List ℕ → ℕ → Outcome ℕ

module _ (J : JsonLib) where
  open J use {Json, object, dump, parse, at, get_string, elements, value}

  -- What reading a stored value back gives.
  abbrev pub Holds : Json → Field → Type 0
  Holds j (str s) = get_string j ≡ ok s
  Holds j (num n) = Unit
  Holds j (strs ss) = map get_string (elements j) ≡ map ok ss

  -- The documented behaviour: text that was dumped parses to the same object, `at` finds what was
  -- stored, and `value` gives a stored number, or the default if the key is missing.
  pub record IsJson : Type 0 where
    pub parse-dump :
        (fs : Fields)
        → All (λ (k, v). IsAscii k × FieldIsFine v) fs
        → (s : List ℕ) × (dump (object fs) ≡ ok s) × (parse s ≡ ok (object fs))
    pub at-object :
        (fs : Fields) (k : List ℕ) (v : Field)
        → assigned k fs ≡ some v
        → (j : Json) × (at (object fs) k ≡ ok j) × Holds j v
    pub value-object :
        (fs : Fields) (k : List ℕ) (n d : ℕ)
        → assigned k fs ≡ some (num n)
        → n < 2 ^ 64
        → value (object fs) k d ≡ ok n
    pub value-missing :
        (fs : Fields) (k : List ℕ) (d : ℕ) → assigned k fs ≡ none → value (object fs) k d ≡ ok d
