-- ===== src/Libraries/Instances.antt =====
-- Concrete libraries that meet the laws: a value is a flat object or what is stored in one, text is
-- a sequence of counted parts, and a digest is the first 32 bytes.
use khipu_v_fhe.Prelude.{
  ℕ, zero, suc, ◌%◌, ◌≡◌, refl, ap, ◌∙◌, arith, List, [], ◌∷◌, ◌++◌, append_assoc, map, Bytes,
  IsByte, All, Outcome, ok, throw, Option, none, some, text, length, length-append, length-take,
  length-replicate, take, take-append, drop, drop-append, replicate,
}
use khipu_v_fhe.Libraries.{Blake3, Field, str, num, strs, Fields, assigned, JsonLib, Holds, IsJson}

abbrev pub write_texts : List (List ℕ) → List ℕ
write_texts [] = []
write_texts (s ∷ ss) = length s ∷ (s ++ write_texts ss)

abbrev pub write_field : Field → List ℕ
write_field (str s) = 0 ∷ length s ∷ s
write_field (num n) = 1 ∷ n ∷ []
write_field (strs ss) = 2 ∷ length ss ∷ write_texts ss

abbrev pub write_fields : Fields → List ℕ
write_fields [] = []
write_fields ((k, v) ∷ fs) = length k ∷ (k ++ (write_field v ++ write_fields fs))

abbrev pub read_texts : ℕ → List ℕ → List (List ℕ) × List ℕ
read_texts zero xs = ([], xs)
read_texts (suc n) [] = ([], [])
read_texts (suc n) (l ∷ xs) = let r = read_texts n (drop l xs) in (take l xs ∷ r.0, r.1)

abbrev pub read_field : List ℕ → Field × List ℕ
read_field (zero ∷ n ∷ xs) = (str (take n xs), drop n xs)
read_field (suc zero ∷ n ∷ xs) = (num n, xs)
read_field (suc (suc zero) ∷ n ∷ xs) = let r = read_texts n xs in (strs r.0, r.1)
read_field _ = (num 0, [])

abbrev pub read_fields : ℕ → List ℕ → Fields
read_fields zero xs = []
read_fields (suc n) [] = []
read_fields (suc n) (l ∷ xs) =
    let r = read_field (drop l xs) in (take l xs, r.0) ∷ read_fields n r.1

read_texts-write_texts :
    (ss : List (List ℕ)) (rest : List ℕ)
    → read_texts (length ss) (write_texts ss ++ rest) ≡ (ss, rest)
read_texts-write_texts [] rest = refl
read_texts-write_texts (s ∷ ss) rest =
    rw
      (
        append_assoc s (write_texts ss) rest,
        take-append s (write_texts ss ++ rest),
        drop-append s (write_texts ss ++ rest),
        read_texts-write_texts ss rest,
      )
      refl

read_field-write_field :
    (v : Field) (rest : List ℕ) → read_field (write_field v ++ rest) ≡ (v, rest)
read_field-write_field (str s) rest = rw (take-append s rest, drop-append s rest) refl
read_field-write_field (num n) rest = refl
read_field-write_field (strs ss) rest = rw (read_texts-write_texts ss rest) refl

read_fields-write_fields : (fs : Fields) → read_fields (length fs) (write_fields fs) ≡ fs
read_fields-write_fields [] = refl
read_fields-write_fields ((k, v) ∷ fs) =
    rw
      (
        take-append k (write_field v ++ write_fields fs),
        drop-append k (write_field v ++ write_fields fs),
        read_field-write_field v (write_fields fs),
        read_fields-write_fields fs,
      )
      refl

pub data Value : Type 0 where
  object : Fields → Value
  leaf : Field → Value

abbrev pub get_text : Value → Outcome (List ℕ)
get_text (leaf (str s)) = ok s
get_text _ = throw (text "type_error")

abbrev pub dump : Value → Outcome (List ℕ)
dump (object fs) = ok (length fs ∷ write_fields fs)
dump (leaf v) = throw (text "type_error")

abbrev pub parse : List ℕ → Outcome Value
parse [] = throw (text "parse_error")
parse (n ∷ xs) = ok (object (read_fields n xs))

abbrev pub stored : Option Field → Outcome Value
stored none = throw (text "out_of_range")
stored (some v) = ok (leaf v)

abbrev pub at : Value → List ℕ → Outcome Value
at (object fs) k = stored (assigned k fs)
at (leaf v) k = throw (text "type_error")

-- An array's elements; an object stands for the array that holds it.
abbrev pub elements : Value → List Value
elements (leaf (strs ss)) = map (λ s. leaf (str s)) ss
elements (object fs) = object fs ∷ []
elements _ = []

abbrev pub number : Option Field → ℕ → Outcome ℕ
number none d = ok d
number (some (num n)) d = ok n
number (some _) d = throw (text "type_error")

abbrev pub value : Value → List ℕ → ℕ → Outcome ℕ
value (object fs) k d = number (assigned k fs) d
value (leaf v) k d = throw (text "type_error")

abbrev pub flat_json : JsonLib
flat_json = record {
  Json = Value;
  object = object;
  dump = dump;
  parse = parse;
  at = at;
  get_string = get_text;
  elements = elements;
  value = value;
}

texts-Holds : (ss : List (List ℕ)) → map get_text (map (λ s. leaf (str s)) ss) ≡ map ok ss
texts-Holds [] = refl
texts-Holds (s ∷ ss) = rw (texts-Holds ss) refl

leaf-Holds : (v : Field) → Holds flat_json (leaf v) v
leaf-Holds (str s) = refl
leaf-Holds (num n) = tt
leaf-Holds (strs ss) = texts-Holds ss

pub flat_json-IsJson : IsJson flat_json
flat_json-IsJson = record {
  parse-dump = λ fs h.
      (length fs ∷ write_fields fs, refl, ap (λ gs. ok (object gs)) (read_fields-write_fields fs));
  at-object = λ fs k v e. (leaf v, ap stored e, leaf-Holds v);
  value-object = λ fs k n d e h. ap (λ o. number o d) e;
  value-missing = λ fs k d e. ap (λ o. number o d) e;
}

abbrev pub short_hash : Bytes → Bytes
short_hash input = map (λ b. b % 256) (take 32 (input ++ replicate 32 0))

pub length-map : (f : ℕ → ℕ) (xs : List ℕ) → length (map f xs) ≡ length xs
length-map f [] = refl
length-map f (x ∷ xs) = ap suc (length-map f xs)

pub map-IsByte : (xs : List ℕ) → All IsByte (map (λ b. b % 256) xs)
map-IsByte [] = tt
map-IsByte (x ∷ xs) = (omega arith, map-IsByte xs)

abbrev pub short_blake3 : Blake3
short_blake3 = record {
  hash = short_hash;
  length-hash = λ input.
      let n : length (take 32 (input ++ replicate 32 0)) ≡ 32 = omega (
        arith,
        length-take 32 (input ++ replicate 32 0),
        length-append input (replicate 32 0),
        length-replicate {A = ℕ} 32 0,
      ) in
      length-map (λ b. b % 256) (take 32 (input ++ replicate 32 0)) ∙ n;
  hash-IsByte = λ input. map-IsByte (take 32 (input ++ replicate 32 0));
}
