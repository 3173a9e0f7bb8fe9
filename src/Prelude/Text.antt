-- ===== src/Prelude/Text.antt =====
-- Texts and byte buffers are lists of numbers.
use Prim.Native.Nat.{ℕ, ◌<◌}
use Prim.Native.Char.{code}
use Prim.Native.String.{String}
use mathlib.Core.List.{List, [], ◌∷◌, ◌++◌}

abbrev pub Bytes : Type 0
Bytes = List ℕ

abbrev pub IsByte : ℕ → Type 0
IsByte b = b < 256

-- The characters of a literal.
abbrev pub text : String → List ℕ
text String.[] = []
text (String.◌∷◌ c s) = code c ∷ text s

abbrev pub All {ℓ κ} : {E : Type ℓ} (P : E → Type κ) → List E → Type κ
All P (e ∷ es) = P e × All P es
All P [] = Unit {κ}

pub All-append {ℓ κ} :
    {E : Type ℓ} (P : E → Type κ) (front back : List E)
    → All P front
    → All P back
    → All P (front ++ back)
All-append P [] back of_front of_back = of_back
All-append P (a ∷ front) back (of_first, of_front) of_back =
    (of_first, All-append P front back of_front of_back)
