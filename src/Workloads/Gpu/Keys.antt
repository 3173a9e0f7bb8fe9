-- ===== src/Workloads/Gpu/Keys.antt =====
-- The rotations that the GPU needs keys for.
use khipu_v_fhe.Prelude.{
  ℕ, zero, suc, ◌^◌, false, ◌+◌, ◌-◌, ◌*◌, ◌%◌, ◌≤◌, ◌<◌, ◌≡◌, refl, ap, ◌∙◌, subst, ◌++◌, arith,
  List, [], ◌∷◌, Bool, true, ◌&&◌, ok, ltb, ltb→lt, Bool-cases, inl, inr,
}
use native.Mathlib.Nat.{pow-suc, mul_assoc}
use khipu_v_fhe.Workloads.{Rotation, left, right}
use khipu_v_fhe.Workloads.Slots.{has_rotation}
use khipu_v_fhe.Workloads.Gpu.{
  reduce_rotation, emit_step, emit_from, emit_accumulate_indices, emit_accumulate_cascade_indices,
  logreg_rotation_indices,
}

-- The slot that a rotation brings to slot `i` of 32768.
abbrev pub source_slot : ℕ → Rotation → ℕ
source_slot i (left d) = (i + d) % 32768
source_slot i (right d) = (i + (32768 - d % 32768)) % 32768

-- How far a rotation goes.
abbrev pub width : Rotation → ℕ
width (left d) = d
width (right d) = d

-- A reduced rotation moves every slot as the raw index does, and by at most half of the slots.
pub reduce_rotation_lem :
    (idx i : ℕ)
    → i < 32768
    → (source_slot i (reduce_rotation idx) ≡ (i + idx) % 32768)
      × (width (reduce_rotation idx) ≤ 16384)
unfolding reduce_rotation
reduce_rotation_lem idx i h = elim (Bool-cases (ltb 16384 ((idx % 32768 + 32768) % 32768))) [
  | inl far ↦ rw far (omega (arith, ltb→lt _ _ far), omega (arith, ltb→lt _ _ far))
  | inr near ↦ rw near (omega arith, small ((idx % 32768 + 32768) % 32768) near)
]
  where
    small : (r : ℕ) → ltb 16384 r ≡ false → r ≤ 16384
    small r h = ground arith

-- There is a key for each of these rotations.
abbrev pub has_rotations : List Rotation → List Rotation → Bool
has_rotations rotations [] = true
has_rotations rotations (r ∷ rs) = has_rotation rotations r && has_rotations rotations rs

-- What the generators come to for the sums over 128 rows of 256 columns.
abbrev pub row_indices : List Rotation
row_indices =
    left 1
    ∷ left 2
    ∷ left 3
    ∷ left 4
    ∷ left 8
    ∷ left 12
    ∷ left 16
    ∷ left 32
    ∷ left 48
    ∷ left 64
    ∷ left 128
    ∷ left 192
    ∷ []

abbrev pub spread_indices : List Rotation
spread_indices =
    right 1
    ∷ right 2
    ∷ right 3
    ∷ right 4
    ∷ right 8
    ∷ right 12
    ∷ right 16
    ∷ right 32
    ∷ right 48
    ∷ right 64
    ∷ right 128
    ∷ right 192
    ∷ []

abbrev pub column_indices : List Rotation
column_indices =
    left 256
    ∷ left 512
    ∷ left 768
    ∷ left 1024
    ∷ left 2048
    ∷ left 3072
    ∷ left 4096
    ∷ left 8192
    ∷ left 12288
    ∷ left 16384
    ∷ []

abbrev pub gpu_rotations : List Rotation
gpu_rotations =
    right 192
    ∷ right 128
    ∷ right 64
    ∷ right 48
    ∷ right 32
    ∷ right 16
    ∷ right 12
    ∷ right 8
    ∷ right 4
    ∷ right 3
    ∷ right 2
    ∷ right 1
    ∷ left 1
    ∷ left 2
    ∷ left 3
    ∷ left 4
    ∷ left 5
    ∷ left 6
    ∷ left 7
    ∷ left 8
    ∷ left 9
    ∷ left 10
    ∷ left 11
    ∷ left 12
    ∷ left 13
    ∷ left 14
    ∷ left 15
    ∷ left 16
    ∷ left 32
    ∷ left 48
    ∷ left 64
    ∷ left 128
    ∷ left 192
    ∷ left 256
    ∷ left 257
    ∷ left 512
    ∷ left 768
    ∷ left 1024
    ∷ left 2048
    ∷ left 3072
    ∷ left 4096
    ∷ left 8192
    ∷ left 12288
    ∷ left 16384
    ∷ []

pub logreg_rotation_indices_lem : logreg_rotation_indices ≡ ok gpu_rotations
unfolding logreg_rotation_indices emit_accumulate_indices emit_from emit_accumulate_cascade_indices
    emit_step reduce_rotation
logreg_rotation_indices_lem = refl

pub row_indices_lem : emit_accumulate_indices 1 256 ≡ ok row_indices
unfolding emit_accumulate_indices emit_from emit_step reduce_rotation
row_indices_lem = refl

pub spread_indices_lem : emit_accumulate_indices 32767 256 ≡ ok spread_indices
unfolding emit_accumulate_indices emit_from emit_step reduce_rotation
spread_indices_lem = refl

pub column_indices_lem : emit_accumulate_cascade_indices 1 32768 256 ≡ ok column_indices
unfolding emit_accumulate_cascade_indices emit_from emit_step reduce_rotation
column_indices_lem = refl

-- The loop ends within its fuel.
emit_from_total :
    (stride size fuel s : ℕ)
    → size ≤ 4 ^ fuel * s
    → (rs : List Rotation) × (emit_from stride size (suc fuel) s ≡ ok rs)
unfolding emit_from
emit_from_total stride size zero s h = elim (Bool-cases (ltb s size)) [
  | inl more ↦ absurd (omega (arith, ltb→lt s size more))
  | inr done ↦ ([], rw done refl)
]
emit_from_total stride size (suc fuel) s h = elim (Bool-cases (ltb s size)) [
  | inl more ↦
      let four : 4 ^ suc fuel * s ≡ 4 ^ fuel * (4 * s) =
        ap (λ m. m * s) (pow-suc 4 fuel) ∙ mul_assoc (4 ^ fuel) 4 s in
      let (rs, e) = emit_from_total stride size fuel (4 * s) (subst (λ m. size ≤ m) four h) in
      (emit_step stride size s 3 (stride * s) ++ rs, rw (more, e) refl)
  | inr done ↦ ([], rw done refl)
]

-- The indices of every sum over an `int` of slots are generated, whatever the stride, from a positive
-- factor on.
pub emit_accumulate_cascade_indices_total :
    (stride size start_factor : ℕ)
    → size < 2 ^ 31
    → 0 < start_factor
    → (rs : List Rotation) × (emit_accumulate_cascade_indices stride size start_factor ≡ ok rs)
unfolding emit_accumulate_cascade_indices
emit_accumulate_cascade_indices_total stride size start_factor h h' =
    emit_from_total stride size 16 start_factor (omega arith)
