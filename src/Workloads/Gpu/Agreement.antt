-- ===== src/Workloads/Gpu/Agreement.antt =====
-- The logistic regressions of Prototypes A and C on the same ciphertexts.
use khipu_v_fhe.Prelude.{
  ℕ, zero, suc, ◌+◌, ◌<◌, ◌≡◌, refl, sym, subst, ◌∙◌, arith, List, [], ◌∷◌, ok, length, some,
  ==_iff,
}
use khipu_v_fhe.Workloads.{Scalars, logistic_rotations}
use khipu_v_fhe.Workloads.Sums.{IsScalars}
use khipu_v_fhe.Workloads.Slots.{Interpretation, Gives}
use khipu_v_fhe.Workloads.Logistic.{FlexCkks, Coefficients, IsFlex, logistic_eval}
use khipu_v_fhe.Workloads.Logistic.Steps.{descent_step}
use khipu_v_fhe.Workloads.Logistic.Descent.{
  lookup, IsBatch, descent_step_ext, at_index_lem, logistic_eval-Gives,
}
use khipu_v_fhe.Workloads.Gpu.{
  Fideslib, gpu_iteration, gpu_descend, gpu_logistic_eval, upload, create_gpu_context,
  gpu_to_openfhe,
}
use khipu_v_fhe.Workloads.Gpu.Keys.{gpu_rotations, logreg_rotation_indices_lem}
use khipu_v_fhe.Workloads.Gpu.Training.{IsCopy, IsLoaded, gpu_iteration-Gives}

module _ {A : Scalars} {C : FlexCkks A} (F : Fideslib C) (I : Interpretation C.base)
    (L : IsScalars A) (pk : F.PublicKey) (g : F.GpuContext) (J : Interpretation (F.flex g).base)
    (K : IsLoaded F I pk g J gpu_rotations) (k : Coefficients A) where
  open A use {Scalar, zero_s}
  open C.base use {Ciphertext}
  open J use {value, level}

  -- A copy of the input at a place stands at the same place.
  record Uploaded (inputs : List Ciphertext) : Type 0 where
    xs : List (F.flex g).base.Ciphertext
    returned : upload F g inputs ≡ ok xs
    copies :
        (i : ℕ) (c : Ciphertext)
        → lookup inputs i ≡ some c
        → (x : (F.flex g).base.Ciphertext) × (lookup xs i ≡ some x) × IsCopy F I g J c x

  upload-Uploaded : (inputs : List Ciphertext) → Uploaded inputs
  unfolding upload
  upload-Uploaded [] = record { xs = []; returned = refl; copies = λ i c h. cc }
  upload-Uploaded (c ∷ cs) =
      let (x, loaded, copy) = K.loads c in
      let rest = upload-Uploaded cs in
      record {
        xs = x ∷ rest.xs;
        returned = rw (loaded, rest.returned) refl;
        copies = λ i c' h. placed x rest.xs copy rest.copies i c' h;
      }
    where
      placed :
          (x : (F.flex g).base.Ciphertext) (xs : List (F.flex g).base.Ciphertext)
          → IsCopy F I g J c x
          → ((i : ℕ) (c' : Ciphertext)
              → lookup cs i ≡ some c'
              → (x' : (F.flex g).base.Ciphertext) × (lookup xs i ≡ some x') × IsCopy F I g J c' x')
          → (i : ℕ) (c' : Ciphertext) → lookup (c ∷ cs) i ≡ some c'
          → (x' : (F.flex g).base.Ciphertext) × (lookup (x ∷ xs) i ≡ some x') × IsCopy F I g J c' x'
      placed x xs copy copies zero c' h =
          let same : c ≡ c' = cc in (x, refl, subst (λ c. IsCopy F I g J c x) same copy)
      placed x xs copy copies (suc i) c' h = copies i c' h

  copied_step :
      (iter m l : ℕ) (d y : Ciphertext) (dx yx w : (F.flex g).base.Ciphertext)
      → level w ≡ m
      → m ≡ suc (suc (suc (suc l)))
      → IsBatch C I m d y
      → IsCopy F I g J d dx
      → IsCopy F I g J y yx
      → Gives
          (F.flex g).base
          J
          32768
          (gpu_iteration F k g iter dx yx w)
          l
          (descent_step A k iter (value dx) (value yx) (value w))
  copied_step iter m l d y dx yx w h hm b copy copy' =
      gpu_iteration-Gives F I L pk g J K k iter l dx yx w (h ∙ hm)
        (omega (arith, b.data_level, copy.level_eq, h))
        (omega (arith, b.labels_level, copy'.level_eq, h))
        (λ i hi ne. copy'.value_eq i hi ∙ b.only_heads i hi ne)

  gpu_round :
      (xs : List (F.flex g).base.Ciphertext) (n iter : ℕ) (d y v v' : (F.flex g).base.Ciphertext)
      → lookup xs iter ≡ some d
      → lookup xs (10 + iter) ≡ some y
      → gpu_iteration F k g iter d y v ≡ ok v'
      → gpu_descend F k g xs (suc n) iter v ≡ gpu_descend F k g xs n (suc iter) v'
  unfolding gpu_descend
  gpu_round xs n iter d y v v' hd hy e =
      at_index_lem (F.flex g) k xs iter _ hd
      ∙ at_index_lem (F.flex g) k xs (10 + iter) _ hy
      ∙ rw e refl

  gpu_done :
      (xs : List (F.flex g).base.Ciphertext) (iter : ℕ) (v : (F.flex g).base.Ciphertext)
      → gpu_descend F k g xs 0 iter v ≡ ok v
  unfolding gpu_descend
  gpu_done xs iter v = refl

  pub gpu_logistic_eval-Gives :
      (inputs : List Ciphertext) (l : ℕ) (d0 y0 d1 y1 w tmpl_ct : Ciphertext)
      → F.load_context pk gpu_rotations ≡ ok g
      → F.encrypt_zeros pk ≡ ok tmpl_ct
      → length inputs ≡ 21
      → lookup inputs 0 ≡ some d0
      → lookup inputs 10 ≡ some y0
      → lookup inputs 1 ≡ some d1
      → lookup inputs 11 ≡ some y1
      → lookup inputs 20 ≡ some w
      → I.level w ≡ 8 + l
      → IsBatch C I (8 + l) d0 y0
      → IsBatch C I (4 + l) d1 y1
      → Gives C.base I 32768 (gpu_logistic_eval F k (some pk) inputs) l (
          descent_step A k 1
            (I.value d1)
            (I.value y1)
            (descent_step A k 0 (I.value d0) (I.value y0) (I.value w)))
  unfolding gpu_logistic_eval create_gpu_context gpu_to_openfhe
  gpu_logistic_eval-Gives inputs l d0 y0 d1 y1 w tmpl_ct ready zeros size h0 h10 h1 h11 h20 hw b0
        b1 =
      let up = upload-Uploaded inputs in
      let (dx0, at0, copy0) = up.copies 0 d0 h0 in
      let (yx0, at10, copy10) = up.copies 10 y0 h10 in
      let (dx1, at1, copy1) = up.copies 1 d1 h1 in
      let (yx1, at11, copy11) = up.copies 11 y1 h11 in
      let (wx, at20, copy20) = up.copies 20 w h20 in
      let first =
        copied_step 0 (8 + l) (4 + l) d0 y0 dx0 yx0 wx (copy20.level_eq ∙ hw) (omega arith) b0 copy0
          copy10 in
      let second =
        copied_step 1 (4 + l) l d1 y1 dx1 yx1 first.ct first.level_eq (omega arith) b1 copy1
          copy11 in
      let out = K.syncs second.ct tmpl_ct zeros in
      let descended : gpu_descend F k g up.xs 2 0 wx ≡ ok second.ct =
        gpu_round up.xs 1 0 dx0 yx0 wx first.ct at0 at10 first.returned
        ∙ gpu_round up.xs 0 1 dx1 yx1 first.ct second.ct at1 at11 second.returned
        ∙ gpu_done up.xs 2 second.ct in
      record {
        ct = out.ct;
        returned =
            rw
              (
                (==_iff (length inputs) 21).1 size,
                logreg_rotation_indices_lem,
                ready,
                up.returned,
                at_index_lem (F.flex g) k up.xs 20 (gpu_descend F k g up.xs 2 0) at20,
                descended,
                zeros,
              )
              out.returned;
        level_eq = out.level_eq ∙ second.level_eq;
        value_eq = λ i hi.
            out.value_eq i hi
            ∙ second.value_eq i hi
            ∙ descent_step_ext A k L 1 (value dx1) (I.value d1) (value yx1) (I.value y1)
                (value first.ct) (descent_step A k 0 (I.value d0) (I.value y0) (I.value w)) i
                copy1.value_eq copy11.value_eq
                (λ j hj.
                  first.value_eq j hj
                  ∙ descent_step_ext A k L 0 (value dx0) (I.value d0) (value yx0) (I.value y0)
                      (value wx) (I.value w) j copy0.value_eq copy10.value_eq copy20.value_eq hj)
                hi;
      }

  -- On the same 21 ciphertexts the training on the GPU and that on the CPU both return, at the same
  -- level and with the same weights in all slots: with eight levels to spare, the rotation keys that
  -- each prototype's client makes, a GPU context that has loaded them for the client's public key, and
  -- zeros that this key encrypts.
  pub gpu_logistic_eval-logistic_eval :
      (inputs : List Ciphertext) (l : ℕ) (d0 y0 d1 y1 w tmpl_ct : Ciphertext)
      → IsFlex C I 32768 logistic_rotations
      → F.load_context pk gpu_rotations ≡ ok g
      → F.encrypt_zeros pk ≡ ok tmpl_ct
      → length inputs ≡ 21
      → lookup inputs 0 ≡ some d0
      → lookup inputs 10 ≡ some y0
      → lookup inputs 1 ≡ some d1
      → lookup inputs 11 ≡ some y1
      → lookup inputs 20 ≡ some w
      → I.level w ≡ 8 + l
      → IsBatch C I (8 + l) d0 y0
      → IsBatch C I (4 + l) d1 y1
      → (on_gpu on_cpu : Ciphertext) × (gpu_logistic_eval F k (some pk) inputs ≡ ok on_gpu)
        × (logistic_eval C k inputs ≡ ok on_cpu)
        × (I.level on_gpu ≡ I.level on_cpu)
        × ((i : ℕ) → i < 32768 → I.value on_gpu i ≡ I.value on_cpu i)
  gpu_logistic_eval-logistic_eval inputs l d0 y0 d1 y1 w tmpl_ct flexible ready zeros size h0 h10 h1
        h11 h20 hw b0 b1 =
      let gpu =
        gpu_logistic_eval-Gives inputs l d0 y0 d1 y1 w tmpl_ct ready zeros size h0 h10 h1 h11 h20 hw
          b0 b1 in
      let cpu =
        logistic_eval-Gives C k I L flexible inputs l d0 y0 d1 y1 w size h0 h10 h1 h11 h20 hw b0
          b1 in
      (
        gpu.ct,
        cpu.ct,
        gpu.returned,
        cpu.returned,
        gpu.level_eq ∙ sym cpu.level_eq,
        λ i hi. gpu.value_eq i hi ∙ sym (cpu.value_eq i hi),
      )
