-- ===== src/Gpu/PolyEval/Result.antt =====
-- nimblecas_gpu_poly_eval: its result and its use of device memory.
use nimble_cas.Prelude.{
  ℕ, zero, suc, ◌+◌, ◌*◌, ◌^◌, ◌≤◌, ◌<◌, ◌≡◌, ◌≢◌, refl, sym, ap, ap₂, subst, ◌∙◌, List, [], ◌∷◌,
  ◌==◌, arith, length, get_or, take, map, replicate, inl, inr, ==_iff,
}
use nimble_cas.Prelude.Int.{ℤ, pos_part}
use nimble_cas.Cuda.Calls.{Memory, store, Runtime, Trace, done}
use nimble_cas.Cuda.Host.{HostBuffer}
use nimble_cas.Cuda.Memory.{
  IsFaithful, map-get_or, contents, overlay, copied_cell, overlay_other, store_other,
}
use nimble_cas.Cuda.Ledger.{
  IsSettled, >>=-Settles, checked-Settles, pure-Settles, if-Settles, choose_blocks-Settles,
  with_pinned-Settles, launch_and_read-Settles,
}
use nimble_cas.Cuda.Release.{with_buffers-Settles}
use nimble_cas.Cuda.Fresh.{IsApart, with_buffers-Returns}
use nimble_cas.Cuda.Success.{Returns, pure-Returns, if-Returns, with_pinned-Returns}
use nimble_cas.Cuda.Healthy.{
  IsHealthy, if-Completes, pure-Completes, with_pinned-Completes, with_buffers-Completes,
  >>=-Completes, checked-Completes, choose_blocks-Completes, launch_and_read-Completes,
}
use nimble_cas.Cuda.Launch.{copy_in-Returns, int_choose_blocks-fits, launch_int_store-Returns}
use nimble_cas.Gpu.PolyEval.{
  horner_loop, poly_eval_kernel, poly_eval_body, poly_eval_on_device, poly_eval,
}

module _ {D : Type 0} (nought : D) (mul_add : D → D → D → D) where
  -- Horner's rule, from the list of coefficients, the lowest first.
  unfoldable pub horner : List D → D → D
  horner [] x = nought
  horner (c ∷ cs) x = mul_add (horner cs x) x c

  horner_loop-suc :
      (f : ℕ → D) (x : D) (n : ℕ) (acc : D)
      → horner_loop nought mul_add f x (suc n) acc
        ≡ mul_add (horner_loop nought mul_add (λ k. f (suc k)) x n acc) x (f 0)
  unfolding horner_loop
  horner_loop-suc f x zero acc = refl
  horner_loop-suc f x (suc n) acc = horner_loop-suc f x n (mul_add acc x (f (suc n)))

  horner_loop-horner :
      (f : ℕ → D) (cs : List D) (x : D) (n : ℕ)
      → n ≤ length cs
      → ((k : ℕ) → k < n → f k ≡ get_or cs k nought)
      → horner_loop nought mul_add f x n nought ≡ horner (take n cs) x
  unfolding horner horner_loop
  horner_loop-horner f cs x zero h same = refl
  horner_loop-horner f [] x (suc n) h same = absurd (omega arith)
  horner_loop-horner f (c ∷ cs) x (suc n) h same =
      horner_loop-suc f x n nought
      ∙ ap₂ (λ a b. mul_add a x b)
          (horner_loop-horner (λ k. f (suc k)) cs x n (omega arith)
            λ k below. same (suc k) (omega arith))
          (same 0 (omega arith))

  module _ (coeffs xs : List D) (n_coeffs n p_coeffs p_x p_out : ℕ) where
    -- The inputs are still on the device.
    record HasInputs (memory : Memory D) : Type 0 where
      coeffs_at : (k : ℕ) → k < n_coeffs → memory p_coeffs k ≡ get_or coeffs k nought
      x_at : (i : ℕ) → i < n → memory p_x i ≡ get_or xs i nought

    HasInputs-store :
        p_coeffs ≢ p_out
        → p_x ≢ p_out
        → (i : ℕ) (v : D) (memory : Memory D) → HasInputs memory
        → HasInputs (store p_out i v memory)
    HasInputs-store off_coeffs off_x i v memory k = record {
      coeffs_at = λ j h. store_other p_out i v memory p_coeffs j off_coeffs ∙ k.coeffs_at j h;
      x_at = λ j h. store_other p_out i v memory p_x j off_x ∙ k.x_at j h;
    }

    overlay-HasInputs :
        p_coeffs ≢ p_x
        → n_coeffs ≤ length coeffs
        → n ≤ length xs
        → (memory : Memory D)
        → HasInputs (overlay p_x 0 (take n xs) (overlay p_coeffs 0 (take n_coeffs coeffs) memory))
    overlay-HasInputs apart long long_x memory = record {
      coeffs_at = λ k h.
          overlay_other p_x 0 (take n xs) (overlay p_coeffs 0 (take n_coeffs coeffs) memory)
            p_coeffs k apart
          ∙ copied_cell p_coeffs n_coeffs k coeffs memory nought h long;
      x_at = λ i h. copied_cell p_x n i xs _ nought h long_x;
    }

  poly_eval_body-Returns :
      {initial : Memory D} {cuda : Runtime D} {log : Trace D} {v : List D} (coeffs xs : List D)
      (n_coeffs n : ℕ) (pointers : List ℕ)
      → IsFaithful initial cuda
      → length pointers ≡ 3
      → IsApart pointers
      → n_coeffs ≤ length coeffs
      → n ≤ length xs
      → 2 * n + 256 ≤ 2 ^ 31
      → Returns (poly_eval_body nought mul_add coeffs n_coeffs xs n pointers) cuda log v
      → v ≡ map (horner (take n_coeffs coeffs)) (take n xs)
  unfolding poly_eval_body poly_eval_kernel
  poly_eval_body-Returns {initial} {log} {v} coeffs xs n_coeffs n pointers faithful three apart long
        long_x room e =
      let p_coeffs = get_or pointers 0 0 in
      let p_x = get_or pointers 1 0 in
      let p_out = get_or pointers 2 0 in
      let (_, _, e1, c1) = copy_in-Returns initial _ _ _ _ e in
      let (_, _, e2, c2) = copy_in-Returns initial _ _ _ _ e1 in
      let (blocks, after, e3, pos, fits, c3) = int_choose_blocks-fits initial n room e2 in
      let Kept = HasInputs coeffs xs n_coeffs n p_coeffs p_x p_out in
      let (len, all) =
        launch_int_store-Returns p_out n
          (λ i memory. horner_loop nought mul_add (memory p_coeffs) (memory p_x i) n_coeffs nought)
          (λ i y. y ≡ horner (take n_coeffs coeffs) (get_or xs i nought)) {Kept = Kept} blocks 256 8
          faithful
          (HasInputs-store coeffs xs n_coeffs n p_coeffs p_x p_out
            (apart 0 2 (omega arith) (omega arith)) (apart 1 2 (omega arith) (omega arith)))
          (λ i memory below k.
            horner_loop-horner (memory p_coeffs) coeffs (memory p_x i) n_coeffs long k.coeffs_at
            ∙ ap (horner (take n_coeffs coeffs)) (k.x_at i below))
          (omega arith) (omega (arith, fits, room))
          (subst Kept (sym (c3 ∙ c2 ∙ ap (overlay p_x 0 (take n xs)) c1)) (
            overlay-HasInputs coeffs xs n_coeffs n p_coeffs p_x p_out
              (apart 0 1 (omega arith) (omega arith)) long long_x (contents initial log)))
          e3 in
      map-get_or (horner (take n_coeffs coeffs)) xs nought nought n v long_x len
        λ i below. all i nought below

  poly_eval_on_device-Returns :
      {initial : Memory D} {cuda : Runtime D} {log : Trace D} {v : List D} (coeffs : HostBuffer D)
      (n_coeffs : ℕ) (x : HostBuffer D) (out n : ℕ)
      → IsFaithful initial cuda
      → n_coeffs ≤ length coeffs.content
      → n ≤ length x.content
      → 2 * n + 256 ≤ 2 ^ 31
      → Returns (poly_eval_on_device nought mul_add coeffs n_coeffs x out n) cuda log v
      → v ≡ map (horner (take n_coeffs coeffs.content)) (take n x.content)
  unfolding poly_eval_on_device
  poly_eval_on_device-Returns {cuda} coeffs n_coeffs x out n faithful long long_x room e =
      let (_, e1) = with_pinned-Returns _ _ e in
      let (_, e2) = with_pinned-Returns _ _ e1 in
      let (_, e3) = with_pinned-Returns _ _ e2 in
      let (pointers, _, three, apart, e4) = with_buffers-Returns _ _ cuda _ faithful e3 in
      poly_eval_body-Returns coeffs.content x.content n_coeffs n pointers faithful three apart long
        long_x room e4

  horner_of_none :
      (n : ℕ) (xs : List D) → n ≤ length xs → replicate n nought ≡ map (horner []) (take n xs)
  unfolding horner
  horner_of_none zero xs h = refl
  horner_of_none (suc n) [] h = absurd (omega arith)
  horner_of_none (suc n) (x ∷ xs) h = ap (λ rest. nought ∷ rest) (horner_of_none n xs (omega arith))

  -- On a faithful CUDA runtime, with as many coefficients and points as the counts say, and with 2
  -- * n + 256 <= 2^31, so that no `int` of the grid wraps: when nimblecas_gpu_poly_eval has
  -- returned 0, it has written for each point the value of Horner's rule on the list of
  -- coefficients, whatever order the threads ran in.
  pub poly_eval-horner :
      (coeffs : HostBuffer D) (n_coeffs : ℤ) (x : HostBuffer D) (out : ℕ) (n : ℤ)
      {initial : Memory D} (cuda : Runtime D) (log : Trace D) {v : List D}
      → IsFaithful initial cuda
      → pos_part n_coeffs ≤ length coeffs.content
      → pos_part n ≤ length x.content
      → 2 * pos_part n + 256 ≤ 2 ^ 31
      → (poly_eval nought mul_add coeffs n_coeffs x out n cuda log).0 ≡ done v
      → v ≡ map (horner (take (pos_part n_coeffs) coeffs.content)) (take (pos_part n) x.content)
  unfolding poly_eval
  poly_eval-horner coeffs n_coeffs x out n cuda log {v} faithful long long_x room e =
      elim (if-Returns (pos_part n == 0) (record { result = e })) [
        | inl (zero_asked, e1) ↦
            sym (pure-Returns e1)
            ∙ ap (λ k. map (horner (take (pos_part n_coeffs) coeffs.content)) (take k x.content))
                (sym ((==_iff _ 0).0 zero_asked))
        | inr (_, e1) ↦ elim (if-Returns (pos_part n_coeffs == 0) e1) [
          | inl (no_coeffs, e2) ↦
              sym (pure-Returns e2)
              ∙ horner_of_none (pos_part n) x.content long_x
              ∙ ap (λ k. map (horner (take k coeffs.content)) (take (pos_part n) x.content))
                  (sym ((==_iff _ 0).0 no_coeffs))
          | inr (_, e2) ↦
              poly_eval_on_device-Returns coeffs (pos_part n_coeffs) x out (pos_part n) faithful
                long long_x room e2
        ]
      ]

  -- On any CUDA runtime, whichever calls fail: from before nimblecas_gpu_poly_eval to after it,
  -- each non-null device pointer is freed as often as it was allocated, and each host buffer is
  -- unregistered as often as it was registered.
  pub poly_eval-IsSettled :
      (coeffs : HostBuffer D) (n_coeffs : ℤ) (x : HostBuffer D) (out : ℕ) (n : ℤ) (cuda : Runtime D)
      (log : Trace D)
      → IsSettled log (poly_eval nought mul_add coeffs n_coeffs x out n cuda log).1
  unfolding poly_eval poly_eval_on_device poly_eval_body
  poly_eval-IsSettled coeffs n_coeffs x out n cuda log =
      (if-Settles (pos_part n == 0) (pure-Settles _) (
          if-Settles (pos_part n_coeffs == 0) (pure-Settles _) (
            with_pinned-Settles _ _ (
              with_pinned-Settles _ _ (
                with_pinned-Settles _ _ (
                  with_buffers-Settles _ λ pointers.
                    >>=-Settles (checked-Settles _ (λ y r. refl)) λ _.
                      >>=-Settles (checked-Settles _ (λ y r. refl)) λ _.
                        >>=-Settles (choose_blocks-Settles _ _)
                          λ blocks. launch_and_read-Settles _ _ _ _ _ _)))))).settles
        cuda log

  -- On a CUDA runtime on which every call succeeds, nimblecas_gpu_poly_eval returns 0.
  pub poly_eval-completes :
      (coeffs : HostBuffer D) (n_coeffs : ℤ) (x : HostBuffer D) (out : ℕ) (n : ℤ) (cuda : Runtime D)
      (log : Trace D)
      → IsHealthy cuda
      → (v : List D) × ((poly_eval nought mul_add coeffs n_coeffs x out n cuda log).0 ≡ done v)
  unfolding poly_eval poly_eval_on_device poly_eval_body
  poly_eval-completes coeffs n_coeffs x out n cuda log healthy =
      (if-Completes (pos_part n == 0) (pure-Completes _) (
          if-Completes (pos_part n_coeffs == 0) (pure-Completes _) (
            with_pinned-Completes _ _ (
              with_pinned-Completes _ _ (
                with_pinned-Completes _ _ (
                  with_buffers-Completes _ healthy λ pointers.
                    >>=-Completes (checked-Completes _ healthy) λ _.
                      >>=-Completes (checked-Completes _ healthy) λ _.
                        >>=-Completes (choose_blocks-Completes _ _)
                          λ blocks. launch_and_read-Completes _ _ _ _ _ _ healthy)))))).completes
        log
