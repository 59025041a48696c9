-- ===== src/Cuda/Healthy.antt =====
-- Runs in which no call fails.
use nimble_cas.Prelude.{ℕ, ◌≡◌, refl, ap, ◌∙◌, List, [], ◌∷◌, Bool, true, false, if◌then◌else◌}
use nimble_cas.Cuda.Calls.{
  Extent, Memory, Call, Trace, Runtime, done, Gpu, pure, ◌>>=◌, continue_with, call, checked,
}
use nimble_cas.Cuda.Host.{
  choose_blocks, allocate, release, with_buffers, launch_and_read, unpin, with_pinned,
}
use nimble_cas.Cuda.Success.{host_register-done, choose_blocks-done}

module _ {A : Type 0} (cuda : Runtime A) where
  -- Every call succeeds.
  pub record IsHealthy : Type 0 where
    pub succeeds : (log : Trace A) (c : Call A) → (cuda log c).status ≡ 0

  -- From every log, the run ends with a value.
  pub record Completes {B : Type 0} (m : Gpu A B) : Type 0 where
    pub completes : (log : Trace A) → (v : B) × ((m cuda log).0 ≡ done v)

module _ {A : Type 0} {cuda : Runtime A} where
  pub pure-Completes : {B : Type 0} (v : B) → Completes cuda (pure v)
  unfolding pure
  pure-Completes v = record { completes = λ log. (v, refl) }

  pub call-Completes : (c : Call A) → Completes cuda (call c)
  unfolding call
  call-Completes c = record { completes = λ log. (cuda log c, refl) }

  pub checked-Completes : (c : Call A) → IsHealthy cuda → Completes cuda (checked c)
  unfolding checked
  checked-Completes c healthy = record {
    completes = λ log. (cuda log c, rw (healthy.succeeds log c) refl);
  }

  pub >>=-Completes :
      {B C : Type 0} {m : Gpu A B} {next : B → Gpu A C}
      → Completes cuda m
      → ((v : B) → Completes cuda (next v))
      → Completes cuda (m >>= next)
  unfolding ◌>>=◌
  >>=-Completes {m} {next} first rest = record {
    completes = λ log.
        let (u, e) = first.completes log in
        let (v, f) = (rest u).completes (m cuda log).1 in
        (v, ap (λ result. (continue_with next cuda (result, (m cuda log).1)).0) e ∙ f);
  }

  pub if-Completes :
      {B : Type 0} {m n : Gpu A B} (test : Bool)
      → Completes cuda m
      → Completes cuda n
      → Completes cuda (if test then m else n)
  if-Completes true u v = u
  if-Completes false u v = v

  pub choose_blocks-Completes : (work threads : ℕ) → Completes cuda (choose_blocks work threads)
  choose_blocks-Completes work threads = record {
    completes = λ log.
        let (blocks, _, same, _, _, _) = choose_blocks-done work threads cuda log in
        (blocks, ap (λ t. t.0) same);
  }

  pub launch_and_read-Completes :
      (blocks threads units : ℕ) (kernel : ℕ → Memory A → Memory A) (out : ℕ) (extent : Extent)
      → IsHealthy cuda
      → Completes cuda (launch_and_read blocks threads units kernel out extent)
  unfolding launch_and_read
  launch_and_read-Completes blocks threads units kernel out extent healthy =
      >>=-Completes (call-Completes _) λ _. >>=-Completes (checked-Completes _ healthy) λ _.
        >>=-Completes (checked-Completes _ healthy)
          λ _. >>=-Completes (checked-Completes _ healthy) λ _. pure-Completes _

  pub with_pinned-Completes :
      {B : Type 0} (ptr : ℕ) (extent : Extent) {body : Gpu A B}
      → Completes cuda body
      → Completes cuda (with_pinned ptr extent body)
  unfolding with_pinned unpin ◌>>=◌
  with_pinned-Completes ptr extent {body} u = record {
    completes = λ log.
        let (scope, start, same) = host_register-done ptr extent cuda log in
        let (v, e) = u.completes start in
        (v, ap (λ mid. (continue_with (λ s c l. unpin s c (body c l)) cuda mid).0) same ∙ e);
  }

  allocate-succeeds :
      (sizes : List Extent) (log : Trace A) → IsHealthy cuda → (allocate sizes cuda log).1.0 ≡ 0
  unfolding allocate
  allocate-succeeds [] log healthy = refl
  allocate-succeeds (size ∷ sizes) log healthy =
      rw (healthy.succeeds log (Call.malloc size)) (allocate-succeeds sizes _ healthy)

  pub with_buffers-Completes :
      {B : Type 0} (sizes : List Extent) {body : List ℕ → Gpu A B}
      → IsHealthy cuda
      → ((pointers : List ℕ) → Completes cuda (body pointers))
      → Completes cuda (with_buffers sizes body)
  unfolding with_buffers release
  with_buffers-Completes sizes {body} healthy u = record {
    completes = λ log.
        let (v, e) = (u (allocate sizes cuda log).0).completes (allocate sizes cuda log).1.1 in
        (v, rw (allocate-succeeds sizes log healthy) e);
  }
