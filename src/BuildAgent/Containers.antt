-- ===== src/BuildAgent/Containers.antt =====
-- What it means that a container was started.
use golangci_api.Base.{
  ℕ, zero, suc, ◌+◌, ◌≤◌, ◌<◌, ◌≡◌, ◌≢◌, ==_iff, refl, ◌⊎◌, inl, inr, arith, String, Bool, true,
  false, ◌||◌, List, [], ◌∷◌, ◌++◌, Option, none, some, ltb, ◌==◌, append_assoc, subst, ◌∙◌,
}
use golangci_api.Errors.{Error, Result, ok, err, wrapped}
use golangci_api.BuildAgent.Runner.{Request}
use golangci_api.BuildAgent.Orchestrator.{
  Env, ContainerId, DockerCall, run_on, pull, gen_random_docker_port, min_docker_port,
  max_docker_port, setup_attempt, setup_loop, setup_container, container, run_build_command,
  next_attempt, give_up,
}

gen_random_docker_port-bounds :
    (p : ℕ) → (7001 ≤ gen_random_docker_port p) × (gen_random_docker_port p ≤ 8000)
gen_random_docker_port-bounds p = omega arith

not_last : (i : ℕ) → (i == 2) ≡ false → i ≢ 2
not_last i f h = ground (arith, f, h)

in_range : (p : ℕ) → 7001 ≤ p → p ≤ 8000 → (ltb p min_docker_port || ltb max_docker_port p) ≡ false
in_range p low high = ground arith

module _ (v : Env) where
  abbrev pub port_of : ℕ → ℕ
  port_of i = gen_random_docker_port (v.rand i)

  -- The calls of the first `k` attempts from `i` on.
  abbrev pub runs : String → ℕ → ℕ → List DockerCall
  runs token zero i = []
  runs token (suc k) i = run_on (port_of i) token ∷ runs token k (suc i)

  -- Attempt `j` has started the container, with this token.
  abbrev pub StartedAt : String → ℕ → ContainerId → Type 0
  StartedAt token j c =
      (c.port ≡ port_of j)
      × (c.build_token ≡ token)
      × ((out : String) × (v.docker_run j (port_of j) token ≡ ok out) × (c.id ≡ v.trim_space out))

  -- Attempt `j` has failed, after the deadline or as the third.
  abbrev pub FailedAt : String → ℕ → Type 0
  FailedAt token j =
      (e : Error) × (v.docker_run j (port_of j) token ≡ err e) × ((v.timeouted j ≡ true) ⊎ (j ≡ 2))

  -- The attempts from `i` on, at most `n` of them, have ended with attempt `j`.
  abbrev pub Tried : String → ℕ → ℕ → List DockerCall → List DockerCall → (ℕ → Type 0) → Type 0
  Tried token i n w w' P =
      (k : ℕ) × (j : ℕ) × (j ≡ i + k) × (k < n) × (w' ≡ w ++ runs token (suc k) i) × P j

  abbrev pub LoopEnds :
      String → ℕ → ℕ → List DockerCall → Result (Option ContainerId) × List DockerCall → Type 0
  LoopEnds token i n w (err e, w') = Tried token i n w w' (FailedAt token)
  LoopEnds token i n w (ok none, w') = ⊥
  LoopEnds token i n w (ok (some c), w') = Tried token i n w w' (λ j. StartedAt token j c)

  Tried-earlier :
      (token : String) (i n : ℕ) (w w' : List DockerCall) (P : ℕ → Type 0)
      → Tried token (suc i) n (w ++ run_on (port_of i) token ∷ []) w' P
      → Tried token i (suc n) w w' P
  Tried-earlier token i n w w' P (k, j, a, b, q, p) = (
    suc k,
    j,
    omega (arith, a),
    omega (arith, b),
    q ∙ append_assoc w (run_on (port_of i) token ∷ []) (runs token (suc k) (suc i)),
    p,
  )

  LoopEnds-earlier :
      (token : String) (i n : ℕ) (w : List DockerCall)
      (e : Result (Option ContainerId) × List DockerCall)
      → LoopEnds token (suc i) n (w ++ run_on (port_of i) token ∷ []) e
      → LoopEnds token i (suc n) w e
  LoopEnds-earlier token i n w (err e, w') h = Tried-earlier token i n w w' (FailedAt token) h
  LoopEnds-earlier token i n w (ok none, w') h = h
  LoopEnds-earlier token i n w (ok (some c), w') h =
      Tried-earlier token i n w w' (λ j. StartedAt token j c) h

  -- The rest of the loop, after attempt `i` has failed.
  abbrev retried : ℕ → ℕ → String → List DockerCall → Result (Option ContainerId) × List DockerCall
  retried left i token w = setup_loop v left (suc i) token (w ++ run_on (port_of i) token ∷ [])

  tried_now :
      (token : String) (left i : ℕ) (w : List DockerCall) (P : ℕ → Type 0)
      → P i
      → Tried token i (suc left) w (w ++ run_on (port_of i) token ∷ []) P
  tried_now token left i w P p = (0, i, omega arith, omega arith, refl, p)

  -- the end of attempt `i`, which has failed
  failed-LoopEnds :
      (left i : ℕ) (token : String) (w : List DockerCall) (e : Error) (t last : Bool)
      → v.docker_run i (port_of i) token ≡ err e
      → v.timeouted i ≡ t
      → (i == 2) ≡ last
      → (last ≡ false → LoopEnds token i (suc left) w (retried left i token w))
      → LoopEnds token i (suc left) w (
          next_attempt v
            (give_up v e t last)
            (retried left i token w)
            (w ++ run_on (port_of i) token ∷ []))
  failed-LoopEnds left i token w e true last q r l next =
      tried_now token left i w (FailedAt token) (e, q, inl r)
  failed-LoopEnds left i token w e false true q r l next =
      tried_now token left i w (FailedAt token) (e, q, inr ((==_iff i 2).0 l))
  failed-LoopEnds left i token w e false false q r l next = next refl

  attempt-LoopEnds :
      (left i : ℕ) (token : String) (w : List DockerCall) (x : Result String)
      → v.docker_run i (port_of i) token ≡ x
      → ((i == 2) ≡ false → LoopEnds token i (suc left) w (retried left i token w))
      → LoopEnds token i (suc left) w (
          setup_attempt v i token
            (port_of i)
            x
            (setup_loop v left (suc i) token)
            (w ++ run_on (port_of i) token ∷ []))
  attempt-LoopEnds left i token w (err e) q next =
      failed-LoopEnds left i token w e (v.timeouted i) (i == 2) q refl refl next
  attempt-LoopEnds left i token w (ok out) q next =
      tried_now token left i w (λ j. StartedAt token j (container v out (port_of i) token))
        (refl, refl, (out, q, refl))

  setup_loop-LoopEnds :
      (left i : ℕ) (token : String) (w : List DockerCall)
      → i + suc left ≡ 3
      → LoopEnds token i (suc left) w (setup_loop v (suc left) i token w)
  setup_loop-LoopEnds zero i token w h =
      attempt-LoopEnds zero i token w (v.docker_run i (port_of i) token) refl
        (λ f. absurd (not_last i f (omega (arith, h))))
  setup_loop-LoopEnds (suc left) i token w h =
      attempt-LoopEnds (suc left) i token w (v.docker_run i (port_of i) token) refl (λ f.
        LoopEnds-earlier token i (suc left) w (retried (suc left) i token w) (
          setup_loop-LoopEnds left (suc i) token (w ++ run_on (port_of i) token ∷ [])
            (omega (arith, h))))

  -- The port is one that the orchestrator maps, and commands are sent to it with the token.
  abbrev pub Reachable : ContainerId → Type 0
  Reachable c =
      (7001 ≤ c.port)
      × (c.port ≤ 8000)
      × ((r : Request) → run_build_command v c r ≡ wrapped (v.post c.port c.build_token r))

  port-Reachable : (c : ContainerId) → 7001 ≤ c.port → c.port ≤ 8000 → Reachable c
  port-Reachable c low high = (low, high, λ r. rw (in_range c.port low high) refl)

  -- One pull and then one run of each attempt up to attempt `j`, which is one of three.
  abbrev pub Called : List DockerCall → List DockerCall → (ℕ → Type 0) → Type 0
  Called w w' P = (j : ℕ) × (j < 3) × (w' ≡ w ++ pull ∷ runs v.new_uuid (suc j) 0) × P j

  abbrev pub Ready : List DockerCall → Result (Option ContainerId) × List DockerCall → Type 0
  Ready w (err e, w') = Called w w' (FailedAt v.new_uuid)
  Ready w (ok none, w') = ⊥
  Ready w (ok (some c), w') = Called w w' (λ j. StartedAt v.new_uuid j c) × Reachable c

  Tried-Called :
      (w w' : List DockerCall) (P : ℕ → Type 0)
      → Tried v.new_uuid 0 3 (w ++ pull ∷ []) w' P
      → Called w w' P
  Tried-Called w w' P (k, j, a, b, q, p) =
      let same : j ≡ k = omega (arith, a) in
      (k, b, q ∙ append_assoc w (pull ∷ []) (runs v.new_uuid (suc k) 0), subst P same p)

  LoopEnds-Ready :
      (w : List DockerCall) (e : Result (Option ContainerId) × List DockerCall)
      → LoopEnds v.new_uuid 0 3 (w ++ pull ∷ []) e
      → Ready w e
  LoopEnds-Ready w (err e, w') h = Tried-Called w w' (FailedAt v.new_uuid) h
  LoopEnds-Ready w (ok none, w') h = h
  LoopEnds-Ready w (ok (some c), w') h =
      let (j, a, b, f) = Tried-Called w w' (λ j. StartedAt v.new_uuid j c) h in
      let (low, high) = gen_random_docker_port-bounds (v.rand j) in
      ((j, a, b, f), port-Reachable c (omega (arith, f.0, low)) (omega (arith, f.0, high)))

  -- Starting a container calls Docker exactly for one pull and then for one run at each attempt, up
  -- to the first, second or third, all with the same new token, and ends with a container or an
  -- error, never with neither. A container was started by the last of these runs, on its port,
  -- which lies from 7001 to 8000, with the token that it carries, and its id is what that run has
  -- printed; its commands are not refused for their port but sent to it with that token. An error
  -- means that the last of these runs has failed, after the deadline or as the third.
  pub setup_container-Ready : (w : List DockerCall) → Ready w (setup_container v w)
  unfolding setup_container
  setup_container-Ready w =
      LoopEnds-Ready w (setup_loop v 3 0 v.new_uuid (w ++ pull ∷ []))
        (setup_loop-LoopEnds 2 0 v.new_uuid (w ++ pull ∷ []) refl)
