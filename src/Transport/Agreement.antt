-- ===== src/Transport/Agreement.antt =====
-- Where the local transport and a worker's server do the same, and where they do not.
use nexad.Prelude.{
  ℕ, ◌≡◌, refl, sym, ◌&&◌, inl, inr, Bool, true, false, List, arith, Text, if◌then◌else◌,
}
use nexad.Result.{NexaError, Result, ok, err, is_ok, Outcome, value, Result-cases}
use nexad.Cluster.Nodes.{Pod}
use nexad.Transport.Container.{ContainerRuntime, DeploymentSpec, Core}
use nexad.Transport.Local
use nexad.Transport.Remote
use nexad.Transport.Remote.{
  AssignPodRequest, AssignPodResponse, Reply, invalid_argument, response, assign_pod, place,
}

abbrev pub is_assigned : Reply AssignPodResponse → Bool
is_assigned (invalid_argument m) = false
is_assigned (response r) = r.success

module _ {ℓ κ} {R : Type ℓ} {Volume : Type κ} (rt : ContainerRuntime R) (core : Core Volume)
    (pod_of : List ℕ → Outcome Pod) (spec_of : List ℕ → Outcome (DeploymentSpec Volume))
    (display : NexaError → Text) where
  create_reply-started :
      (x : Result Text × R)
      → ((Remote.create_reply rt core pod_of spec_of display x).1 ≡ (Local.started rt core x).1)
        × (is_assigned (Remote.create_reply rt core pod_of spec_of display x).0
            ≡ is_ok (Local.started rt core x).0)
  create_reply-started (err e, r) = (refl, refl)
  create_reply-started (ok id, r) = elim (Result-cases (rt.start_container r id).0) [
    | inl (u, h) ↦ (ground (arith, h), ground (arith, h))
    | inr (e, h) ↦ (ground (arith, h), ground (arith, h))
  ]

  existing_check-local :
      (pod : Pod) (spec : DeploymentSpec Volume) (y : Result Bool × R)
      → let here = Local.existing_check rt core pod spec y in
        let there = Remote.existing_check rt core pod_of spec_of display pod spec y in
        (here.1 ≡ (if is_ok y.0 then there.1 else y.1))
        × (is_ok here.0 ≡ (is_ok y.0 && is_assigned there.0))
  existing_check-local pod spec (err e, r) = (refl, refl)
  existing_check-local pod spec (ok true, r) = let (a, b) = create_reply-started _ in (sym a, sym b)
  existing_check-local pod spec (ok false, r) =
      let (a, b) = create_reply-started _ in (sym a, sym b)

  assign_pod_read :
      (req : AssignPodRequest) (pod : Pod) (spec : DeploymentSpec Volume) (r : R)
      → pod_of req.pod_data ≡ value pod
      → spec_of req.deployment_spec ≡ value spec
      → assign_pod rt core pod_of spec_of display req r
        ≡ place rt core pod_of spec_of display pod spec r
  unfolding assign_pod
  assign_pod_read req pod spec r p q = ground (arith, p, q)

  -- For a request whose pod and specification are read: where the runtime can tell whether the
  -- container is there, the local transport leaves the runtime as the worker's server does and
  -- succeeds exactly where that answers success; where it cannot tell, the local transport fails,
  -- having only pulled the image and asked.
  pub assign_pod-local :
      (req : AssignPodRequest) (pod : Pod) (spec : DeploymentSpec Volume) (r : R)
      → pod_of req.pod_data ≡ value pod
      → spec_of req.deployment_spec ≡ value spec
      → let asked = rt.container_exists (rt.pull_image r spec.image).1 (core.container_name pod) in
        let here = Local.assign_pod rt core pod spec r in
        let there = assign_pod rt core pod_of spec_of display req r in
        (here.1 ≡ (if is_ok asked.0 then there.1 else asked.1))
        × (is_ok here.0 ≡ (is_ok asked.0 && is_assigned there.0))
  unfolding place Local.assign_pod
  assign_pod-local req pod spec r p q =
      let asked = rt.container_exists (rt.pull_image r spec.image).1 (core.container_name pod) in
      rw (assign_pod_read req pod spec r p q) (existing_check-local pod spec asked)
