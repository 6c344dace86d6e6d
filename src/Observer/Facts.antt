-- ===== src/Observer/Facts.antt =====
-- What a snapshot says of the objects that were read.
use pacto_operator.Prelude.{String, Bool, true, false, ◌||◌, List, [], ◌∷◌}
use pacto_operator.Prelude.{◌++◌, map, ◌≡◌, refl, ◌≢◌, ◌⊎◌, inl, inr, ◌∙◌, arith, ℤ, string_eq}
use pacto_operator.Prelude.{◌==◌, ◌!=◌, if_intro, subst, sym}
use pacto_operator.Observer.{
  Fetched, fetched, absent, failed, Volume, PodSpec, Deployment, StatefulSet, Client,
  RuntimeSnapshot, Observed, ok, err, scan_volumes, probe_delay, extract_pod_template_info,
  read_deployment, read_stateful_set, observe_deployment, observe_stateful_set, observe_replica_set,
  observe_job, observe_cron_job, observe_workload, observe_service, observe, observe_target,
  observe_object, blank, ◌>>=◌,
}

abbrev pub any_claim : List Volume → Bool
any_claim [] = false
any_claim (v ∷ vs) = v.persistent_volume_claim || any_claim vs

abbrev pub any_empty_dir : List Volume → Bool
any_empty_dir [] = false
any_empty_dir (v ∷ vs) = v.empty_dir || any_empty_dir vs

-- The loop over the volumes only adds what some volume shows.
scan_volumes_lem :
    (vs : List Volume) (snap : RuntimeSnapshot)
    → scan_volumes vs snap ≡ record snap {
      has_pvc = any_claim vs || snap.has_pvc;
      has_empty_dir = any_empty_dir vs || snap.has_empty_dir;
    }
unfolding scan_volumes
scan_volumes_lem [] snap = refl
scan_volumes_lem (v ∷ vs) snap = scan_volumes_lem vs _ ∙ ground arith

-- A read of a pod template, with the loop and the scan of the probes in closed form.
pub extract_lem :
    (pod : PodSpec) (snap : RuntimeSnapshot)
    → extract_pod_template_info pod snap ≡ record snap {
      termination_grace_period = pod.termination_grace_period_seconds;
      container_images = snap.container_images ++ map (λ c. c.image) pod.containers;
      health_probe_initial_delay = probe_delay pod.containers snap.health_probe_initial_delay;
      has_pvc = any_claim pod.volumes || snap.has_pvc;
      has_empty_dir = any_empty_dir pod.volumes || snap.has_empty_dir;
    }
unfolding extract_pod_template_info
extract_lem pod snap = scan_volumes_lem pod.volumes _

-- The part of a snapshot that a read of the workload leaves alone.
abbrev pub Keeps : (RuntimeSnapshot → RuntimeSnapshot) → Type 0
Keeps read =
    (snap : RuntimeSnapshot)
    → ((read snap).service_exists ≡ snap.service_exists)
      × ((read snap).service_ports ≡ snap.service_ports)
      × ((read snap).workload_exists ≡ snap.workload_exists)

pub extract-Keeps : (pod : PodSpec) → Keeps (extract_pod_template_info pod)
extract-Keeps pod snap = rw (extract_lem pod snap) (refl, refl, refl)

pub read_deployment-Keeps : (dep : Deployment) → Keeps (read_deployment dep)
unfolding read_deployment
read_deployment-Keeps dep snap = rw extract_lem (refl, refl, refl)

pub read_stateful_set-Keeps : (sts : StatefulSet) → Keeps (read_stateful_set sts)
unfolding read_stateful_set
read_stateful_set-Keeps sts snap = rw extract_lem (refl, refl, refl)

-- What a step can return: a snapshot of a workload that was found, the one it was given, or an error.
abbrev Outcome : RuntimeSnapshot → Observed RuntimeSnapshot → Type 0
Outcome old (ok new) =
    (new.service_exists ≡ old.service_exists)
    × (new.service_ports ≡ old.service_ports)
    × ((new.workload_exists ≡ true) ⊎ (new ≡ old))
Outcome old (err e) = Unit

observe_object-Outcome :
    {A : Type 0} (format name : String) (answer : Fetched A)
    (read : A → RuntimeSnapshot → RuntimeSnapshot)
    → ((a : A) → Keeps (read a))
    → (snap : RuntimeSnapshot) → Outcome snap (observe_object format name answer read snap)
observe_object-Outcome format name (fetched a) read keeps snap =
    let (s, p, w) = keeps a (record snap { workload_exists = true }) in (s, p, inl w)
observe_object-Outcome format name absent read keeps snap = (refl, refl, inr refl)
observe_object-Outcome format name (failed e) read keeps snap = tt

module _ (client : Client) (name : String) (snap : RuntimeSnapshot) where
  observe_deployment-Outcome : Outcome snap (observe_deployment client name snap)
  unfolding observe_deployment
  observe_deployment-Outcome =
      observe_object-Outcome _ name (client.get_deployment name) read_deployment
        read_deployment-Keeps snap

  observe_stateful_set-Outcome : Outcome snap (observe_stateful_set client name snap)
  unfolding observe_stateful_set
  observe_stateful_set-Outcome =
      observe_object-Outcome _ name (client.get_stateful_set name) read_stateful_set
        read_stateful_set-Keeps snap

  observe_replica_set-Outcome : Outcome snap (observe_replica_set client name snap)
  unfolding observe_replica_set
  observe_replica_set-Outcome =
      observe_object-Outcome _ name (client.get_replica_set name) extract_pod_template_info
        extract-Keeps snap

  observe_job-Outcome : Outcome snap (observe_job client name snap)
  unfolding observe_job
  observe_job-Outcome =
      observe_object-Outcome _ name (client.get_job name) extract_pod_template_info extract-Keeps
        snap

  observe_cron_job-Outcome : Outcome snap (observe_cron_job client name snap)
  unfolding observe_cron_job
  observe_cron_job-Outcome =
      observe_object-Outcome _ name (client.get_cron_job name) extract_pod_template_info
        extract-Keeps snap

  observe_workload-Outcome : (kind : String) → Outcome snap (observe_workload client name kind snap)
  unfolding observe_workload
  observe_workload-Outcome kind =
      if_intro (Outcome snap) (kind == "Deployment") observe_deployment-Outcome (
        if_intro (Outcome snap) (kind == "StatefulSet") observe_stateful_set-Outcome (
          if_intro (Outcome snap) (kind == "ReplicaSet") observe_replica_set-Outcome (
            if_intro (Outcome snap) (kind == "Job") observe_job-Outcome (
              if_intro (Outcome snap) (kind == "CronJob") observe_cron_job-Outcome
                observe_deployment-Outcome))))

-- What the read of the Service leaves in a blank snapshot.
abbrev pub ServiceFacts : Client → String → RuntimeSnapshot → Type 0
ServiceFacts client service snap =
    ((ports : List ℤ)
      → service ≢ ""
      → client.get_service service ≡ fetched ports
      → (snap.service_exists ≡ true) × (snap.service_ports ≡ ports))
    × ((service ≡ "") ⊎ (client.get_service service ≡ absent)
        → (snap.service_exists ≡ false) × (snap.service_ports ≡ []))

pub observe_service_facts :
    (client : Client) (service kind : String) (snap : RuntimeSnapshot)
    → observe_service client service (blank kind) ≡ ok snap
    → ServiceFacts client service snap
      × (snap.workload_exists ≡ false)
      × (snap ≡ record (blank kind) {
        service_exists = snap.service_exists;
        service_ports = snap.service_ports;
      })
unfolding observe_service
observe_service_facts client service kind snap h = ground arith

ok-bind :
    {A B : Type 0} (m : Observed A) (f : A → Observed B) {b : B}
    → (m >>= f) ≡ ok b
    → (a : A) × (m ≡ ok a) × (f a ≡ ok b)
ok-bind (ok a) f h = (a, refl, h)
ok-bind (err e) f h = cc

observe_target-Outcome :
    (client : Client) (name kind : String) (snap : RuntimeSnapshot)
    → Outcome snap (observe_target client name kind snap)
unfolding observe_target
observe_target-Outcome client name kind snap =
    if_intro (Outcome snap) (name != "") (observe_workload-Outcome client name snap kind)
      (refl, refl, inr refl)

-- A successful read goes through a snapshot of the Service alone.
observe_steps :
    (client : Client) (service name kind : String) (snap : RuntimeSnapshot)
    → observe client service name kind ≡ ok snap
    → (s : RuntimeSnapshot) × (observe_service client service (blank kind) ≡ ok s)
      × Outcome s (ok snap)
unfolding observe
observe_steps client service name kind snap h =
    let (s, e, rest) =
      ok-bind (observe_service client service (blank kind)) (observe_target client name kind) h in
    (s, e, subst (Outcome s) rest (observe_target-Outcome client name kind s))

-- When a read succeeds: the snapshot has the Service and exactly its ports if there is a target and
-- it was found, and no Service and no port if there is no target or it was not found.
pub observe_service_target :
    (client : Client) (service name kind : String) (snap : RuntimeSnapshot)
    → observe client service name kind ≡ ok snap
    → ServiceFacts client service snap
observe_service_target client service name kind snap h =
    let (s, e, out) = observe_steps client service name kind snap h in
    let (facts, w, b) = observe_service_facts client service kind s e in
    (
      λ ports target found.
          let (exists, same) = facts.0 ports target found in (out.0 ∙ exists, out.1 ∙ same),
      λ missing. let (gone, empty) = facts.1 missing in (out.0 ∙ gone, out.1 ∙ empty),
    )

-- When a read succeeds and the workload does not exist, the snapshot is blank but for the Service
-- and its ports.
pub observe_no_workload :
    (client : Client) (service name kind : String) (snap : RuntimeSnapshot)
    → observe client service name kind ≡ ok snap
    → snap.workload_exists ≡ false
    → snap ≡ record (blank kind) {
      service_exists = snap.service_exists;
      service_ports = snap.service_ports;
    }
observe_no_workload client service name kind snap h w =
    let (s, e, out) = observe_steps client service name kind snap h in
    let (facts, _, b) = observe_service_facts client service kind s e in
    elim out.2 [
      | inl found ↦ cc
      | inr same ↦
          subst
            (λ z. z ≡ record (blank kind) {
              service_exists = z.service_exists;
              service_ports = z.service_ports;
            })
            (sym same) b
    ]
