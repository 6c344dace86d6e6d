-- ===== src/Controller/Watches/Complete.antt =====
-- No change that a reconciliation would see goes without one.
use pacto_operator.Prelude.{
  String, Bool, true, false, Option, some, List, [], ◌∷◌, ◌≡◌, ◌≢◌, refl, ◌∙◌, ap, sym, subst,
  arith, ◌⊎◌, inl, inr, ◌==◌, ◌!=◌, string_eq, if◌then◌else◌,
}
use mathlib.Core.Path.{fun_ext}
use pacto_operator.Api.Spec.{resolved_workload}
use pacto_operator.Api.Pacto.{Pacto}
use pacto_operator.Observer.{
  Fetched, Client, RuntimeSnapshot, Observed, ◌>>=◌, blank, observe_object, observe_deployment,
  observe_stateful_set, observe_replica_set, observe_job, observe_cron_job, observe_workload,
  observe_service, observe_target, observe, read_deployment, read_stateful_set,
  extract_pod_template_info,
}
use pacto_operator.Credentials.{Codec, Secret}
use pacto_operator.Controller.Handlers.{
  request_for, Any, Reads, map_object_to_pactos, map_secret_to_pactos, map_object_to_pactos_iff,
  map_secret_to_pactos_iff,
}
use pacto_operator.Controller.Watches.{
  WatchedKind, watched_service, watched_secret, watched_deployment, watched_stateful_set,
  watched_replica_set, watched_job, watched_cron_job, enqueue, Namespace, resolve_oci_auth,
  observe_pacto, pull_credentials,
}

-- An object other than the one of the kind and name.
abbrev pub Other : WatchedKind → String → WatchedKind → String → Type 0
Other kind name k n = (k ≢ kind) ⊎ (n ≢ name)

-- Two states of a namespace between which one object may have changed.
pub record SameBut (kind : WatchedKind) (name : String) (a b : Namespace) : Type 0 where
  pub services :
      (n : String)
      → Other kind name watched_service n
      → a.client.get_service n ≡ b.client.get_service n
  pub deployments :
      (n : String)
      → Other kind name watched_deployment n
      → a.client.get_deployment n ≡ b.client.get_deployment n
  pub stateful_sets :
      (n : String)
      → Other kind name watched_stateful_set n
      → a.client.get_stateful_set n ≡ b.client.get_stateful_set n
  pub replica_sets :
      (n : String)
      → Other kind name watched_replica_set n
      → a.client.get_replica_set n ≡ b.client.get_replica_set n
  pub jobs : (n : String) → Other kind name watched_job n → a.client.get_job n ≡ b.client.get_job n
  pub cron_jobs :
      (n : String)
      → Other kind name watched_cron_job n
      → a.client.get_cron_job n ≡ b.client.get_cron_job n
  pub secrets : (n : String) → Other kind name watched_secret n → a.get_secret n ≡ b.get_secret n

if_same :
    {A : Type 0} (b : Bool) {x y u v : A}
    → x ≡ y
    → u ≡ v
    → (if b then x else u) ≡ (if b then y else v)
if_same true h k = h
if_same false h k = k

observe_service_same :
    (a b : Client) (name : String) (snap : RuntimeSnapshot)
    → a.get_service name ≡ b.get_service name
    → observe_service a name snap ≡ observe_service b name snap
unfolding observe_service
observe_service_same a b name snap h = rw (observe_service, h) refl

observe_workload_same :
    (a b : Client) (name kind : String) (snap : RuntimeSnapshot)
    → a.get_deployment name ≡ b.get_deployment name
    → a.get_stateful_set name ≡ b.get_stateful_set name
    → a.get_replica_set name ≡ b.get_replica_set name
    → a.get_job name ≡ b.get_job name
    → a.get_cron_job name ≡ b.get_cron_job name
    → observe_workload a name kind snap ≡ observe_workload b name kind snap
unfolding observe_workload observe_deployment observe_stateful_set observe_replica_set observe_job
    observe_cron_job
observe_workload_same a b name kind snap dep sts rs job cron =
    let deployment =
      ap
        (λ (f : Fetched _).
          observe_object "failed to get Deployment %s: %w" name f read_deployment snap)
        dep in
    if_same (kind == "Deployment") deployment (
      if_same (kind == "StatefulSet")
        (ap
          (λ (f : Fetched _).
            observe_object "failed to get StatefulSet %s: %w" name f read_stateful_set snap)
          sts)
        (if_same (kind == "ReplicaSet")
          (ap
            (λ (f : Fetched _).
              observe_object "failed to get ReplicaSet %s: %w" name f extract_pod_template_info
                snap)
            rs)
          (if_same (kind == "Job")
            (ap
              (λ (f : Fetched _).
                observe_object "failed to get Job %s: %w" name f extract_pod_template_info snap)
              job)
            (if_same (kind == "CronJob")
              (ap
                (λ (f : Fetched _).
                  observe_object "failed to get CronJob %s: %w" name f extract_pod_template_info
                    snap)
                cron)
              deployment))))

observe_target_same :
    (a b : Client) (name kind : String) (snap : RuntimeSnapshot)
    → a.get_deployment name ≡ b.get_deployment name
    → a.get_stateful_set name ≡ b.get_stateful_set name
    → a.get_replica_set name ≡ b.get_replica_set name
    → a.get_job name ≡ b.get_job name
    → a.get_cron_job name ≡ b.get_cron_job name
    → observe_target a name kind snap ≡ observe_target b name kind snap
unfolding observe_target
observe_target_same a b name kind snap dep sts rs job cron =
    if_same (name != "") (observe_workload_same a b name kind snap dep sts rs job cron) refl

-- A Pacto of the list has what some element of the list has.
Any-member :
    (P : Pacto → Type 0) (p : Pacto) (ps : List Pacto) → Any (λ q. q ≡ p) ps → P p → Any P ps
Any-member P p [] nowhere h = absurd nowhere
Any-member P p (q ∷ ps) (inl e) h = inl (subst P (sym e) h)
Any-member P p (q ∷ ps) (inr later) h = inr (Any-member P p ps later h)

module _ (list : String → Option (List Pacto)) (namespace : String) (ps : List Pacto)
    (listed : list namespace ≡ some ps) (p : Pacto) (member : Any (λ q. q ≡ p) ps) where
  -- A Pacto that an object's event misses does not read an object of the name.
  not_read :
      (name : String)
      → (Any (λ q. q ≡ request_for p) (map_object_to_pactos list namespace name) → ⊥)
      → Reads name p
      → ⊥
  not_read name missed reads = missed (
      (map_object_to_pactos_iff list namespace name ps (request_for p) listed).1 (
        Any-member (λ q. Reads name q × (request_for q ≡ request_for p)) p ps member (reads, refl)))

  not_named :
      (name : String)
      → (Any (λ q. q ≡ request_for p) (map_secret_to_pactos list namespace name) → ⊥)
      → p.spec.contract_ref.pull_secret_ref ≢ name
  not_named name missed named = missed (
      (map_secret_to_pactos_iff list namespace name ps (request_for p) listed).1 (
        Any-member
          (λ q. (q.spec.contract_ref.pull_secret_ref ≡ name) × (request_for q ≡ request_for p)) p ps
          member (named, refl)))

  abbrev Missed : WatchedKind → String → Type 0
  Missed kind name = Any (λ q. q ≡ request_for p) (enqueue list kind namespace name) → ⊥

  -- What the Pacto reads is another object than the one whose event misses it.
  service-Other :
      (kind : WatchedKind) (name : String)
      → Missed kind name
      → Other kind name watched_service p.spec.target.service_name
  unfolding enqueue
  service-Other watched_secret name missed = inl (λ e. absurd (ground arith))
  service-Other watched_service name missed = inr (λ e. not_read name missed (inl e))
  service-Other watched_deployment name missed = inr (λ e. not_read name missed (inl e))
  service-Other watched_stateful_set name missed = inr (λ e. not_read name missed (inl e))
  service-Other watched_replica_set name missed = inr (λ e. not_read name missed (inl e))
  service-Other watched_job name missed = inr (λ e. not_read name missed (inl e))
  service-Other watched_cron_job name missed = inr (λ e. not_read name missed (inl e))

  workload-Other :
      (kind : WatchedKind) (name : String)
      → Missed kind name
      → (k : WatchedKind) → k ≢ watched_secret
      → Other kind name k (resolved_workload p.spec).0
  unfolding enqueue
  workload-Other watched_secret name missed k n = inl n
  workload-Other watched_service name missed k n = inr (λ e. not_read name missed (inr e))
  workload-Other watched_deployment name missed k n = inr (λ e. not_read name missed (inr e))
  workload-Other watched_stateful_set name missed k n = inr (λ e. not_read name missed (inr e))
  workload-Other watched_replica_set name missed k n = inr (λ e. not_read name missed (inr e))
  workload-Other watched_job name missed k n = inr (λ e. not_read name missed (inr e))
  workload-Other watched_cron_job name missed k n = inr (λ e. not_read name missed (inr e))

  secret-Other :
      (kind : WatchedKind) (name : String)
      → Missed kind name
      → Other kind name watched_secret p.spec.contract_ref.pull_secret_ref
  unfolding enqueue
  secret-Other watched_secret name missed = inr (not_named name missed)
  secret-Other watched_service name missed = inl (λ e. absurd (ground arith))
  secret-Other watched_deployment name missed = inl (λ e. absurd (ground arith))
  secret-Other watched_stateful_set name missed = inl (λ e. absurd (ground arith))
  secret-Other watched_replica_set name missed = inl (λ e. absurd (ground arith))
  secret-Other watched_job name missed = inl (λ e. absurd (ground arith))
  secret-Other watched_cron_job name missed = inl (λ e. absurd (ground arith))

  -- For a Pacto of the list of its namespace, and two states of the namespace between which at most one
  -- object has changed: where the event of the object does not enqueue the Pacto, a reconciliation of it
  -- would observe the same of its target, and resolve the same credentials, before and after the change.
  pub observe_pacto-missed :
      (codec : Codec) (kind : WatchedKind) (name : String) (a b : Namespace)
      → SameBut kind name a b
      → (Any (λ q. q ≡ request_for p) (enqueue list kind namespace name) → ⊥)
      → (observe_pacto a p ≡ observe_pacto b p)
        × (pull_credentials codec a p ≡ pull_credentials codec b p)
  unfolding observe_pacto pull_credentials resolve_oci_auth observe
  observe_pacto-missed codec kind name a b same missed =
      let (workload, workload_kind) = resolved_workload p.spec in
      let other = workload-Other kind name missed in
      let first =
        observe_service_same a.client b.client p.spec.target.service_name (blank workload_kind)
          (same.services p.spec.target.service_name (service-Other kind name missed)) in
      let target = λ (snap : RuntimeSnapshot).
        observe_target_same a.client b.client workload workload_kind snap
          (same.deployments workload (other watched_deployment (λ e. absurd (ground arith))))
          (same.stateful_sets workload (other watched_stateful_set (λ e. absurd (ground arith))))
          (same.replica_sets workload (other watched_replica_set (λ e. absurd (ground arith))))
          (same.jobs workload (other watched_job (λ e. absurd (ground arith))))
          (same.cron_jobs workload (other watched_cron_job (λ e. absurd (ground arith)))) in
      (
        ap (λ (r : Observed RuntimeSnapshot). r >>= observe_target a.client workload workload_kind)
              first
            ∙ ap
                (λ (f : RuntimeSnapshot → Observed RuntimeSnapshot).
                  observe_service b.client p.spec.target.service_name (blank workload_kind) >>= f)
                (fun_ext target),
        ap
            (λ (f : Fetched Secret).
              resolve_oci_auth codec (λ _. f) p.spec.contract_ref.pull_secret_ref
                p.spec.contract_ref.oci)
            (same.secrets p.spec.contract_ref.pull_secret_ref (secret-Other kind name missed)),
      )
