-- ===== src/Observer/Answers.antt =====
-- What `Observe` of internal/observer/runtime.go returns, from the answers of the cluster alone.
use pacto_operator.Prelude.{String, true, false, ◌≡◌, refl, ◌≢◌, ◌⊎◌, inl, inr, ◌∙◌, arith}
use pacto_operator.Prelude.{
  Bool, Bool-cases, ◌==◌, ◌!=◌, string_eq, if◌then◌else◌, if_both, ap, List, [], ◌++◌, ℤ,
}
use pacto_operator.Message.{sprintf, str, msg, done}
use pacto_operator.Observer.{
  Fetched, fetched, absent, failed, Client, RuntimeSnapshot, Observed, ok, err,
  extract_pod_template_info, read_deployment, read_stateful_set, observe_deployment,
  observe_stateful_set, observe_replica_set, observe_job, observe_cron_job, observe_workload,
  observe_service, observe, observe_target, observe_object, blank, ◌>>=◌,
}
use pacto_operator.Observer.Facts.{
  Keeps, extract-Keeps, read_deployment-Keeps, read_stateful_set-Keeps, ServiceFacts,
  observe_service_target, observe_no_workload,
}

-- An object is there, is not there, or could not be read.
pub data Answer : Type 0 where
  there missing unread : Answer

abbrev pub answer : {A : Type 0} → Fetched A → Answer
answer (fetched a) = there
answer absent = missing
answer (failed e) = unread

abbrev pub is_there : Answer → Bool
is_there there = true
is_there _ = false

-- Where no name is given nothing is read, and nothing is missing either.
abbrev pub service_answer : Client → String → Answer
service_answer client service =
    if service != "" then answer (client.get_service service) else missing

-- The object that a kind names; an unknown kind is a Deployment.
abbrev pub kind_answer : Client → String → String → Answer
kind_answer client name kind =
    if kind == "Deployment"
    then answer (client.get_deployment name)
    else if kind == "StatefulSet"
    then answer (client.get_stateful_set name)
    else if kind == "ReplicaSet"
    then answer (client.get_replica_set name)
    else if kind == "Job"
    then answer (client.get_job name)
    else if kind == "CronJob"
    then answer (client.get_cron_job name)
    else answer (client.get_deployment name)

abbrev pub workload_answer : Client → String → String → Answer
workload_answer client name kind = if name != "" then kind_answer client name kind else missing

-- A read with an answer: an error where it could not be read, and else whether it is there.
abbrev pub Found : RuntimeSnapshot → Observed RuntimeSnapshot → Answer → Type 0
Found old (ok new) a =
    (a ≢ unread)
    × (new.workload_exists ≡ (if is_there a then true else old.workload_exists))
    × (new.service_exists ≡ old.service_exists)
Found old (err e) a = a ≡ unread

observe_object-Found :
    {A : Type 0} (format name : String) (found : Fetched A)
    (read : A → RuntimeSnapshot → RuntimeSnapshot)
    → ((a : A) → Keeps (read a))
    → (snap : RuntimeSnapshot)
    → Found snap (observe_object format name found read snap) (answer found)
observe_object-Found format name (fetched a) read keeps snap =
    let (s, p, w) = keeps a (record snap { workload_exists = true }) in
    ((λ h. absurd (ground arith)), w, s)
observe_object-Found format name absent read keeps snap = ((λ h. absurd (ground arith)), refl, refl)
observe_object-Found format name (failed e) read keeps snap = refl

module _ (client : Client) (name : String) (snap : RuntimeSnapshot) where
  observe_workload-Found :
      (kind : String)
      → Found snap (observe_workload client name kind snap) (kind_answer client name kind)
  unfolding observe_workload observe_deployment observe_stateful_set observe_replica_set observe_job
      observe_cron_job
  observe_workload-Found kind =
      let deployment =
        observe_object-Found "failed to get Deployment %s: %w" name (client.get_deployment name)
          read_deployment read_deployment-Keeps snap in
      if_both (Found snap) (kind == "Deployment") deployment (
        if_both (Found snap) (kind == "StatefulSet")
          (observe_object-Found _ name (client.get_stateful_set name) read_stateful_set
            read_stateful_set-Keeps snap)
          (if_both (Found snap) (kind == "ReplicaSet")
            (observe_object-Found _ name (client.get_replica_set name) extract_pod_template_info
              extract-Keeps snap)
            (if_both (Found snap) (kind == "Job")
              (observe_object-Found _ name (client.get_job name) extract_pod_template_info
                extract-Keeps snap)
              (if_both (Found snap) (kind == "CronJob")
                (observe_object-Found _ name (client.get_cron_job name) extract_pod_template_info
                  extract-Keeps snap)
                deployment))))

  observe_target-Found :
      (kind : String)
      → Found snap (observe_target client name kind snap) (workload_answer client name kind)
  unfolding observe_target
  observe_target-Found kind =
      if_both (Found snap) (name != "") (observe_workload-Found kind)
        ((λ h. absurd (ground arith)), refl, refl)

-- An error where one of the two could not be read. Else the Service is there with its ports, or not,
-- the workload is there or not, and nothing is said of a workload that is not.
abbrev pub Answered : Client → String → String → String → Observed RuntimeSnapshot → Type 0
Answered client service name kind (err e) =
    (service_answer client service ≡ unread) ⊎ (workload_answer client name kind ≡ unread)
Answered client service name kind (ok snap) =
    (service_answer client service ≢ unread)
    × (workload_answer client name kind ≢ unread)
    × (snap.service_exists ≡ is_there (service_answer client service))
    × (snap.workload_exists ≡ is_there (workload_answer client name kind))
    × ServiceFacts client service snap
    × ((snap.workload_exists ≡ true)
        ⊎ (snap ≡ record (blank kind) {
          service_exists = snap.service_exists;
          service_ports = snap.service_ports;
        }))

-- The read of the Service of a blank snapshot.
abbrev ServiceFound : Answer → Observed RuntimeSnapshot → Type 0
ServiceFound a (ok new) =
    (a ≢ unread) × (new.workload_exists ≡ false) × (new.service_exists ≡ is_there a)
ServiceFound a (err e) = a ≡ unread

observe_service-ServiceFound :
    (client : Client) (service kind : String)
    → ServiceFound (service_answer client service) (observe_service client service (blank kind))
unfolding observe_service
observe_service-ServiceFound client service kind =
    if_both (λ (r : Observed RuntimeSnapshot) (a : Answer). ServiceFound a r) (service != "")
      (fetched_service (client.get_service service)) ((λ h. absurd (ground arith)), refl, refl)
  where
    fetched_service :
        (found : Fetched (List ℤ))
        → ServiceFound (answer found) (elim found as (λ _. Observed RuntimeSnapshot) [
          | fetched ports ↦
              ok (record (blank kind) { service_exists = true; service_ports = [] ++ ports })
          | absent ↦ ok (blank kind)
          | failed e ↦ err (sprintf "failed to get service %s: %w" (str service (msg e done)))
        ])
    fetched_service (fetched ports) = ((λ h. absurd (ground arith)), refl, refl)
    fetched_service absent = ((λ h. absurd (ground arith)), refl, refl)
    fetched_service (failed e) = refl

-- The two reads, one after the other.
abbrev Read : Answer → Answer → Observed RuntimeSnapshot → Type 0
Read a b (err e) = (a ≡ unread) ⊎ (b ≡ unread)
Read a b (ok snap) =
    (a ≢ unread)
    × (b ≢ unread)
    × (snap.service_exists ≡ is_there a)
    × (snap.workload_exists ≡ is_there b)

there_or_not : (b : Answer) → (if is_there b then true else false) ≡ is_there b
there_or_not there = refl
there_or_not missing = refl
there_or_not unread = refl

Found-Read :
    (a b : Answer) (s : RuntimeSnapshot) (r : Observed RuntimeSnapshot)
    → ServiceFound a (ok s)
    → Found s r b
    → Read a b r
Found-Read a b s (err e) hs hr = inr hr
Found-Read a b s (ok snap) (read, none_yet, exists) (also_read, workload, same) = (
  read,
  also_read,
  same ∙ exists,
  workload ∙ ap (λ (old : Bool). if is_there b then true else old) none_yet ∙ there_or_not b,
)

bind-Read :
    (a b : Answer) (r : Observed RuntimeSnapshot) (f : RuntimeSnapshot → Observed RuntimeSnapshot)
    → ServiceFound a r
    → ((s : RuntimeSnapshot) → Found s (f s) b)
    → Read a b (r >>= f)
bind-Read a b (err e) f h k = inl h
bind-Read a b (ok s) f h k = Found-Read a b s (f s) h (k s)

observe-Read :
    (client : Client) (service name kind : String)
    → Read
        (service_answer client service)
        (workload_answer client name kind)
        (observe client service name kind)
unfolding observe
observe-Read client service name kind =
    bind-Read (service_answer client service) (workload_answer client name kind)
      (observe_service client service (blank kind)) (observe_target client name kind)
      (observe_service-ServiceFound client service kind)
      (λ s. observe_target-Found client name s kind)

Read-Answered :
    (client : Client) (service name kind : String) (r : Observed RuntimeSnapshot)
    → observe client service name kind ≡ r
    → Read (service_answer client service) (workload_answer client name kind) r
    → Answered client service name kind r
Read-Answered client service name kind (err e) h read = read
Read-Answered client service name kind (ok snap) h (a, b, exists, workload) = (
  a,
  b,
  exists,
  workload,
  observe_service_target client service name kind snap h,
  elim (Bool-cases snap.workload_exists) [
    | inl found ↦ inl found
    | inr gone ↦ inr (observe_no_workload client service name kind snap h gone)
  ],
)

-- For every cluster, Service and workload: Observe fails exactly where one of the two is named and
-- cannot be read for another reason than that it is not found; else the snapshot says of each
-- whether it was found, has the ports of the Service, and is blank otherwise where the workload was
-- not found.
pub observe-Answered :
    (client : Client) (service name kind : String)
    → Answered client service name kind (observe client service name kind)
observe-Answered client service name kind =
    Read-Answered client service name kind (observe client service name kind) refl
      (observe-Read client service name kind)
