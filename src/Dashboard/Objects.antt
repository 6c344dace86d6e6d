-- ===== src/Dashboard/Objects.antt =====
-- The objects of the Kubernetes API that internal/dashboard builds, as records of its library cut down
-- to the fields that are set. Pointers to scalars are options; a field that is not set has the zero
-- value, which the library leaves out when it writes an object.
use pacto_operator.Prelude.{String, Bool, false, Option, none, List, [], ℕ}

pub record OwnerReference : Type 0 where
  pub api_version : String
  pub kind : String
  pub name : String
  pub uid : String

pub record ObjectMeta : Type 0 where
  pub name : String
  pub namespace : String
  pub labels : List (String × String)
  pub owner_references : List OwnerReference
  -- whether the deletion time stamp is set, as while a foreground deletion waits
  pub deleting : Bool

pub record PolicyRule : Type 0 where
  pub api_groups : List String
  pub resources : List String
  pub verbs : List String

pub record Subject : Type 0 where
  pub kind : String
  pub name : String
  pub namespace : String

pub record RoleRef : Type 0 where
  pub api_group : String
  pub kind : String
  pub name : String

-- A quantity, by its canonical text.
pub record Quantity : Type 0 where
  pub canonical_text : String

abbrev pub ResourceList : Type 0
ResourceList = List (String × Quantity)

pub record ResourceRequirements : Type 0 where
  pub requests : ResourceList
  pub limits : ResourceList

pub record EnvVar : Type 0 where
  pub name : String
  pub value : String

pub record VolumeMount : Type 0 where
  pub name : String
  pub mount_path : String
  pub read_only : Bool

pub record KeyToPath : Type 0 where
  pub key : String
  pub path : String

pub data VolumeSource : Type 0 where
  no_source : VolumeSource
  empty_dir : VolumeSource
  -- the name of the Secret, its items, and whether it is optional
  secret_volume : String → List KeyToPath → Option Bool → VolumeSource

pub record Volume : Type 0 where
  pub name : String
  pub source : VolumeSource

pub record ContainerPort : Type 0 where
  pub name : String
  pub container_port : ℕ
  pub protocol : String

-- A probe by HTTP of a path on a port.
pub record HttpProbe : Type 0 where
  pub path : String
  pub port : ℕ
  pub initial_delay_seconds : ℕ
  pub period_seconds : ℕ

pub record SecurityContext : Type 0 where
  pub read_only_root_filesystem : Option Bool
  pub allow_privilege_escalation : Option Bool
  pub drop_capabilities : List String

pub record Container : Type 0 where
  pub name : String
  pub image : String
  pub ports : List ContainerPort
  pub env : List EnvVar
  pub volume_mounts : List VolumeMount
  pub liveness_probe : Option HttpProbe
  pub readiness_probe : Option HttpProbe
  pub security_context : Option SecurityContext
  pub resources : ResourceRequirements

pub record PodSecurityContext : Type 0 where
  pub run_as_non_root : Option Bool
  pub run_as_user : Option ℕ
  pub seccomp_profile : Option String

pub record PodSpec : Type 0 where
  pub service_account_name : String
  pub security_context : Option PodSecurityContext
  pub containers : List Container
  pub volumes : List Volume
  pub termination_grace_period_seconds : Option ℕ

pub record DeploymentSpec : Type 0 where
  pub replicas : Option ℕ
  pub match_labels : List (String × String)
  pub template_labels : List (String × String)
  pub template_spec : PodSpec

pub record ServicePort : Type 0 where
  pub name : String
  pub port : ℕ
  pub target_port : ℕ
  pub protocol : String

pub record ServiceSpec : Type 0 where
  pub selector : List (String × String)
  pub ports : List ServicePort

-- An object of the cluster, of a kind that the reconciler writes.
pub data Object : Type 0 where
  namespace_object : ObjectMeta → Object
  service_account : ObjectMeta → Object
  cluster_role : ObjectMeta → List PolicyRule → Object
  cluster_role_binding : ObjectMeta → List Subject → RoleRef → Object
  deployment : ObjectMeta → DeploymentSpec → Object
  service : ObjectMeta → ServiceSpec → Object
  -- the type and the data
  secret : ObjectMeta → String → List (String × String) → Object

abbrev pub meta_of : Object → ObjectMeta
meta_of (namespace_object m) = m
meta_of (service_account m) = m
meta_of (cluster_role m rules) = m
meta_of (cluster_role_binding m subjects role) = m
meta_of (deployment m spec) = m
meta_of (service m spec) = m
meta_of (secret m type content) = m

-- The blank metadata of an object of a name in a namespace.
abbrev pub named : String → String → ObjectMeta
named name namespace = record {
  name = name;
  namespace = namespace;
  labels = [];
  owner_references = [];
  deleting = false;
}

-- What the constructors of the library's apply configurations give.
abbrev pub blank_container : Container
blank_container = record {
  name = "";
  image = "";
  ports = [];
  env = [];
  volume_mounts = [];
  liveness_probe = none;
  readiness_probe = none;
  security_context = none;
  resources = record { requests = []; limits = [] };
}

abbrev pub blank_pod : PodSpec
blank_pod = record {
  service_account_name = "";
  security_context = none;
  containers = [];
  volumes = [];
  termination_grace_period_seconds = none;
}

abbrev pub blank_deployment : DeploymentSpec
blank_deployment = record {
  replicas = none;
  match_labels = [];
  template_labels = [];
  template_spec = blank_pod;
}

abbrev pub blank_probe : HttpProbe
blank_probe = record { path = ""; port = 0; initial_delay_seconds = 0; period_seconds = 0 }
