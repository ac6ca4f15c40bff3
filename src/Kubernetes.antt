-- ===== src/Kubernetes.antt =====
-- The parts of the Kubernetes objects that the code reads or writes (k8s.io/api, apimachinery).
-- A field that no line of the code touches is left out. A `map[string]string` is an association
-- list, a nil pointer is `none`, an unset text is "". Instants are nanoseconds from the zero time.
pub mod Platform
use podsequencing.Base.{ℕ, zero, suc, String, Bool, Option, List}

-- An `int64`, unbounded: a duration in nanoseconds. `negsuc n` is -(n + 1).
pub data ℤ : Type 0 where
  pos : ℕ → ℤ
  negsuc : ℕ → ℤ

-- max(d, 0): all that the code does with a duration that is not positive is to treat it as none.
abbrev pub pos_part : ℤ → ℕ
pos_part (pos n) = n
pos_part (negsuc n) = zero

abbrev pub Labels : Type 0
Labels = List (String × String)

pub record NodeSelectorRequirement : Type 0 where
  pub key : String
  pub operator : String
  pub values : List String

pub record LabelSelector : Type 0 where
  pub match_labels : Labels
  pub match_expressions : List NodeSelectorRequirement

pub record NodeSelectorTerm : Type 0 where
  pub match_expressions : List NodeSelectorRequirement
  pub match_fields : List NodeSelectorRequirement

-- `required` holds the terms of `requiredDuringSchedulingIgnoredDuringExecution`.
pub record NodeAffinity : Type 0 where
  pub required : Option (List NodeSelectorTerm)

pub record Affinity : Type 0 where
  pub node_affinity : Option NodeAffinity

pub record Toleration : Type 0 where
  pub key : String
  pub operator : String
  pub value : String
  pub effect : String

pub record Taint : Type 0 where
  pub key : String
  pub value : String
  pub effect : String

-- `scheduling_gates` holds the gates' names.
pub record PodSpec : Type 0 where
  pub node_name : String
  pub host_network : Bool
  pub affinity : Option Affinity
  pub tolerations : List Toleration
  pub scheduling_gates : List String

pub record PodCondition : Type 0 where
  pub type : String
  pub status : String
  pub last_transition_time : ℕ

pub record OwnerReference : Type 0 where
  pub uid : String
  pub controller : Option Bool

pub record Pod : Type 0 where
  pub name : String
  pub namespace : String
  pub labels : Labels
  pub annotations : Labels
  pub owner_references : List OwnerReference
  pub creation_timestamp : ℕ
  pub deletion_timestamp : Option ℕ
  pub spec : PodSpec
  pub phase : String
  pub conditions : List PodCondition

pub record Node : Type 0 where
  pub name : String
  pub labels : Labels
  pub deletion_timestamp : Option ℕ
  pub taints : List Taint

-- `template_labels` and `template_spec` are those of `spec.template`.
pub record DaemonSet : Type 0 where
  pub name : String
  pub namespace : String
  pub uid : String
  pub labels : Labels
  pub deletion_timestamp : Option ℕ
  pub template_labels : Labels
  pub template_spec : PodSpec

-- `metav1.Condition`
pub record Condition : Type 0 where
  pub type : String
  pub status : String
  pub observed_generation : ℕ
  pub reason : String
  pub message : String

abbrev pub exists_operator : String
exists_operator = "Exists"

abbrev pub equal_operator : String
equal_operator = "Equal"

abbrev pub gt_operator : String
gt_operator = "Gt"

abbrev pub in_operator : String
in_operator = "In"

abbrev pub no_schedule : String
no_schedule = "NoSchedule"

abbrev pub no_execute : String
no_execute = "NoExecute"
