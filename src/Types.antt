-- ===== src/Types.antt =====
-- api/v1alpha1/podsequence_types.go: the PodSequence resource. A text with a fixed set of values
-- stays a text, since the code also meets the empty one and treats any other as it comes.
use podsequencing.Base.{ℕ, String, Option, List}
use podsequencing.Kubernetes.{ℤ, LabelSelector, Condition}

abbrev pub policy_skip : String
policy_skip = "SkipIfNotScheduled"

abbrev pub policy_require : String
policy_require = "RequireOnNode"

pub record PodGroup : Type 0 where
  pub name : String
  pub pods : List String
  pub pod_selector : Option LabelSelector
  pub wait_duration : String
  pub policy : String

abbrev pub scope_cluster : String
scope_cluster = "Cluster"

abbrev pub scope_node : String
scope_node = "Node"

abbrev pub method_node_label : String
method_node_label = "NodeLabel"

abbrev pub method_taint : String
method_taint = "Taint"

pub record NodeEligibility : Type 0 where
  pub method : String

pub record PodSequenceSpec : Type 0 where
  pub pod_groups : List PodGroup
  pub scope : String
  pub namespace : String
  pub scheduling_gate_name : String
  pub node_selector : Option LabelSelector
  pub node_eligibility : Option NodeEligibility
  pub gate_timeout : Option ℤ

pub record NodeSequenceStatus : Type 0 where
  pub node_name : String
  pub current_index : ℕ
  pub phase : String
  pub message : String

pub record NodeSummary : Type 0 where
  pub total_nodes : ℕ
  pub satisfied_nodes : ℕ
  pub failed_nodes : ℕ
  pub gated_pods : ℕ

-- The controller writes `current_index` from counts alone, so it is a natural number.
pub record PodSequenceStatus : Type 0 where
  pub current_index : ℕ
  pub phase : String
  pub node_status : List NodeSequenceStatus
  pub summary : Option NodeSummary
  pub node_eligibility_key : String
  pub conditions : List Condition
  pub processed_pods : List String
  pub current_group_pods : List String
  pub ready_pods_in_current_group : ℕ
  pub message : String

abbrev pub phase_pending : String
phase_pending = "Pending"

abbrev pub phase_in_progress : String
phase_in_progress = "InProgress"

abbrev pub phase_active : String
phase_active = "Active"

abbrev pub phase_completed : String
phase_completed = "Completed"

abbrev pub phase_failed : String
phase_failed = "Failed"

abbrev pub condition_ready : String
condition_ready = "Ready"

abbrev pub condition_degraded : String
condition_degraded = "Degraded"

pub record PodSequence : Type 0 where
  pub name : String
  pub namespace : String
  pub generation : ℕ
  pub deletion_timestamp : Option ℕ
  pub finalizers : List String
  pub spec : PodSequenceSpec
  pub status : PodSequenceStatus
