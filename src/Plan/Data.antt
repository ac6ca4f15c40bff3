-- ===== src/Plan/Data.antt =====
-- internal/controller/nodeplan.go: the plan's input, output and parts.
use podsequencing.Base.{ℕ, String, Bool, ◌||◌, Option, List, ◌==◌, nat_eq, ltb, if◌then◌else◌}
use podsequencing.Kubernetes.{ℤ, Pod, Node, DaemonSet, NodeSelectorRequirement, Toleration}
use podsequencing.Types.{PodSequence, PodGroup}

abbrev pub reason_satisfied : String
reason_satisfied = "satisfied"

abbrev pub reason_bypass : String
reason_bypass = "bypass"

abbrev pub reason_unpinned : String
reason_unpinned = "unpinned"

abbrev pub reason_not_participating : String
reason_not_participating = "node-not-participating"

abbrev pub reason_node_missing : String
reason_node_missing = "node-missing"

abbrev pub reason_no_group : String
reason_no_group = "no-matching-group"

pub record NodePlanInput : Type 0 where
  pub seq : PodSequence
  pub nodes : List Node
  pub pods : List Pod
  pub daemon_sets : List DaemonSet
  pub now : ℕ

pub record NodeState : Type 0 where
  pub name : String
  pub participating : Bool
  pub satisfied : ℕ
  pub message : String
  pub failed : Bool

-- A group of `none` stands for -1.
pub record PodAction : Type 0 where
  pub pod : Pod
  pub group : Option ℕ
  pub reason : String
  pub add_affinity : Option NodeSelectorRequirement
  pub add_tolerations : List Toleration

pub record TimedOutPod : Type 0 where
  pub pod : Pod
  pub node : String
  pub group : ℕ

pub record NodePlan : Type 0 where
  pub key : String
  pub method : String
  pub num_groups : ℕ
  pub nodes : List NodeState
  pub ungate : List PodAction
  pub gated_pods : ℕ
  pub timed_out : List TimedOutPod
  pub missing_toleration : List String
  pub requeue_after : ℕ

pub record Member : Type 0 where
  pub pod : Pod
  pub group : ℕ
  pub node : String

-- `groups[i]`, `waits[i]` and `dsByGroup[i]`.
pub record GroupInfo : Type 0 where
  pub group : PodGroup
  pub wait : ℤ
  pub daemon_sets : List DaemonSet

-- `requeue`, on the field that it writes: 0 means no re-evaluation.
unfoldable pub requeue : ℕ → ℕ → ℕ
requeue after d = if d == 0 then after else if after == 0 || ltb d after then d else after
