-- ===== src/Controller/Api.antt =====
-- What the reconciler calls, as a parameter: the API server through controller-runtime's client, and
-- helpers of apimachinery. Every answer may depend on all calls made before, so other clients,
-- stale caches and failures may show in it. A handler is a function from the calls made so far
-- to its result and the calls after it.
use podsequencing.Base.{ℕ, String, Bool, Option, List, ◌∷◌, Result, Error}
use podsequencing.Kubernetes.{Pod, Node, DaemonSet, Labels, Taint, Condition}
use podsequencing.Kubernetes.Platform.{Selector}
use podsequencing.Types.{PodSequence, PodSequenceStatus}

-- A merge patch of labels: `none` deletes the key.
abbrev pub LabelPatch : Type 0
LabelPatch = List (String × Option String)

-- What is read.
pub data Resource : Type 0 where
  sequence_by_name pod_by_name pod_list node_list daemon_set_list sequence_list : Resource

-- A call that changes something, or a read. An event and a counter of released pods are calls too.
pub data Call : Type 0 where
  read : Resource → Call
  patch_pod : (old new : Pod) → Call
  patch_labels : Node → LabelPatch → Call
  patch_taints : Node → List Taint → Call
  update_sequence : PodSequence → Call
  update_status : PodSequence → Call
  event : (type reason message : String) → Call
  count_ungated : (namespace name reason : String) → Call

-- The calls made so far, the last one first.
abbrev pub History : Type 0
History = List Call

pub record Api : Type 0 where
  pub answer_sequence : History → String → String → Result PodSequence
  pub answer_pod : History → String → String → Result Pod
  pub answer_pods : History → Option String → Selector → Result (List Pod)
  pub answer_nodes : History → Result (List Node)
  pub answer_daemon_sets : History → Option String → Result (List DaemonSet)
  pub answer_sequences : History → Result (List PodSequence)
  -- A patch answers with the object as the server has it then.
  pub answer_patch_pod : History → Pod → Pod → Result Pod
  pub answer_patch_labels : History → Node → LabelPatch → Result Node
  pub answer_patch_taints : History → Node → List Taint → Result Node
  pub answer_update_sequence : History → PodSequence → Option Error
  pub answer_update_status : History → PodSequence → Option Error
  pub time : History → ℕ
  -- `client.IgnoreNotFound`, `apierrors.IsConflict`, `kerrors.NewAggregate`
  pub ignore_not_found : Option Error → Option Error
  pub is_conflict : Option Error → Bool
  pub aggregate : List (Option Error) → Option Error
  -- `equality.Semantic.DeepEqual` on statuses
  pub same_status : PodSequenceStatus → PodSequenceStatus → Bool
  -- `meta.SetStatusCondition` and `meta.FindStatusCondition`
  pub set_condition : List Condition → Condition → List Condition
  pub find_condition : List Condition → String → Option Condition
  -- `controllerutil.ContainsFinalizer`, `AddFinalizer` and `RemoveFinalizer`
  pub contains_finalizer : PodSequence → String → Bool
  pub add_finalizer : PodSequence → String → PodSequence
  pub remove_finalizer : PodSequence → String → PodSequence
  -- `equality.Semantic.DeepEqual` on labels and on taints
  pub same_labels : Labels → Labels → Bool
  pub same_taints : List Taint → List Taint → Bool

abbrev pub Action : Type 0 → Type 0
Action A = History → A × History

module _ {A : Type 0} where
  abbrev pub pure : A → Action A
  pure a h = (a, h)

module _ {A B : Type 0} where
  infixl 5 ◌>>=◌
  abbrev pub ◌>>=◌ : Action A → (A → Action B) → Action B
  m >>= f = λ h. let (a, h') = m h in f a h'

-- A call with its answer, and one without.
module _ {A : Type 0} where
  abbrev pub ask : Call → (History → A) → Action A
  ask call answer h = (answer h, call ∷ h)

abbrev pub tell : Call → Action (Unit {0})
tell call h = (tt, call ∷ h)

infixl 5 ◌>>◌
abbrev pub ◌>>◌ : {B : Type 0} → Action (Unit {0}) → Action B → Action B
m >> k = m >>= λ _. k
