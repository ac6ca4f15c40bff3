-- ===== src/Tests/Server.antt =====
-- An API server that accepts every patch, and the theorems on writing node keys applied to it.
use podsequencing.Base.{
  Bool, Option, List, ◌==◌, ◌!=◌, string_eq, any, str_eq_iff, String, ◌≡◌, refl, sym, ap, true,
  false, none, some, [], ◌∷◌, ◌++◌, ok, err, Error, not_found, arith, ◌↔◌, ◌⊎◌, ◌≤◌, take, map,
  keep, count, All,
}
use podsequencing.Kubernetes.{Node, Pod, Taint, no_schedule}
use podsequencing.Types.{phase_active, phase_in_progress, phase_failed}
use podsequencing.Sequence.Keys.{default_scheduling_gate}
use podsequencing.Sequence.Pods.{has_gate}
use podsequencing.Sequence.Steering.{eligibility_tolerations, eligibility_requirement}
use podsequencing.Plan.Data.{NodeState, PodAction, NodePlan}
use podsequencing.Tests.Platform.{platform, platform-IsDocumented}
use podsequencing.Tests.Plans.{sequence, plan, csi_pod}
use podsequencing.Controller.Taints.{own}
use podsequencing.Controller.Api.{Api, History, patch_pod}
use podsequencing.Controller.NodeKeys.{set_node_key, release_node_keys}
use podsequencing.Controller.DeletionSafety.{IsAggregating}
use podsequencing.Controller.Echo.{IsEchoing, patched, replay}
use podsequencing.Controller.Released.{IsReleased, release_node_keys-IsReleased}
use podsequencing.Controller.Gates.{without_gate, apply_pod_action}
use podsequencing.Controller.Release.{
  WasSteered, InOrder, apply_pod_action-IsOrdered, apply_pod_action-releases,
}
use podsequencing.Controller.Status.{entry_of, set_node_scoped_status}
use podsequencing.Controller.Report.{
  is_done, is_late, is_open, IsLeast, set_node_scoped_status-entries, set_node_scoped_status-phase,
  set_node_scoped_status-IsLeast,
}
use podsequencing.Controller.NodeKeys.{sync_node_eligibility}
use podsequencing.Controller.Labelling.{
  sync_node_eligibility-matches, sync_node_eligibility-tolerated,
}
use podsequencing.Controller.NodeSync.{IsSynced, set_node_key-IsSynced, set_node_key-quiet}

abbrev missing : Error
missing = record { kind = not_found; text = "missing" }

abbrev first_error : List (Option Error) → Option Error
first_error [] = none
first_error (none ∷ errs) = first_error errs
first_error (some x ∷ errs) = some x

abbrev pub api : Api
api = record {
  answer_sequence = λ h namespace name. err missing;
  answer_pod = λ h namespace name. err missing;
  answer_pods = λ h namespace selector. ok [];
  answer_nodes = λ h. ok [];
  answer_daemon_sets = λ h namespace. ok [];
  answer_sequences = λ h. ok [];
  answer_patch_pod = λ h old new. ok new;
  answer_patch_labels = λ h node patch. ok (record node { labels = patched patch node.labels });
  answer_patch_taints = λ h node taints. ok (record node { taints = taints });
  answer_update_sequence = λ h seq. none;
  answer_update_status = λ h seq. none;
  time = λ h. 0;
  ignore_not_found =
      λ e. elim e [ none ↦ none | some x ↦ elim x.kind [ not_found ↦ none | _ ↦ some x ] ];
  is_conflict = λ e. false;
  aggregate = first_error;
  same_status = λ s t. false;
  set_condition = λ conditions c. conditions ++ (c ∷ []);
  find_condition = λ conditions type. none;
  contains_finalizer = λ seq key. any (λ f. f == key) seq.finalizers;
  add_finalizer = λ seq key. record seq { finalizers = seq.finalizers ++ (key ∷ []) };
  remove_finalizer = λ seq key. record seq { finalizers = keep (λ f. f != key) seq.finalizers };
  same_labels = λ l m. false;
  same_taints = λ l m. false;
}

first_error-none : (errs : List (Option Error)) → first_error errs ≡ none → All (λ e. e ≡ none) errs
first_error-none [] h = tt
first_error-none (none ∷ errs) h = (refl, first_error-none errs h)
first_error-none (some x ∷ errs) h = absurd (cc h)

pub api-IsAggregating : IsAggregating api
api-IsAggregating = record { aggregate_none = first_error-none }

pub api-IsEchoing : IsEchoing api
api-IsEchoing = record {
  echo_pod = λ h old new. refl;
  echo_labels = λ h node patch. refl;
  echo_taints = λ h node taints. refl;
}

set_pod :
    (h : History) (old new r : Pod)
    → api.answer_patch_pod h old new ≡ ok r
    → (r.spec.tolerations ≡ new.spec.tolerations) × (r.spec.affinity ≡ new.spec.affinity)
set_pod h old new r e =
    let same : new ≡ r = grind (arith, e) in
    (ap (λ q. q.spec.tolerations) (sym same), ap (λ q. q.spec.affinity) (sym same))

-- The gated pod of the second group, steered by the label of its nodes.
abbrev steered : PodAction
steered = record {
  pod = csi_pod;
  group = some 1;
  reason = "unpinned";
  add_affinity = some (eligibility_requirement "key" 1);
  add_tolerations = [];
}

abbrev key_taint : String → Taint
key_taint value = record { key = "key"; value = value; effect = no_schedule }

-- The label is behind, the taint of the key is stale, and another taint stays.
abbrev stale_node : Node
stale_node = record {
  name = "a";
  labels = ("zone", "x") ∷ ("key", "0") ∷ [];
  deletion_timestamp = none;
  taints = key_taint "0" ∷ record { key = "gpu"; value = "yes"; effect = no_schedule } ∷ [];
}

abbrev fresh_node : Node
fresh_node = record stale_node { labels = ("key", "1") ∷ []; taints = key_taint "1" ∷ [] }

set_node_key-IsSynced_example :
    (calls : History) × ((set_node_key api stale_node "key" "1" (some (key_taint "1")) []).0 ≡ none)
    × ((set_node_key api stale_node "key" "1" (some (key_taint "1")) []).1 ≡ calls ++ [])
    × IsSynced "key" "1" (some (key_taint "1")) stale_node (replay calls stale_node)
set_node_key-IsSynced_example =
    set_node_key-IsSynced api api-IsEchoing "key" (some (key_taint "1")) refl stale_node "1" []

abbrev is_key : String → Bool
is_key k = k == "key"

release_node_keys-IsReleased_example :
    (calls : History) × ((release_node_keys api stale_node is_key is_key []).0 ≡ none)
    × ((release_node_keys api stale_node is_key is_key []).1 ≡ calls ++ [])
    × IsReleased is_key is_key stale_node (replay calls stale_node)
release_node_keys-IsReleased_example =
    release_node_keys-IsReleased api api-IsEchoing is_key is_key stale_node []

set_node_key-quiet_example :
    set_node_key api fresh_node "key" "1" (some (key_taint "1")) [] ≡ (none, [])
set_node_key-quiet_example =
    set_node_key-quiet api "key" "1" (some (key_taint "1")) fresh_node [] refl refl refl

abbrev one_done : NodeState
one_done = record { name = "a"; participating = true; satisfied = 1; message = ""; failed = false }

sync_node_eligibility-matches_example :
    (calls : History) × ((sync_node_eligibility api (some stale_node) plan one_done false []).0
      ≡ none)
    × ((sync_node_eligibility api (some stale_node) plan one_done false []).1 ≡ calls ++ [])
    × ((platform.requirement_matches
            (eligibility_requirement plan.key 1)
            (replay calls stale_node).labels
          ≡ true)
        ↔ (1 ≤ 1))
sync_node_eligibility-matches_example =
    sync_node_eligibility-matches platform platform-IsDocumented api api-IsEchoing stale_node plan
      one_done false [] 0 (λ e. ground (arith, str_eq_iff "NodeLabel" "Taint"))
      (λ e. ground (arith, str_eq_iff "podsequence.example.com/seq-0123456789" "")) refl

abbrev taint_plan : NodePlan
taint_plan = record plan { key = "key"; method = "Taint" }

sync_node_eligibility-tolerated_example :
    (calls : History) × ((sync_node_eligibility api
        (some stale_node)
        taint_plan
        one_done
        false
        []).0
      ≡ none)
    × ((sync_node_eligibility api (some stale_node) taint_plan one_done false []).1 ≡ calls ++ [])
    × (t : Taint) × (own "key" (replay calls stale_node).taints ≡ t ∷ [])
    × ((any (λ s. platform.tolerates_taint s t) (eligibility_tolerations "key" 1 2) ≡ true)
        ↔ (1 ≤ 1))
sync_node_eligibility-tolerated_example =
    sync_node_eligibility-tolerated platform platform-IsDocumented api api-IsEchoing stale_node
      taint_plan one_done false [] 1 refl (λ e. ground (arith, str_eq_iff "key" "")) refl
      (omega arith)

apply_pod_action-IsOrdered_example :
    (calls : History) × ((apply_pod_action platform api steered default_scheduling_gate []).1
      ≡ calls ++ [])
    × InOrder platform api steered default_scheduling_gate calls []
apply_pod_action-IsOrdered_example =
    apply_pod_action-IsOrdered platform platform-IsDocumented api set_pod steered
      default_scheduling_gate []

apply_pod_action-releases_example :
    ((apply_pod_action platform api steered default_scheduling_gate []).0 ≡ none)
    × (old : Pod) × (calls : History) × ((apply_pod_action platform api steered
          default_scheduling_gate []).1
        ≡ patch_pod old (without_gate old default_scheduling_gate) ∷ (calls ++ []))
    × WasSteered platform api steered calls [] old
    × (has_gate old default_scheduling_gate ≡ true)
    × (has_gate (without_gate old default_scheduling_gate) default_scheduling_gate ≡ false)
unfolding has_gate
apply_pod_action-releases_example =
    apply_pod_action-releases platform platform-IsDocumented api api-IsEchoing steered
      default_scheduling_gate [] refl

-- One node has all groups satisfied, one is late, one is outside.
abbrev three_nodes : NodePlan
three_nodes = record plan {
  nodes =
      record { name = "a"; participating = true; satisfied = 2; message = ""; failed = false }
      ∷ record { name = "b"; participating = true; satisfied = 1; message = "late"; failed = true }
      ∷ record { name = "c"; participating = false; satisfied = 0; message = ""; failed = false }
      ∷ [];
}

set_node_scoped_status-entries_example :
    ((set_node_scoped_status api sequence sequence three_nodes []).0.status.node_status
      ≡ take 50 (
          map (entry_of phase_failed) (keep (is_late 2) three_nodes.nodes)
          ++ map (entry_of phase_in_progress) (keep (is_open 2) three_nodes.nodes)))
    × ((set_node_scoped_status api sequence sequence three_nodes []).0.status.summary
        ≡ some (record {
          total_nodes = count (λ st. st.participating) three_nodes.nodes;
          satisfied_nodes = count (is_done 2) three_nodes.nodes;
          failed_nodes = count (is_late 2) three_nodes.nodes;
          gated_pods = 0;
        }))
set_node_scoped_status-entries_example =
    set_node_scoped_status-entries api sequence sequence three_nodes []

set_node_scoped_status-phase_example :
    (((set_node_scoped_status api sequence sequence three_nodes []).0.status.phase ≡ phase_active)
      ↔ All (λ st. st.participating ≡ true → 2 ≤ st.satisfied) three_nodes.nodes)
    × (((set_node_scoped_status api sequence sequence three_nodes []).0.status.phase ≡ phase_active)
        ⊎ ((set_node_scoped_status api sequence sequence three_nodes []).0.status.phase
            ≡ phase_in_progress))
set_node_scoped_status-phase_example =
    set_node_scoped_status-phase api sequence sequence three_nodes []

set_node_scoped_status-IsLeast_example :
    IsLeast 2 three_nodes.nodes
      (set_node_scoped_status api sequence sequence three_nodes []).0.status.current_index
set_node_scoped_status-IsLeast_example =
    set_node_scoped_status-IsLeast api sequence sequence three_nodes []
