-- ===== src/Controller/ClusterRules.antt =====
-- What `reconcileClusterScoped` (internal/controller/podsequence_controller.go) may call: the order of
-- the groups as a condition on single calls.
use mathlib.Core.List.{Memᴰ}
use podsequencing.Base.{
  ℕ, suc, ◌≤◌, ◌<◌, String, ◌≡◌, ◌⊎◌, true, some, List, map, ok, nat_eq, length, get_elem?, count,
  all, All, none, Pairwise,
}
use podsequencing.Kubernetes.{ℤ, Pod}
use podsequencing.Kubernetes.Platform.{Platform}
use podsequencing.Types.{PodGroup, PodSequence}
use podsequencing.Sequence.Fields.{target_namespace, gate_name, wait_duration}
use podsequencing.Sequence.Pods.{has_gate, is_pod_ready, ready_remaining}
use podsequencing.Controller.Api.{
  Api, History, Call, patch_pod, update_status, read, event, count_ungated,
}
use podsequencing.Controller.Gates.{without_gate, remove_gate}
use podsequencing.Controller.Access.{get_pods_in_group}

module _ (p : Platform) (api : Api) (namespace : String) where
  -- The pod is of the group, as some answers to `getPodsInGroup` list it.
  pub record IsFetched (g : PodGroup) (pod : Pod) : Type 0 where
    pub history : History
    pub pods : List Pod
    pub fetched : (get_pods_in_group p api g namespace history).0 ≡ ok pods
    pub listed : Memᴰ pod pods

  -- Some answers list the group with all its pods Ready.
  pub record WasReady (g : PodGroup) : Type 0 where
    pub history : History
    pub pods : List Pod
    pub fetched : (get_pods_in_group p api g namespace history).0 ≡ ok pods
    pub ready : all is_pod_ready pods ≡ true

module _ (p : Platform) (api : Api) (groups : List PodGroup) (namespace : String) where
  -- The group before `index`.
  pub record PreviousReady (index : ℕ) : Type 0 where
    pub before : ℕ
    pub next : index ≡ suc before
    pub group : PodGroup
    pub at : get_elem? groups before ≡ some group
    pub was_ready : WasReady p api namespace group

-- Without an error, `removeGate` left the listed pod as `pod`.
abbrev pub IsSeen : Api → String → Pod → Pod → Type 0
IsSeen api gate listed pod = (h : History) × ((remove_gate api listed gate h).0 ≡ (none, pod))

module _ (p : Platform) (api : Api) (group : PodGroup) (namespace gate : String) where
  -- The pods are those that some answers to `getPodsInGroup` list for the group, all of them and in
  -- their order, as `removeGate` left them.
  pub record IsObserved (pods : List Pod) : Type 0 where
    pub listed_at : History
    pub listing : List Pod
    pub fetched : (get_pods_in_group p api group namespace listed_at).0 ≡ ok listing
    pub seen : Pairwise (IsSeen api gate) listing pods

module _ (p : Platform) (api : Api) (groups : List PodGroup) (current : ℕ)
    (namespace gate : String) where
  -- The status moves on to the next group: the observed pods of the current one, which it names, are
  -- there, are Ready, and have waited by the server's clock.
  pub record HasAdvanced (new : PodSequence) : Type 0 where
    pub next : new.status.current_index ≡ suc current
    pub group : PodGroup
    pub at : get_elem? groups current ≡ some group
    pub pods : List Pod
    pub observed : IsObserved p api group namespace gate pods
    pub named : new.status.current_group_pods ≡ map (λ pod. pod.name) pods
    pub some_pods : 0 < length pods
    pub all_pods : length group.pods ≤ length pods
    pub ready : count is_pod_ready pods ≡ length pods
    pub wait : ℤ
    pub wait_read : wait_duration p group ≡ ok wait
    pub waited_at : History
    pub waited : All (λ pod. ready_remaining pod wait (api.time waited_at) ≡ 0) pods

module _ (p : Platform) (api : Api) (groups : List PodGroup) (current : ℕ)
    (namespace gate : String) where
  -- A gate goes from a pod of a group before the current one, or of the current one, when the
  -- previous group was Ready.
  pub record IsDue (old new : Pod) : Type 0 where
    pub index : ℕ
    pub group : PodGroup
    pub at : get_elem? groups index ≡ some group
    pub of_group : IsFetched p api namespace group old
    pub passed :
        (index < current)
        ⊎ ((index ≡ current) × ((index ≡ 0) ⊎ PreviousReady p api groups namespace index))
    pub gated : has_gate old gate ≡ true
    pub ungated : new ≡ without_gate old gate

  -- What `reconcileClusterScoped` may call.
  abbrev pub IsAllowed : Call → Type 0
  IsAllowed (patch_pod old new) = IsDue old new
  IsAllowed (update_status new) =
      (new.status.current_index ≡ current) ⊎ HasAdvanced p api groups current namespace gate new
  IsAllowed (read what) = Unit
  IsAllowed (event type reason message) = Unit
  IsAllowed (count_ungated ns name reason) = Unit
  IsAllowed _ = ⊥

abbrev pub AllowedFor : Platform → Api → PodSequence → Call → Type 0
AllowedFor p api seq =
    IsAllowed p api seq.spec.pod_groups seq.status.current_index (target_namespace seq)
      (gate_name seq)
