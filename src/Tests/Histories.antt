-- ===== src/Tests/Histories.antt =====
-- A stored cluster-scoped sequence that a reconcile moves on, and the theorems on such runs applied.
use mathlib.Core.List.{Memᴰ}
use podsequencing.Base.{arith, ◌≤◌, ◌≡◌, refl, sym, subst, List, [], ◌∷◌, ok}
use podsequencing.Kubernetes.{pos, Pod}
use podsequencing.Types.{PodGroup, PodSequence}
use podsequencing.Controller.Api.{Api, History, update_status, read, event, pod_list}
use podsequencing.Controller.ClusterScoped.{
  reconcile_cluster_scoped, with_group, release_earlier, release_current, release_pods,
  conclude_released, conclude, await, move_on, longest_remaining,
}
use podsequencing.Controller.Access.{get_pods_in_group, get_selected_pods, patch_status}
use podsequencing.Controller.ClusterHistory.{
  WasCompleted, IsStep, stores, at_start, then_step, IsReached-bounds, IsReached-WasCompleted,
}
use podsequencing.Controller.ClusterSteady.{IsMovedOn, IsSteady, IsDone}
use podsequencing.Controller.ClusterProgress.{reconcile_cluster_scoped-IsMovedOn}
use podsequencing.Tests.Platform.{platform}
use podsequencing.Tests.Plans.{group_of, net_pod, program}
use podsequencing.Tests.Server.{api}
use podsequencing.Tests.Runs.{clustered}

-- The first group is current, and its only pod is Ready.
abbrev starting : PodSequence
starting = record clustered { status = record (clustered.status) { current_index = 0 } }

abbrev ready_server : Api
ready_server = record api { answer_pods = λ h namespace selector. ok (net_pod ∷ []) }

-- The status that the reconcile writes then.
abbrev moved : PodSequence
moved = record starting {
  status = record (starting.status) {
    current_index = 1;
    current_group_pods = "net-1" ∷ [];
    ready_pods_in_current_group = 1;
    processed_pods = "net-1" ∷ [];
    message = "All pods in net are ready (1/1), moving to next group";
  };
}

moves : IsStep platform starting moved
unfolding program reconcile_cluster_scoped get_pods_in_group get_selected_pods with_group
    release_earlier release_current release_pods conclude_released conclude await move_on
    longest_remaining patch_status
moves = stores ready_server starting moved "InProgress" [] (record {
  calls =
      update_status moved
      ∷ event "Normal" "GroupReady" "net is ready with all 1 pods"
      ∷ read pod_list
      ∷ [];
  extends = refl;
  listed = Memᴰ.head refl;
})

IsReached-bounds_example : (moved.spec.pod_groups ≡ starting.spec.pod_groups) × (0 ≤ 1) × (1 ≤ 2)
IsReached-bounds_example =
    IsReached-bounds platform starting moved (then_step starting moved at_start moves) (omega arith)

IsReached-WasCompleted_example :
    WasCompleted platform starting 0 moved (then_step starting moved at_start moves)
IsReached-WasCompleted_example =
    IsReached-WasCompleted platform starting moved (then_step starting moved at_start moves) refl 0
      (omega arith)

-- Every group's only pod is Ready, long since.
abbrev late_server : Api
late_server = record ready_server { time = λ h. 100000000000 }

abbrev only_net : PodGroup → List Pod
only_net g = net_pod ∷ []

lists_net :
    (g : PodGroup) (h : History)
    → Memᴰ g clustered.spec.pod_groups
    → (get_pods_in_group platform late_server g "infra" h).0 ≡ ok (only_net g)
unfolding program get_pods_in_group get_selected_pods
lists_net g h (Memᴰ.head same) =
    subst (λ x. (get_pods_in_group platform late_server x "infra" h).0 ≡ ok (only_net x)) (sym same)
      refl
lists_net g h (Memᴰ.tail (Memᴰ.head same)) =
    subst (λ x. (get_pods_in_group platform late_server x "infra" h).0 ≡ ok (only_net x)) (sym same)
      refl
lists_net g h (Memᴰ.tail (Memᴰ.tail m)) = elim m [ ]

late_server-IsSteady : IsSteady platform late_server clustered only_net
unfolding program
late_server-IsSteady = record { fetches = lists_net; ungated = λ g m. (refl, tt) }

csi-IsDone : IsDone platform late_server clustered only_net (group_of "csi" "30s")
unfolding program
csi-IsDone = record {
  some_pods = omega arith;
  all_pods = omega arith;
  ready = refl;
  wait = pos 30000000000;
  wait_read = refl;
  waited = λ h. (refl, tt);
}

reconcile_cluster_scoped-IsMovedOn_example :
    IsMovedOn 1 [] (reconcile_cluster_scoped platform late_server clustered clustered []).1
unfolding program
reconcile_cluster_scoped-IsMovedOn_example =
    reconcile_cluster_scoped-IsMovedOn platform late_server clustered clustered only_net
      (group_of "csi" "30s") [] late_server-IsSteady (λ status n. refl) refl refl csi-IsDone
      (λ before prev e at. refl)
