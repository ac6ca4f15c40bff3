-- ===== src/Tests/Examples.antt =====
-- The theorems on plans, constraints and verdicts at concrete inputs.
use mathlib.Core.List.{Memᴰ}
use podsequencing.Base.{
  ◌+◌, ◌≤◌, String, ◌≡◌, ◌≢◌, ◌↔◌, ◌⊎◌, refl, Bool, true, false, some, List, [], ◌∷◌, ◌++◌, arith,
  length, count, any, All, str_eq_iff, itoa,
}
use podsequencing.Kubernetes.{
  pos, PodSpec, NodeSelectorTerm, NodeSelectorRequirement, Toleration, Node,
}
use podsequencing.Sequence.Pods.{required_terms, target_node, is_bypassed}
use podsequencing.Sequence.Steering.{
  eligibility_requirement, eligibility_tolerations, exists_toleration, add_tolerations,
  add_required_node_affinity,
}
use podsequencing.Sequence.Eligibility.{
  eligibility_taint, requirement_matches_iff, eligibility_tolerations_iff,
}
use podsequencing.Sequence.Additions.{
  RequiresIn, Extends, add_required_node_affinity_holds, add_required_node_affinity-Extends,
  add_tolerations_holds,
}
use podsequencing.Plan.Data.{PodAction}
use podsequencing.Plan.Members.{collect, pods_of}
use podsequencing.Plan.Satisfied.{group_satisfied_on_node}
use podsequencing.Plan.Nodes.{participates}
use podsequencing.Plan.Release.{state_of}
use podsequencing.Plan.Compute.{plan_key}
use podsequencing.Plan.Outcomes.{IsOpen}
use podsequencing.Plan.Verdicts.{
  IsSatisfied, group_satisfied_on_node_iff, group_satisfied_on_node_later,
}
use podsequencing.Plan.Accounting.{is_waiting, compute_node_plan-counts}
use podsequencing.Plan.Ordering.{compute_node_plan-ungate_iff, compute_node_plan-earlier_groups}
use podsequencing.Tests.Platform.{platform, platform-IsDocumented}
use podsequencing.Tests.Plans.{
  sequence, input, plan, released, infos, program, compute_node_plan-input, net_pod, csi_pod,
  node_a, group_of, spec_on,
}

abbrev everywhere : List (String × String) → Bool
everywhere labels = true

compute_node_plan-earlier_groups_example :
    ((node : Node) → Memᴰ node input.nodes → node.name ≢ "a")
    ⊎ ((node : Node) × Memᴰ node input.nodes
        × (node.name ≡ "a")
        × ((participates everywhere node ≡ false)
            ⊎ IsSatisfied platform
                (record { group = group_of "net" ""; wait = pos 0; daemon_sets = [] })
                node
                (pods_of (collect platform input.seq input.pods).1 node.name 0)
                20
                (plan_key platform sequence)))
unfolding program
compute_node_plan-earlier_groups_example =
    compute_node_plan-earlier_groups platform input plan everywhere infos released 1 0
      (record { group = group_of "net" ""; wait = pos 0; daemon_sets = [] }) compute_node_plan-input
      refl refl (Memᴰ.head refl) refl refl (λ e. ground (arith, str_eq_iff "a" "")) refl
      (omega arith)

compute_node_plan-ungate_iff_example :
    ((a : PodAction) × Memᴰ a plan.ungate × (a.pod ≡ csi_pod) × (a.group ≡ some 1)) ↔ (
      (is_bypassed csi_pod ≡ true)
      ⊎ ((target_node csi_pod ≡ "") ⊎ IsOpen (state_of plan.nodes (target_node csi_pod)) 1))
unfolding program
compute_node_plan-ungate_iff_example =
    compute_node_plan-ungate_iff platform input plan csi_pod 1 compute_node_plan-input
      (Memᴰ.tail (Memᴰ.head refl)) (record { namespace = refl; group_index = refl; active = refl })
      refl

compute_node_plan-counts_example :
    length plan.ungate + plan.gated_pods ≡ count (is_waiting platform sequence) input.pods
compute_node_plan-counts_example =
    compute_node_plan-counts platform input plan compute_node_plan-input

group_satisfied_on_node_iff_example :
    ((group_satisfied_on_node platform
        (record { group = group_of "net" "30s"; wait = pos 30; daemon_sets = [] })
        0
        node_a
        (net_pod ∷ [])
        20
        "key").satisfied
      ≡ true)
    ↔ IsSatisfied platform
        (record { group = group_of "net" "30s"; wait = pos 30; daemon_sets = [] })
        node_a
        (net_pod ∷ [])
        20
        "key"
group_satisfied_on_node_iff_example =
    group_satisfied_on_node_iff platform
      (record { group = group_of "net" "30s"; wait = pos 30; daemon_sets = [] }) 0 node_a
      (net_pod ∷ []) 20 "key"

-- The pod is Ready since 10 and waits 30: of the instant 20, 20 nanoseconds remain.
group_satisfied_on_node_later_example :
    ((group_satisfied_on_node platform
        (record { group = group_of "net" "30s"; wait = pos 30; daemon_sets = [] })
        0
        node_a
        (net_pod ∷ [])
        (20 + 19)
        "key").satisfied
      ≡ true)
    ↔ ((group_satisfied_on_node platform
          (record { group = group_of "net" "30s"; wait = pos 30; daemon_sets = [] })
          0
          node_a
          (net_pod ∷ [])
          20
          "key").remaining
        ≤ 19)
unfolding program
group_satisfied_on_node_later_example =
    group_satisfied_on_node_later platform
      (record { group = group_of "net" "30s"; wait = pos 30; daemon_sets = [] }) 0 node_a
      (net_pod ∷ []) 20 19 "key" (omega arith)

key_given : ◌≢◌ {A = String} "key" ""
key_given e = ground (arith, str_eq_iff "key" "")

requirement_matches_iff_example :
    (platform.requirement_matches (eligibility_requirement "key" 2) (("key", "3") ∷ []) ≡ true)
    ↔ (2 ≤ 3)
unfolding itoa
requirement_matches_iff_example =
    requirement_matches_iff platform platform-IsDocumented "key" key_given 1 3 (("key", "3") ∷ [])
      refl

eligibility_tolerations_iff_example :
    (any
        (λ t. platform.tolerates_taint t (eligibility_taint "key" 1))
        (eligibility_tolerations "key" 2 4)
      ≡ true)
    ↔ (2 ≤ 1)
eligibility_tolerations_iff_example =
    eligibility_tolerations_iff platform platform-IsDocumented "key" key_given 2 4 1 (omega arith)

abbrev zone : NodeSelectorRequirement
zone = record { key = "zone"; operator = "In"; values = "x" ∷ [] }

abbrev zoned : NodeSelectorTerm
zoned = record { match_expressions = zone ∷ []; match_fields = [] }

abbrev zoned_spec : PodSpec
zoned_spec = record (spec_on "" []) {
  affinity = some (record { node_affinity = some (record { required = some (zoned ∷ []) }) });
}

abbrev second_group : NodeSelectorRequirement
second_group = eligibility_requirement "key" 1

add_required_node_affinity_holds_example :
    (terms : List NodeSelectorTerm) × (required_terms
        (add_required_node_affinity zoned_spec second_group).0
      ≡ some terms)
    × (terms ≢ [])
    × RequiresIn second_group terms
    × (add_required_node_affinity
          (add_required_node_affinity zoned_spec second_group).0
          second_group
        ≡ ((add_required_node_affinity zoned_spec second_group).0, false))
add_required_node_affinity_holds_example = add_required_node_affinity_holds second_group zoned_spec

add_required_node_affinity-Extends_example :
    (terms : List NodeSelectorTerm) × (required_terms
        (add_required_node_affinity zoned_spec second_group).0
      ≡ some terms)
    × Extends second_group (zoned ∷ []) terms
unfolding required_terms
add_required_node_affinity-Extends_example =
    add_required_node_affinity-Extends second_group zoned_spec zoned [] refl

add_tolerations_holds_example :
    (more : List Toleration) × ((add_tolerations platform zoned_spec
        (exists_toleration "key" ∷ [])).0
      ≡ record zoned_spec { tolerations = [] ++ more })
    × All (λ t. Memᴰ t (exists_toleration "key" ∷ [])) more
    × All
        (λ t. any (λ e. platform.match_toleration e t) ([] ++ more) ≡ true)
        (exists_toleration "key" ∷ [])
    × (add_tolerations platform
          (add_tolerations platform zoned_spec (exists_toleration "key" ∷ [])).0
          (exists_toleration "key" ∷ [])
        ≡ ((add_tolerations platform zoned_spec (exists_toleration "key" ∷ [])).0, false))
add_tolerations_holds_example =
    add_tolerations_holds platform platform-IsDocumented zoned_spec (exists_toleration "key" ∷ [])
