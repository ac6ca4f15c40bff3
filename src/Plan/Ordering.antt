-- ===== src/Plan/Ordering.antt =====
-- `ComputeNodePlan` (internal/controller/nodeplan.go): which gated pods the plan releases.
use mathlib.Core.List.{Memᴰ}
use mathlib.Core.Option.{some-injective}
use mathlib.Core.Path.{subst₂}
use podsequencing.Base.{
  ℕ, ◌<◌, String, ◌≡◌, ◌≢◌, ◌↔◌, refl, sym, ap, ◌∙◌, subst, ◌⊎◌, inl, inr, true, false, some, List,
  arith, get_elem?, Option-cases, ok, ◌>>=◌,
}
use podsequencing.Kubernetes.{Pod, Node}
use podsequencing.Kubernetes.Platform.{Platform, Selector}
use podsequencing.Sequence.Fields.{gate_name}
use podsequencing.Sequence.Pods.{target_node, has_gate, is_bypassed}
use podsequencing.Plan.Data.{NodeState, NodePlanInput, NodePlan, PodAction, Member, GroupInfo}
use podsequencing.Plan.Members.{group_infos, collect, pods_of}
use podsequencing.Plan.Nodes.{sort_nodes, node_states, participates}
use podsequencing.Plan.Release.{state_of}
use podsequencing.Plan.Compute.{plan_key, node_selector, initial_plan, plan_from, compute_node_plan}
use podsequencing.Plan.Outcomes.{IsOpen, MayGo}
use podsequencing.Plan.Runs.{
  Released, SameViews, MayGo-view, release_members_sound, release_members_complete,
  release_members-SameViews,
}
use podsequencing.Plan.Membership.{
  IsMember, collect-StandsFor, collect-member, collect-strays_group,
}
use podsequencing.Plan.Prefixes.{advance-before}
use podsequencing.Plan.Verdicts.{IsSatisfied, group_satisfied_on_node_iff}
use podsequencing.Plan.States.{
  Describes, inside, outside, sort_nodes-mem, node_states-some, node_states-none,
}
use podsequencing.Plan.Accounting.{compute_node_plan-Settings}

module _ (p : Platform) (input : NodePlanInput) where
  abbrev members : List Member
  members = (collect p input.seq input.pods).1

  module _ (sel : Selector) (infos : List GroupInfo) where
    abbrev start : NodePlan
    start = initial_plan p input sel infos

    final-SameViews : SameViews (plan_from p input sel infos).nodes start.nodes
    unfolding plan_from
    final-SameViews =
        release_members-SameViews input.seq input.now start.nodes members start (λ k. refl)

    -- An action with a group comes from the loop over the members.
    grouped-Released :
        (a : PodAction) (group : ℕ)
        → Memᴰ a (plan_from p input sel infos).ungate
        → a.group ≡ some group
        → Released input.seq start.nodes members a
    unfolding plan_from
    grouped-Released a group l g =
        elim (release_members_sound input.seq input.now start.nodes members start a (λ k. refl) l) [
          | inl old ↦ absurd (stray_case old)
          | inr r ↦ r
        ]
      where
        stray_case : Memᴰ a start.ungate → ⊥
        stray_case old =
            let n = collect-strays_group p input.seq input.pods a (unfold initial_plan in old) in cc

    released_iff :
        (pod : Pod) (group : ℕ)
        → Memᴰ pod input.pods
        → IsMember p input.seq pod group
        → has_gate pod (gate_name input.seq) ≡ true
        → ((a : PodAction) × Memᴰ a (plan_from p input sel infos).ungate
            × (a.pod ≡ pod)
            × (a.group ≡ some group))
          ↔ MayGo
              (plan_from p input sel infos).nodes
              (record { pod = pod; group = group; node = target_node pod })
    unfolding plan_from
    released_iff pod group l r gated = (to, from)
      where
        m : Member
        m = record { pod = pod; group = group; node = target_node pod }

        to :
            (a : PodAction) × Memᴰ a (plan_from p input sel infos).ungate
              × (a.pod ≡ pod)
              × (a.group ≡ some group)
            → MayGo (plan_from p input sel infos).nodes m
        to (a, k, e, g) =
            let q = grouped-Released a group k g in
            let (_, _, t) = collect-StandsFor p input.seq input.pods q.member q.listed in
            let same_pod = sym q.same_pod ∙ e in
            let same_group = some-injective _ _ (sym q.same_group ∙ g) in
            let same : q.member ≡ m = λ i. record {
              pod = same_pod i;
              group = same_group i;
              node = (t ∙ ap target_node same_pod) i;
            } in
            MayGo-view start.nodes _ m (λ n. sym (final-SameViews n))
              (subst (MayGo start.nodes) same q.may_go)

        from :
            MayGo (plan_from p input sel infos).nodes m
            → (a : PodAction) × Memᴰ a (plan_from p input sel infos).ungate
              × (a.pod ≡ pod)
              × (a.group ≡ some group)
        from go =
            release_members_complete input.seq input.now start.nodes members start m (λ n. refl)
              (collect-member p input.seq input.pods pod group l r) gated
              (MayGo-view _ start.nodes m final-SameViews go)

  -- Where a plan is made, a gated pod of a group is released exactly when it is bypassed or pinned
  -- to no node, or when its node is unknown, takes no part, or has all groups before the pod's own
  -- satisfied, by the plan's count for that node.
  pub compute_node_plan-ungate_iff :
      (plan : NodePlan) (pod : Pod) (group : ℕ)
      → compute_node_plan p input ≡ ok plan
      → Memᴰ pod input.pods
      → IsMember p input.seq pod group
      → has_gate pod (gate_name input.seq) ≡ true
      → ((a : PodAction) × Memᴰ a plan.ungate × (a.pod ≡ pod) × (a.group ≡ some group)) ↔ (
          (is_bypassed pod ≡ true)
          ⊎ ((target_node pod ≡ "") ⊎ IsOpen (state_of plan.nodes (target_node pod)) group))
  compute_node_plan-ungate_iff plan pod group e l r gated =
      let s = compute_node_plan-Settings p input plan e in
      rw (s.planned) (released_iff s.selector s.infos pod group l r gated)

  open_node :
      (sel : Selector) (infos : List GroupInfo) (name : String) (group i : ℕ) (info : GroupInfo)
      → IsOpen (state_of (start sel infos).nodes name) group
      → get_elem? infos i ≡ some info
      → i < group
      → ((node : Node) → Memᴰ node input.nodes → node.name ≢ name)
        ⊎ ((node : Node) × Memᴰ node input.nodes
            × (node.name ≡ name)
            × ((participates sel node ≡ false)
                ⊎ IsSatisfied p info node
                    (pods_of members node.name i)
                    input.now
                    (plan_key p input.seq)))
  unfolding initial_plan
  open_node sel infos name group i info open_state found lt =
      elim (Option-cases (state_of states name)) [
        | inl e ↦ inl λ node l.
            node_states-none p members input.now key sel infos sorted 0 name node e
              ((sort_nodes-mem node input.nodes).1 l)
        | inr (st, e) ↦
            let (node, l, named, d) =
              node_states-some p members input.now key sel infos sorted 0 name st e in
            inr (
              node,
              (sort_nodes-mem node input.nodes).0 l,
              named,
              described node st d (subst (λ o. IsOpen o group) e open_state),
            )
      ]
    where
      key : String
      key = plan_key p input.seq

      sorted : List Node
      sorted = sort_nodes input.nodes

      states : List NodeState
      states = (node_states p members input.now key sel infos sorted 0).0

      described :
          (node : Node) (st : NodeState)
          → Describes p members input.now key sel infos node st
          → IsOpen (some st) group
          → (participates sel node ≡ false)
            ⊎ IsSatisfied p info node (pods_of members node.name i) input.now key
      described node st (outside out q) o = inl out
      described node st (inside after part q n) (inl out) = absurd (grind arith)
      described node st (inside after part q n) (inr enough) = inr (
          (group_satisfied_on_node_iff p info i node _ input.now key).0
            (advance-before p members input.now key node infos after i info found (omega arith)))

  Released-open :
      (sel : Selector) (infos : List GroupInfo) (a : PodAction) (group i : ℕ) (info : GroupInfo)
      → Released input.seq (start sel infos).nodes members a
      → a.group ≡ some group
      → is_bypassed a.pod ≡ false
      → target_node a.pod ≢ ""
      → get_elem? infos i ≡ some info
      → i < group
      → ((node : Node) → Memᴰ node input.nodes → node.name ≢ target_node a.pod)
        ⊎ ((node : Node) × Memᴰ node input.nodes
            × (node.name ≡ target_node a.pod)
            × ((participates sel node ≡ false)
                ⊎ IsSatisfied p info node
                    (pods_of members node.name i)
                    input.now
                    (plan_key p input.seq)))
  Released-open sel infos a group i info q g seq_pod pinned found lt =
      let (_, _, t) = collect-StandsFor p input.seq input.pods q.member q.listed in
      let node_eq = t ∙ ap target_node (sym q.same_pod) in
      let group_eq = some-injective _ _ (sym q.same_group ∙ g) in
      elim q.may_go [
        | inl b ↦ cc (b, ap is_bypassed q.same_pod)
        | inr (inl none_pinned) ↦ absurd (pinned (sym node_eq ∙ none_pinned))
        | inr (inr o) ↦
            open_node sel infos (target_node a.pod) group i info
              (subst₂ (λ n k. IsOpen (state_of (start sel infos).nodes n) k) node_eq group_eq o)
              found lt
      ]

  -- The order of the groups is kept on every node. If the plan releases a pod of some group that is
  -- not bypassed and is pinned to a node, then each earlier group is satisfied on that node, in the
  -- sense of `IsSatisfied`, unless the input has no such node or the node takes no part in the
  -- sequence.
  pub compute_node_plan-earlier_groups :
      (plan : NodePlan) (sel : Selector) (infos : List GroupInfo) (a : PodAction) (group i : ℕ)
      (info : GroupInfo)
      → compute_node_plan p input ≡ ok plan
      → node_selector p input.seq ≡ ok sel
      → group_infos p input.daemon_sets input.seq.spec.pod_groups 0 ≡ ok infos
      → Memᴰ a plan.ungate
      → a.group ≡ some group
      → is_bypassed a.pod ≡ false
      → target_node a.pod ≢ ""
      → get_elem? infos i ≡ some info
      → i < group
      → ((node : Node) → Memᴰ node input.nodes → node.name ≢ target_node a.pod)
        ⊎ ((node : Node) × Memᴰ node input.nodes
            × (node.name ≡ target_node a.pod)
            × ((participates sel node ≡ false)
                ⊎ IsSatisfied p info node
                    (pods_of members node.name i)
                    input.now
                    (plan_key p input.seq)))
  unfolding compute_node_plan
  compute_node_plan-earlier_groups plan sel infos a group i info e read read' l g seq_pod pinned
        found lt =
      let planned : plan ≡ plan_from p input sel infos = cc (
        ap
          (λ r. r >>= λ (s : Selector).
            group_infos p input.daemon_sets input.seq.spec.pod_groups 0 >>= λ is.
            ok (plan_from p input s is))
          read) in
      Released-open sel infos a group i info
        (grouped-Released sel infos a group (subst (λ (x : NodePlan). Memᴰ a x.ungate) planned l) g)
        g seq_pod pinned found lt
