-- ===== src/Plan/Verdicts.antt =====
-- When `groupSatisfiedOnNode` (internal/controller/nodeplan.go) accepts a group, stated without
-- its loops, and what its remaining time means.
use podsequencing.Base.{
  ℕ, ◌+◌, ◌-◌, ◌≤◌, ◌<◌, String, ◌≡◌, refl, ◌∙◌, ap, ◌≢◌, ◌⊎◌, ◌↔◌, inl, inr, true, false, none,
  some, List, [], ◌∷◌, arith, string_eq, nat_eq, str_eq_iff, ltb, Bool-cases, Option-cases,
  if◌then◌else◌, any, All,
}
use podsequencing.Kubernetes.{ℤ, pos_part, Pod, PodCondition, Node, DaemonSet}
use podsequencing.Kubernetes.Platform.{Platform}
use podsequencing.Types.{policy_require}
use podsequencing.Sequence.Fields.{group_name, group_policy}
use podsequencing.Sequence.Pods.{owned_by, ready_condition, is_pod_ready, ready_remaining}
use podsequencing.Sequence.DaemonSets.{daemon_set_expected_on_node}
use podsequencing.Plan.Data.{GroupInfo}
use podsequencing.Plan.Satisfied.{
  unready, longest, ready_wait, missing_daemon_set, pods_verdict, group_satisfied_on_node,
}

-- The pod is Ready and has been so for `wait`, or the time of its last transition is not known.
abbrev pub IsSettled : ℤ → ℕ → Pod → Type 0
IsSettled wait now pod =
    (c : PodCondition) × (ready_condition pod ≡ some c)
    × (c.status ≡ "True")
    × ((pos_part wait ≡ 0)
        ⊎ ((c.last_transition_time ≡ 0) ⊎ (c.last_transition_time + pos_part wait ≤ now)))

abbrev pub IsReady : Pod → Type 0
IsReady pod = is_pod_ready pod ≡ true

IsSettled-iff :
    (wait : ℤ) (now : ℕ) (pod : Pod)
    → ((is_pod_ready pod ≡ true) × (ready_remaining pod wait now ≡ 0)) ↔ IsSettled wait now pod
unfolding is_pod_ready ready_remaining
IsSettled-iff wait now pod = elim (Option-cases (ready_condition pod)) [
  | inl e ↦ (λ h. absurd (ground arith), λ (c, f, _, _). absurd (ground arith))
  | inr (c, e) ↦ (
    λ h. (c, e, ground (arith, str_eq_iff c.status "True"), ground arith),
    λ (d, f, t, w). ground (arith, str_eq_iff c.status "True", str_eq_iff d.status "True"),
  )
]

-- The longest remaining wait, whether or not the pods are Ready.
longest_wait : List Pod → ℤ → ℕ → ℕ → ℕ
longest_wait [] wait now so_far = so_far
longest_wait (pod ∷ pods) wait now so_far =
    longest_wait pods wait now
      (if ltb so_far (ready_remaining pod wait now) then ready_remaining pod wait now else so_far)

ready_wait_cases :
    (pods : List Pod) (wait : ℤ) (now so_far : ℕ)
    → (All IsReady pods
        × (ready_wait pods wait now so_far ≡ longest (longest_wait pods wait now so_far)))
      ⊎ ((q : Pod) × (ready_wait pods wait now so_far ≡ unready q) × (¬ All IsReady pods))
unfolding ready_wait longest_wait
ready_wait_cases [] wait now so_far = inl (tt, refl)
ready_wait_cases (pod ∷ pods) wait now so_far = elim (Bool-cases (is_pod_ready pod)) [
  | inr e ↦ inr (pod, rw (e, if◌then◌else◌), λ h. cc (h.0))
  | inl e ↦
      let rem = ready_remaining pod wait now in
      elim (ready_wait_cases pods wait now (if ltb so_far rem then rem else so_far)) [
        | inl (h, q) ↦ inl ((e, h), rw (e, if◌then◌else◌) q)
        | inr (b, q, n) ↦ inr (b, rw (e, if◌then◌else◌) q, λ h. n h.1)
      ]
]

longest_wait-eq-zero :
    (pods : List Pod) (wait : ℤ) (now so_far : ℕ)
    → (longest_wait pods wait now so_far ≡ 0)
      ↔ ((so_far ≡ 0) × All (λ pod. ready_remaining pod wait now ≡ 0) pods)
unfolding longest_wait
longest_wait-eq-zero [] wait now so_far = (λ e. (e, tt), λ h. h.0)
longest_wait-eq-zero (pod ∷ pods) wait now so_far =
    let rem = ready_remaining pod wait now in
    let ih = longest_wait-eq-zero pods wait now (if ltb so_far rem then rem else so_far) in
    (
      λ e. let (z, h) = ih.0 e in (ground arith, (ground arith, h)),
      λ (z, (r, h)). ih.1 (ground arith, h),
    )

ready_remaining-later :
    (pod : Pod) (wait : ℤ) (now d : ℕ)
    → ready_remaining pod wait (now + d) ≡ ready_remaining pod wait now - d
unfolding ready_remaining
ready_remaining-later pod wait now d = ground arith

longest_wait-later :
    (pods : List Pod) (wait : ℤ) (now so_far d : ℕ)
    → longest_wait pods wait (now + d) (so_far - d) ≡ longest_wait pods wait now so_far - d
unfolding longest_wait
longest_wait-later [] wait now so_far d = refl
longest_wait-later (pod ∷ pods) wait now so_far d =
    let rem = ready_remaining pod wait now in
    ap (longest_wait pods wait (now + d)) (ground (arith, ready_remaining-later pod wait now d))
    ∙ longest_wait-later pods wait now (if ltb so_far rem then rem else so_far) d

All-IsSettled_iff :
    (pods : List Pod) (wait : ℤ) (now : ℕ)
    → (All IsReady pods × All (λ pod. ready_remaining pod wait now ≡ 0) pods)
      ↔ All (IsSettled wait now) pods
All-IsSettled_iff [] wait now = (λ h. tt, λ h. (tt, tt))
All-IsSettled_iff (pod ∷ pods) wait now =
    let here = IsSettled-iff wait now pod in
    let ih = All-IsSettled_iff pods wait now in
    (
      λ (r, w). (here.0 (r.0, w.0), ih.0 (r.1, w.1)),
      λ (s, ss). let (r, w) = here.1 s in let (rs, ws) = ih.1 ss in ((r, rs), (w, ws)),
    )

module _ (p : Platform) where
  abbrev pub IsCovered : Node → String → List Pod → DaemonSet → Type 0
  IsCovered node key pods ds =
      (daemon_set_expected_on_node p ds node key ≡ false)
      ⊎ (any (λ pod. owned_by pod ds.uid) pods ≡ true)

  missing_daemon_set-eq-none :
      (node : Node) (key : String) (pods : List Pod) (ds_list : List DaemonSet)
      → (missing_daemon_set p node key pods ds_list ≡ none) ↔ All (IsCovered node key pods) ds_list
  unfolding missing_daemon_set
  missing_daemon_set-eq-none node key pods [] = (λ e. tt, λ h. refl)
  missing_daemon_set-eq-none node key pods (ds ∷ rest) =
      let ih = missing_daemon_set-eq-none node key pods rest in
      elim (Bool-cases (daemon_set_expected_on_node p ds node key)) [
        | inr e ↦ rw (e, if◌then◌else◌) (λ q. (inl refl, ih.0 q), λ h. ih.1 h.1)
        | inl e ↦ elim (Bool-cases (any (λ pod. owned_by pod ds.uid) pods)) [
          | inl o ↦ rw (e, o, if◌then◌else◌) (λ q. (inr refl, ih.0 q), λ h. ih.1 h.1)
          | inr o ↦ rw (e, o, if◌then◌else◌) (λ q. absurd (grind arith), λ h. ground arith)
        ]
      ]

  -- A group is satisfied on a node: every DaemonSet that is expected there has a pod there, a group
  -- that is required has a pod, and every pod is settled.
  pub record IsSatisfied (info : GroupInfo) (node : Node) (pods : List Pod) (now : ℕ) (key : String)
      : Type 0 where
    pub covered : All (IsCovered node key pods) info.daemon_sets
    pub present : (pods ≢ []) ⊎ (group_policy info.group ≢ policy_require)
    pub settled : All (IsSettled info.wait now) pods

  pods_verdict_iff :
      (info : GroupInfo) (name : String) (pods : List Pod) (now : ℕ)
      → ((pods_verdict p info name pods now).satisfied ≡ true) ↔ (
          ((pods ≢ []) ⊎ (group_policy info.group ≢ policy_require))
          × All (IsSettled info.wait now) pods)
  unfolding pods_verdict
  pods_verdict_iff info name [] now =
      ground (arith, str_eq_iff (group_policy info.group) policy_require)
  pods_verdict_iff info name (pod ∷ pods) now =
      let all = pod ∷ pods in
      let settled = All-IsSettled_iff all info.wait now in
      let zero_wait = longest_wait-eq-zero all info.wait now 0 in
      elim (ready_wait_cases all info.wait now 0) [
        | inr (q, e, n) ↦
            rw (e, pods_verdict) (λ h. absurd (grind arith), λ (_, h). absurd (n (settled.1 h).0))
        | inl (r, e) ↦
            rw (e, pods_verdict)
              (
                λ h. (
                  inl (λ q. absurd (grind arith)),
                  settled.0 (r, (zero_wait.0 (ground arith)).1),
                ),
                λ (_, h). let z = zero_wait.1 (refl, (settled.1 h).1) in ground arith,
              )
      ]

  -- The verdict is positive exactly when the group is satisfied on the node in the sense of
  -- `IsSatisfied`: each DaemonSet expected there has a pod, pods exist or the policy does not ask
  -- for them, and each pod is Ready and has been for the wait.
  pub group_satisfied_on_node_iff :
      (info : GroupInfo) (j : ℕ) (node : Node) (pods : List Pod) (now : ℕ) (key : String)
      → ((group_satisfied_on_node p info j node pods now key).satisfied ≡ true)
        ↔ IsSatisfied info node pods now key
  unfolding group_satisfied_on_node
  group_satisfied_on_node_iff info j node pods now key =
      let covered = missing_daemon_set-eq-none node key pods info.daemon_sets in
      let rest = pods_verdict_iff info (group_name info.group j) pods now in
      elim (Option-cases (missing_daemon_set p node key pods info.daemon_sets)) [
        | inl e ↦
            rw (e, group_satisfied_on_node)
              (
                λ h.
                    let (present, settled) = rest.0 h in
                    record { covered = covered.0 e; present = present; settled = settled },
                λ s. rest.1 (s.present, s.settled),
              )
        | inr (ds, e) ↦
            rw (e, group_satisfied_on_node)
              (λ h. absurd (grind arith), λ s. absurd (grind (arith, covered.1 s.covered)))
      ]

  pods_verdict_later :
      (info : GroupInfo) (name : String) (pods : List Pod) (now d : ℕ)
      → 0 < (pods_verdict p info name pods now).remaining
      → ((pods_verdict p info name pods (now + d)).satisfied ≡ true)
        ↔ ((pods_verdict p info name pods now).remaining ≤ d)
  unfolding pods_verdict
  pods_verdict_later info name [] now d h = absurd (ground arith)
  pods_verdict_later info name (pod ∷ pods) now d h =
      let all = pod ∷ pods in
      let w = info.wait in
      let later : longest_wait all w (now + d) 0 ≡ longest_wait all w now 0 - d =
        ap (longest_wait all w (now + d)) (omega arith) ∙ longest_wait-later all w now 0 d in
      elim (ready_wait_cases all w now 0) [
        | inr (q, e, n) ↦ absurd (ground arith)
        | inl (r, e) ↦ elim (ready_wait_cases all w (now + d) 0) [
          | inr (q, e', n) ↦ absurd (n r)
          | inl (r', e') ↦ rw (e, e', pods_verdict) (ground arith)
        ]
      ]

  -- Where the verdict reports a remaining time that is not zero, the verdict on the same pods `d`
  -- later is positive exactly when `d` is at least the remaining time.
  pub group_satisfied_on_node_later :
      (info : GroupInfo) (j : ℕ) (node : Node) (pods : List Pod) (now d : ℕ) (key : String)
      → 0 < (group_satisfied_on_node p info j node pods now key).remaining
      → ((group_satisfied_on_node p info j node pods (now + d) key).satisfied ≡ true)
        ↔ ((group_satisfied_on_node p info j node pods now key).remaining ≤ d)
  unfolding group_satisfied_on_node
  group_satisfied_on_node_later info j node pods now d key h =
      elim (Option-cases (missing_daemon_set p node key pods info.daemon_sets)) [
        | inr (ds, e) ↦ absurd (ground arith)
        | inl e ↦
            rw (e, group_satisfied_on_node)
              (pods_verdict_later info (group_name info.group j) pods now d
                (rw (e, group_satisfied_on_node) at h))
      ]
