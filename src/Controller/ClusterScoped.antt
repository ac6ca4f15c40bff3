-- ===== src/Controller/ClusterScoped.antt =====
-- internal/controller/podsequence_controller.go: `reconcileClusterScoped`. Each part below an early
-- return is a function of its own. A pod that a patch changes through its pointer is returned.
use podsequencing.Base.{
  ℕ, zero, suc, String, ◌<>◌, true, ◌||◌, Option, none, some, List, [], ◌∷◌, ◌++◌, map, Result, ok,
  err, Error, ◌==◌, ◌!=◌, nat_eq, string_eq, ltb, if◌then◌else◌, length, take, get_elem?, count,
  all, itoa,
}
use podsequencing.Kubernetes.{ℤ, Pod, pos_part}
use podsequencing.Kubernetes.Platform.{Platform}
use podsequencing.Types.{PodGroup, PodSequence, phase_completed, phase_failed, phase_in_progress}
use podsequencing.Sequence.Fields.{target_namespace, gate_name, group_name, wait_duration}
use podsequencing.Sequence.Pods.{has_gate, is_pod_ready, ready_remaining}
use podsequencing.Plan.Data.{reason_satisfied}
use podsequencing.Controller.Api.{Api, Action, pure, tell, ◌>>=◌, ◌>>◌, event, count_ungated}
use podsequencing.Controller.Gates.{remove_gate}
use podsequencing.Controller.Access.{
  Outcome, no_requeue, requeue_after, clock, patch_status, patch_and_return, get_pods_in_group,
  prepend,
}

-- `RequeueDelay`
abbrev pub requeue_delay : ℕ
requeue_delay = 5000000000

abbrev pub with_message : PodSequence → String → PodSequence
with_message seq message = record seq { status = record (seq.status) { message = message } }

abbrev pub with_phase : PodSequence → String → PodSequence
with_phase seq phase = record seq { status = record (seq.status) { phase = phase } }

module _ (api : Api) (seq : PodSequence) where
  -- The loop that removes gates and returns at the first error; the pods afterwards.
  unfoldable pub release_pods : List Pod → Action (Result (List Pod))
  release_pods [] = pure (ok [])
  release_pods (pod ∷ pods) =
      let others = release_pods pods in
      if has_gate pod (gate_name seq)
      then (do
        (e, pod') ← remove_gate api pod (gate_name seq)
        elim e [
          | some x ↦ pure (err x)
          | none ↦ do
            tell (count_ungated seq.namespace seq.name reason_satisfied)
            rest ← others
            pure (prepend pod' rest)
        ])
      else (do rest ← others; pure (prepend pod rest))

  -- The loop of a completed sequence, which goes on after an error.
  unfoldable pub release_all : List Pod → Action (List (Option Error))
  release_all [] = pure []
  release_all (pod ∷ pods) =
      let others = release_all pods in
      if has_gate pod (gate_name seq)
      then (do
        (e, pod') ← remove_gate api pod (gate_name seq)
        elim e [
          | some x ↦ do errs ← others; pure (some x ∷ errs)
          | none ↦ tell (count_ungated seq.namespace seq.name "completed") >> others
        ])
      else others

-- `remaining`, the longest wait that is left.
unfoldable pub longest_remaining : List Pod → ℤ → ℕ → ℕ → ℕ
longest_remaining [] wait now so_far = so_far
longest_remaining (pod ∷ pods) wait now so_far =
    let rem = ready_remaining pod wait now in
    longest_remaining pods wait now (if ltb so_far rem then rem else so_far)

module _ (p : Platform) (api : Api) (orig : PodSequence) where
  unfoldable pub release_groups : PodSequence → List PodGroup → Action (List (Option Error))
  release_groups seq [] = pure []
  release_groups seq (g ∷ groups) = do
    r ← get_pods_in_group p api g (target_namespace seq)
    errs ← elim r [ err x ↦ pure (some x ∷ []) | ok pods ↦ release_all api seq pods ]
    rest ← release_groups seq groups
    pure (errs ++ rest)

  -- `idx >= len(groups)`
  unfoldable pub complete : PodSequence → Action Outcome
  complete seq = do
    (if seq.status.phase != phase_completed
        then tell (event "Normal" "Completed" "All pod groups in sequence are ready")
        else pure tt)
    let done = with_message (with_phase seq phase_completed) "All pod groups in sequence are ready"
    errs ← release_groups done seq.spec.pod_groups
    e ← patch_status api orig done
    pure (no_requeue, api.aggregate (errs ++ (e ∷ [])))

  -- All pods of the group are Ready and have waited.
  unfoldable pub move_on : PodSequence → PodGroup → ℕ → List Pod → Action Outcome
  move_on seq group idx pods = do
    let name = group_name group idx
    let ready = count is_pod_ready pods
    let text =
        "All pods in "
        <> (name
            <> (" are ready ("
                <> (itoa ready <> ("/" <> (itoa (length pods) <> "), moving to next group")))))
    let seq' = record seq {
      status = record (seq.status) {
        current_index = suc seq.status.current_index;
        processed_pods = seq.status.processed_pods ++ map (λ pod. pod.name) pods;
        message = text;
      };
    }
    tell (
        event "Normal" "GroupReady"
          (name <> (" is ready with all " <> (itoa (length pods) <> " pods"))))
    patch_and_return api orig seq' (record { requeue = true; after = 0 })

  unfoldable pub await : PodSequence → PodGroup → ℕ → List Pod → Result ℤ → Action Outcome
  await seq group idx pods (err x) =
      let message = "Invalid wait duration in " <> (group_name group idx <> (": " <> x.text)) in
      patch_and_return api orig (with_message (with_phase seq phase_failed) message) no_requeue
  await seq group idx pods (ok wait) = do
    now ← clock api
    let remaining = longest_remaining pods wait now 0
    let message =
        "All pods in "
        <> (group_name group idx
            <> (" ready, waiting " <> (p.duration_text (pos_part wait) <> " before next group")))
    if ltb 0 remaining
        then patch_and_return api orig (with_message seq message) (requeue_after remaining)
        else move_on seq group idx pods

  -- The part below the release of the group's pods.
  unfoldable pub conclude : PodSequence → PodGroup → ℕ → List Pod → Action Outcome
  conclude seq0 group idx pods =
      let ready = count is_pod_ready pods in
      let seq = record seq0 {
        status = record (seq0.status) {
          current_group_pods = map (λ pod. pod.name) pods;
          ready_pods_in_current_group = ready;
        };
      } in
      let expected : ℕ = elim group.pods [ [] ↦ length pods | _ ↦ length group.pods ] in
      let name = group_name group idx in
      let created = with_message seq ("Waiting for pods in " <> (name <> " to be created")) in
      let unready = with_message seq (
        "Waiting for all pods in "
        <> (name
            <> (" to become ready ("
                <> (itoa ready <> ("/" <> (itoa (length pods) <> " ready)")))))) in
      if length pods == 0 || ltb (length pods) expected
      then patch_and_return api orig created (requeue_after requeue_delay)
      else if ltb ready (length pods)
      then patch_and_return api orig unready (requeue_after requeue_delay)
      else await seq group idx pods (wait_duration p group)

  unfoldable pub conclude_released : PodSequence → PodGroup → ℕ → Result (List Pod) → Action Outcome
  conclude_released seq group idx (err x) = pure (no_requeue, some x)
  conclude_released seq group idx (ok pods) = conclude seq group idx pods

  -- The loop over the groups that have passed; the first error.
  unfoldable pub release_passed : PodSequence → List PodGroup → Action (Option Error)
  release_passed seq [] = pure none
  release_passed seq (g ∷ groups) = do
    r ← get_pods_in_group p api g (target_namespace seq)
    elim r [
      | err x ↦ pure (some x)
      | ok pods ↦ do
        released ← release_pods api seq pods
        elim released [ err x ↦ pure (some x) | ok pods' ↦ release_passed seq groups ]
    ]

  -- Where all pods of the previous group are Ready.
  unfoldable pub release_current : PodSequence → PodGroup → ℕ → List Pod → Action Outcome
  release_current seq group idx pods = do
    released ← release_pods api seq pods
    conclude_released seq group idx released

  unfoldable pub check_previous :
      PodSequence → PodGroup → ℕ → List Pod → PodGroup → ℕ → Result (List Pod) → Action Outcome
  check_previous seq group idx pods prev before (err x) = pure (no_requeue, some x)
  check_previous seq group idx pods prev before (ok prev_pods) =
      if all is_pod_ready prev_pods
      then release_current seq group idx pods
      else patch_and_return api orig
          (with_message seq
            ("Waiting for all pods in " <> (group_name prev before <> " to become ready")))
          (requeue_after requeue_delay)

  unfoldable pub after_passed :
      PodSequence → PodGroup → ℕ → List Pod → PodGroup → ℕ → Option Error → Action Outcome
  after_passed seq group idx pods prev before (some x) = pure (no_requeue, some x)
  after_passed seq group idx pods prev before none = do
    r ← get_pods_in_group p api prev (target_namespace seq)
    check_previous seq group idx pods prev before r

  -- `if idx > 0`; the group before the index exists since the index is in range.
  unfoldable pub release_earlier : PodSequence → PodGroup → ℕ → List Pod → Action Outcome
  release_earlier seq group zero pods = release_current seq group zero pods
  release_earlier seq group (suc before) pods = elim (get_elem? seq.spec.pod_groups before) [
    | none ↦ release_current seq group (suc before) pods
    | some prev ↦ do
      e ← release_passed seq (take (suc before) seq.spec.pod_groups)
      after_passed seq group (suc before) pods prev before e
  ]

  unfoldable pub with_group : PodSequence → PodGroup → ℕ → Result (List Pod) → Action Outcome
  with_group seq group idx (ok pods) = release_earlier seq group idx pods
  with_group seq group idx (err x) =
      let message = "Failed to get pods in " <> (group_name group idx <> (": " <> x.text)) in
      do
        e ← patch_status api orig (with_message (with_phase seq phase_failed) message)
        pure (no_requeue, some x)

  unfoldable pub reconcile_cluster_scoped : PodSequence → Action Outcome
  reconcile_cluster_scoped seq =
      let idx = seq.status.current_index in
      elim (get_elem? seq.spec.pod_groups idx) [
        | none ↦ complete seq
        | some group ↦ do
          r ← get_pods_in_group p api group (target_namespace seq)
          with_group (with_phase seq phase_in_progress) group idx r
      ]
