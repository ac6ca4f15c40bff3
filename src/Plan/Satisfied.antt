-- ===== src/Plan/Satisfied.antt =====
-- internal/controller/nodeplan.go, `groupSatisfiedOnNode`.
use podsequencing.Base.{
  ℕ, ◌+◌, ◌-◌, ◌%◌, String, ◌<>◌, Bool, true, false, Option, none, some, List, [], ◌∷◌, ◌==◌,
  nat_eq, string_eq, ltb, if◌then◌else◌, any,
}
use podsequencing.Kubernetes.{ℤ, Pod, Node, DaemonSet}
use podsequencing.Kubernetes.Platform.{Platform}
use podsequencing.Types.{policy_require}
use podsequencing.Sequence.Fields.{group_name, group_policy}
use podsequencing.Sequence.Pods.{owned_by, is_pod_ready, ready_remaining}
use podsequencing.Sequence.DaemonSets.{daemon_set_expected_on_node}
use podsequencing.Plan.Data.{GroupInfo}

-- The three results.
pub record Verdict : Type 0 where
  pub satisfied : Bool
  pub remaining : ℕ
  pub message : String

abbrev refuse : ℕ → String → Verdict
refuse remaining message = record { satisfied = false; remaining = remaining; message = message }

abbrev accept : Verdict
accept = record { satisfied = true; remaining = 0; message = "" }

abbrev second : ℕ
second = 1000000000

-- `d.Round(time.Second)` of a duration that is not negative: half a second rounds up.
round_second : ℕ → ℕ
round_second d = let r = d % second in if ltb (r + r) second then d - r else d + second - r

module _ (p : Platform) where
  -- The first DaemonSet that is expected on the node and has no pod there.
  unfoldable pub missing_daemon_set : Node → String → List Pod → List DaemonSet → Option DaemonSet
  missing_daemon_set node key pods [] = none
  missing_daemon_set node key pods (ds ∷ rest) =
      let next = missing_daemon_set node key pods rest in
      if daemon_set_expected_on_node p ds node key
      then if any (λ pod. owned_by pod ds.uid) pods then next else some ds
      else next

-- The loop over the pods: the first one that is not Ready, or the longest remaining wait.
pub data Wait : Type 0 where
  unready : Pod → Wait
  longest : ℕ → Wait

unfoldable pub ready_wait : List Pod → ℤ → ℕ → ℕ → Wait
ready_wait [] wait now so_far = longest so_far
ready_wait (pod ∷ pods) wait now so_far =
    let rem = ready_remaining pod wait now in
    let rest = ready_wait pods wait now (if ltb so_far rem then rem else so_far) in
    if is_pod_ready pod then rest else unready pod

module _ (p : Platform) where
  -- The part below the DaemonSets.
  unfoldable pub pods_verdict : GroupInfo → String → List Pod → ℕ → Verdict
  unfolding round_second
  pods_verdict info name [] now =
      if group_policy info.group == policy_require
      then refuse 0 ("waiting for " <> (name <> ": no pods on node (policy RequireOnNode)"))
      else accept
  pods_verdict info name (pod ∷ pods) now = elim (ready_wait (pod ∷ pods) info.wait now 0) [
    | unready q ↦ refuse 0 ("waiting for " <> (name <> (": pod " <> (q.name <> " not Ready"))))
    | longest rem ↦
        if ltb 0 rem
        then refuse rem (
            "waiting for "
            <> (name
                <> (": waitDuration (" <> (p.duration_text (round_second rem) <> " remaining)"))))
        else accept
  ]

  unfoldable pub group_satisfied_on_node : GroupInfo → ℕ → Node → List Pod → ℕ → String → Verdict
  group_satisfied_on_node info j node pods now key =
      let name = group_name info.group j in
      elim (missing_daemon_set p node key pods info.daemon_sets) [
        | some ds ↦
            refuse 0 (
              "waiting for "
              <> (name <> (": DaemonSet " <> (ds.name <> " has no pod on node yet"))))
        | none ↦ pods_verdict info name pods now
      ]
