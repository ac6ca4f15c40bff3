-- ===== src/Sequence/Groups.antt =====
-- internal/sequence/sequence.go: which group a pod belongs to.
use podsequencing.Base.{
  ℕ, suc, Bool, false, ◌&&◌, Option, none, some, List, [], ◌∷◌, Result, ok, err, ◌>>=◌, ◌==◌, ◌!=◌,
  string_eq, ltb, if◌then◌else◌, any, length,
}
use podsequencing.Kubernetes.{Pod, Labels}
use podsequencing.Kubernetes.Platform.{Platform, Selector}
use podsequencing.Types.{PodSequence, PodGroup}
use podsequencing.Sequence.Fields.{target_namespace, group_selector}

-- `sel != nil && sel.Matches(labels)`
abbrev pub selects : Option Selector → Labels → Bool
selects none labels = false
selects (some sel) labels = sel labels

module _ (p : Platform) where
  unfoldable pub pod_matches_group : Pod → PodGroup → Result Bool
  pod_matches_group pod g =
      if ltb 0 (length g.pods)
      then ok (any (λ n. n == pod.name) g.pods)
      else group_selector p g >>= λ sel. ok (selects sel pod.labels)

  -- `err == nil && ok`
  unfoldable pub belongs : Pod → PodGroup → Bool
  belongs pod g = elim (pod_matches_group pod g) [ ok b ↦ b | err e ↦ false ]

  unfoldable pub first_group : Pod → List PodGroup → ℕ → Option ℕ
  first_group pod [] i = none
  first_group pod (g ∷ groups) i = if belongs pod g then some i else first_group pod groups (suc i)

  -- `none` stands for -1.
  unfoldable pub group_index_for_pod : PodSequence → Pod → Option ℕ
  group_index_for_pod seq pod =
      if pod.namespace != "" && pod.namespace != target_namespace seq
      then none
      else first_group pod seq.spec.pod_groups 0
