-- ===== src/Kubernetes/Platform.antt =====
-- The code outside the repository that its pure parts call, as a parameter: k8s.io/api,
-- apimachinery and component-helpers, SHA-256 and Go's texts for durations. `IsDocumented` states
-- the documented behaviour that theorems rely on.
use podsequencing.Base.{
  ℕ, String, ◌≡◌, ◌≢◌, Bool, true, false, not, ◌&&◌, none, some, List, [], ◌∷◌, Result, any, ◌==◌,
  string_eq, ltb, itoa, lookup, ◌↔◌,
}
use podsequencing.Kubernetes.{
  ℤ, Labels, LabelSelector, NodeSelectorRequirement, Toleration, Taint, PodSpec, Node,
  exists_operator, equal_operator, gt_operator,
}

-- A `labels.Selector`, by its method `Matches`.
abbrev pub Selector : Type 0
Selector = Labels → Bool

pub record Platform : Type 0 where
  -- `hex.EncodeToString` of `sha256.Sum256`
  pub sha256_hex : String → String
  -- `time.ParseDuration`, and `Duration.String` of a duration that is not negative
  pub parse_duration : String → Result ℤ
  pub duration_text : ℕ → String
  -- `metav1.LabelSelectorAsSelector` and `labels.Everything`
  pub as_selector : LabelSelector → Result Selector
  pub everything : Selector
  -- `Toleration.MatchToleration` and `Toleration.ToleratesTaint`
  pub match_toleration : Toleration → Toleration → Bool
  pub tolerates_taint : Toleration → Taint → Bool
  -- `nodeaffinity.GetRequiredNodeAffinity(pod).Match(node)`, of a pod with this spec
  pub node_affinity_match : PodSpec → Node → Result Bool
  -- the second result of `v1helper.FindMatchingUntoleratedTaint`
  pub has_untolerated_taint : List Taint → List Toleration → (Taint → Bool) → Bool
  -- how the scheduler matches a node's labels against a requirement
  pub requirement_matches : NodeSelectorRequirement → Labels → Bool

-- An empty operator means Equal, an empty effect every effect, Exists every value.
pub record IsDocumented (p : Platform) : Type 0 where
  pub match_toleration_iff :
      (s t : Toleration)
      → (p.match_toleration s t ≡ true) ↔ (
          (s.key ≡ t.key) × (s.effect ≡ t.effect) × (s.operator ≡ t.operator) × (s.value ≡ t.value))
  pub tolerates_exists :
      (key effect : String) (t : Taint)
      → key ≢ ""
      → effect ≢ ""
      → p.tolerates_taint
          (record { key = key; operator = exists_operator; value = ""; effect = effect })
          t
        ≡ (key == t.key && effect == t.effect)
  pub tolerates_equal :
      (key value effect : String) (t : Taint)
      → key ≢ ""
      → effect ≢ ""
      → p.tolerates_taint
          (record { key = key; operator = equal_operator; value = value; effect = effect })
          t
        ≡ (key == t.key && (effect == t.effect && value == t.value))
  pub untolerated_taint :
      (taints : List Taint) (tolerations : List Toleration) (relevant : Taint → Bool)
      → p.has_untolerated_taint taints tolerations relevant
        ≡ any (λ t. relevant t && not (any (λ s. p.tolerates_taint s t) tolerations)) taints
  -- Gt reads the label's value and the requirement's as numbers; an absent label matches nothing.
  pub gt_present :
      (key : String) (m n : ℕ) (labels : Labels)
      → lookup key labels ≡ some (itoa n)
      → p.requirement_matches
          (record { key = key; operator = gt_operator; values = itoa m ∷ [] })
          labels
        ≡ ltb m n
  pub gt_absent :
      (key : String) (m : ℕ) (labels : Labels)
      → lookup key labels ≡ none
      → p.requirement_matches
          (record { key = key; operator = gt_operator; values = itoa m ∷ [] })
          labels
        ≡ false
