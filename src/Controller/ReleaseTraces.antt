-- ===== src/Controller/ReleaseTraces.antt =====
-- What `releaseNodeKeys` (internal/controller/podsequence_controller.go) calls.
use podsequencing.Base.{
  String, ◌≡◌, ◌⊎◌, refl, Bool, true, false, not, inl, inr, Option, none, some, [], ◌∷◌, length,
  keep, ◌==◌, ◌!=◌, string_eq, nat_eq, Bool-cases, if◌then◌else◌, Error, All,
}
use podsequencing.Kubernetes.{Node, Labels}
use podsequencing.Sequence.Keys.{released_label_value}
use podsequencing.Controller.Api.{Api, History, Call, LabelPatch, patch_labels, patch_taints}
use podsequencing.Controller.NodeKeys.{
  release_labels, release_taints, after_labels, release_by, release_node_keys,
}
use podsequencing.Controller.Traces.{Emits, Emits-nothing, Emits-then}
use podsequencing.Controller.KeyTraces.{patch_node_labels-Emits, patch_node_taints-Emits}

-- A stale label is deleted, or set to the released value while it is in use.
abbrev pub IsReleasing : (String → Bool) → (String → Bool) → String × Option String → Type 0
IsReleasing stale in_use (k, want) =
    (stale k ≡ true)
    × (((in_use k ≡ false) × (want ≡ none))
        ⊎ ((in_use k ≡ true) × (want ≡ some released_label_value)))

-- `P` allows the patches that release the stale keys.
pub record AllowsReleases (P : Call → Type 0) (stale in_use : String → Bool) : Type 0 where
  pub labels :
      (node : Node) (patch : LabelPatch)
      → All (IsReleasing stale in_use) patch
      → P (patch_labels node patch)
  pub taints : (node : Node) → P (patch_taints node (keep (λ t. not (stale t.key)) node.taints))

release_labels-IsReleasing :
    (stale in_use : String → Bool) (labels : Labels)
    → All (IsReleasing stale in_use) (release_labels stale in_use labels)
unfolding release_labels
release_labels-IsReleasing stale in_use [] = tt
release_labels-IsReleasing stale in_use ((k, v) ∷ labels) =
    let rest = release_labels-IsReleasing stale in_use labels in
    elim (Bool-cases (stale k)) [
      | inr e ↦ rw (e, if◌then◌else◌) rest
      | inl e ↦ elim (Bool-cases (in_use k)) [
        | inr f ↦ rw (e, f, if◌then◌else◌) ((e, inl (f, refl)), rest)
        | inl f ↦ elim (Bool-cases (v != released_label_value)) [
          | inl g ↦ rw (e, f, g, if◌then◌else◌) ((e, inr (f, refl)), rest)
          | inr g ↦ rw (e, f, g, if◌then◌else◌) rest
        ]
      ]
    ]

module _ (api : Api) {P : Call → Type 0} (stale in_use : String → Bool)
    (allows : AllowsReleases P stale in_use) where
  release_taints-Emits : (node : Node) (h : History) → Emits P h (release_taints api node stale h).1
  unfolding release_taints
  release_taints-Emits node h =
      let new = keep (λ t. not (stale t.key)) node.taints in
      elim (Bool-cases (length new == length node.taints)) [
        | inl e ↦ rw (e, if◌then◌else◌) (Emits-nothing h)
        | inr e ↦
            rw (e, if◌then◌else◌) (patch_node_taints-Emits api node new h (allows.taints node))
      ]

  after_labels-Emits :
      (r : Option Error × Node) (h : History) → Emits P h (after_labels api stale r h).1
  unfolding after_labels
  after_labels-Emits (some x, node) h = Emits-nothing h
  after_labels-Emits (none, node) h = release_taints-Emits node h

  release_by-Emits :
      (node : Node) (patch : LabelPatch) (h : History)
      → All (IsReleasing stale in_use) patch
      → Emits P h (release_by api node stale patch h).1
  unfolding release_by
  release_by-Emits node [] h releasing = release_taints-Emits node h
  release_by-Emits node (change ∷ changes) h releasing =
      Emits-then
        (patch_node_labels-Emits api node (change ∷ changes) h (allows.labels node _ releasing))
        (after_labels-Emits _ _)

  pub release_node_keys-Emits :
      (node : Node) (h : History) → Emits P h (release_node_keys api node stale in_use h).1
  unfolding release_node_keys
  release_node_keys-Emits node h =
      release_by-Emits node _ h (release_labels-IsReleasing stale in_use node.labels)
