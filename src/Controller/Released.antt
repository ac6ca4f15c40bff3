-- ===== src/Controller/Released.antt =====
-- `releaseNodeKeys` (internal/controller/podsequence_controller.go) on a server that accepts its
-- patches: the node afterwards.
use podsequencing.Base.{
  String, ◌≡◌, ◌≤◌, inl, inr, refl, sym, ap, ◌∙◌, arith, Bool, not, none, List, [], ◌∷◌, ◌++◌,
  append_assoc, length, keep, lookup, ◌==◌, string_eq, nat_eq, Bool-cases, if◌then◌else◌,
}
use podsequencing.Kubernetes.{Node}
use podsequencing.Controller.Api.{Api, History, LabelPatch, patch_labels, patch_taints}
use podsequencing.Controller.NodeKeys.{
  patch_node_labels, patch_node_taints, release_labels, release_taints, after_labels, release_by,
  release_node_keys,
}
use podsequencing.Controller.Echo.{IsEchoing, patched, replay}
use podsequencing.Controller.Releasing.{label_left, left-label_left}

module _ {ℓ} {A : Type ℓ} where
  keep_le : (p : A → Bool) (xs : List A) → length (keep p xs) ≤ length xs
  keep_le p [] = omega arith
  keep_le p (x ∷ xs) = ground (arith, keep_le p xs)

  keep_all : (p : A → Bool) (xs : List A) → length (keep p xs) ≡ length xs → keep p xs ≡ xs
  keep_all p [] e = refl
  keep_all p (x ∷ xs) e = elim (Bool-cases (p x)) [
    | inl t ↦
        let shorter : length (keep p xs) ≡ length xs = ground (arith, t, e) in
        rw (t, if◌then◌else◌) (ap (λ ys. x ∷ ys) (keep_all p xs shorter))
    | inr f ↦ absurd (ground (arith, f, e, keep_le p xs))
  ]

-- The stale keys are released, and nothing else of the labels and taints is changed.
pub record IsReleased (stale in_use : String → Bool) (before after : Node) : Type 0 where
  pub labels : (k : String) → lookup k after.labels ≡ label_left stale in_use before.labels k
  pub taints : after.taints ≡ keep (λ t. not (stale t.key)) before.taints

module _ (api : Api) (echo : IsEchoing api) (stale in_use : String → Bool) where
  release_taints-IsReleased :
      (node : Node) (h : History)
      → (calls : History) × ((release_taints api node stale h).0 ≡ none)
        × ((release_taints api node stale h).1 ≡ calls ++ h)
        × ((replay calls node).labels ≡ node.labels)
        × ((replay calls node).taints ≡ keep (λ t. not (stale t.key)) node.taints)
  unfolding release_taints patch_node_taints
  release_taints-IsReleased node h =
      let new = keep (λ t. not (stale t.key)) node.taints in
      elim (Bool-cases (length new == length node.taints)) [
        | inr e ↦
            rw (e, if◌then◌else◌, echo.echo_taints h node new)
              (patch_taints node new ∷ [], refl, refl, refl, refl)
        | inl e ↦
            let same : length new ≡ length node.taints = ground (arith, e) in
            rw (e, if◌then◌else◌)
              ([], refl, refl, refl, sym (keep_all (λ t. not (stale t.key)) node.taints same))
      ]

  replay-append :
      (calls earlier : History) (node : Node)
      → replay (calls ++ earlier) node ≡ replay calls (replay earlier node)
  replay-append [] earlier node = refl
  replay-append (c ∷ calls) earlier node =
      ap (λ n. replay (c ∷ []) n) (replay-append calls earlier node)

  release_by-IsReleased :
      (node : Node) (patch : LabelPatch) (h : History)
      → (calls : History) × ((release_by api node stale patch h).0 ≡ none)
        × ((release_by api node stale patch h).1 ≡ calls ++ h)
        × ((replay calls node).labels ≡ patched patch node.labels)
        × ((replay calls node).taints ≡ keep (λ t. not (stale t.key)) node.taints)
  unfolding release_by patch_node_labels after_labels
  release_by-IsReleased node [] h = release_taints-IsReleased node h
  release_by-IsReleased node (change ∷ changes) h =
      let patch = change ∷ changes in
      let call = patch_labels node patch in
      let node' = record node { labels = patched patch node.labels } in
      let (calls, no_error, log, labels, taints) = release_taints-IsReleased node' (call ∷ h) in
      let split = replay-append calls (call ∷ []) node in
      rw (echo.echo_labels h node patch, after_labels)
        (
          calls ++ (call ∷ []),
          no_error,
          log ∙ sym (append_assoc calls (call ∷ []) h),
          ap (λ n. n.labels) split ∙ labels,
          ap (λ n. n.taints) split ∙ taints,
        )

  -- Against an API server that accepts its patches, `releaseNodeKeys` reports no error, and after
  -- its calls every label that is not stale is as before, a stale one has the released value if it
  -- is in use and is gone otherwise, and the taints are those before without the stale ones.
  pub release_node_keys-IsReleased :
      (node : Node) (h : History)
      → (calls : History) × ((release_node_keys api node stale in_use h).0 ≡ none)
        × ((release_node_keys api node stale in_use h).1 ≡ calls ++ h)
        × IsReleased stale in_use node (replay calls node)
  unfolding release_node_keys
  release_node_keys-IsReleased node h =
      let (calls, no_error, log, labels, taints) =
        release_by-IsReleased node (release_labels stale in_use node.labels) h in
      (
        calls,
        no_error,
        log,
        record {
          labels = λ k. ap (lookup k) labels ∙ left-label_left stale in_use k node.labels;
          taints = taints;
        },
      )
