-- ===== src/Controller/OrphanSafety.antt =====
-- `cleanupOrphanedNodeKeys` (internal/controller/podsequence_controller.go): its calls on nodes.
use podsequencing.Base.{
  String, ◌≡◌, ◌≢◌, ◌⊎◌, inl, inr, refl, Bool, true, false, not, ◌||◌, Option, none, some, List, [],
  ◌∷◌, Result, ok, err, arith, ◌==◌, string_eq, str_eq_iff, Bool-cases, Result-cases, if◌then◌else◌,
  keep, All, All-weaken,
}
use podsequencing.Kubernetes.{Pod, Node, Taint}
use podsequencing.Kubernetes.Platform.{Platform}
use podsequencing.Types.{PodSequence, scope_node}
use podsequencing.Sequence.Keys.{
  eligibility_key, is_eligibility_key, is_legacy_group_taint_key, released_label_value,
}
use podsequencing.Sequence.Fields.{scope}
use podsequencing.Sequence.Steering.{pending_required_keys}
use podsequencing.Controller.Api.{
  Api, History, Call, patch_labels, patch_taints, read, node_list, pod_list, sequence_list,
}
use podsequencing.Controller.Deletion.{
  is_among, valid_keys, is_orphaned, cleanup_nodes, cleanup_pods, cleanup_sequences,
  cleanup_orphaned_node_keys,
}
use podsequencing.Controller.Traces.{Emits, Emits-nothing, Emits-one, Emits-then}
use podsequencing.Controller.ReleaseTraces.{AllowsReleases}
use podsequencing.Controller.DeletionSafety.{release_nodes-Emits}

module _ (p : Platform) where
  -- The key of no node-scoped sequence, in the controller's namespace of keys, or a legacy key.
  abbrev pub IsOrphan : List PodSequence → String → Type 0
  IsOrphan seqs key =
      (is_legacy_group_taint_key key ≡ true)
      ⊎ ((is_eligibility_key key ≡ true)
          × All (λ seq. scope seq ≡ scope_node → key ≢ eligibility_key p seq.namespace seq.name)
              seqs)

  valid_keys_complete :
      (seqs : List PodSequence) (key : String)
      → is_among (valid_keys p seqs) key ≡ false
      → All (λ seq. scope seq ≡ scope_node → key ≢ eligibility_key p seq.namespace seq.name) seqs
  unfolding valid_keys
  valid_keys_complete [] key h = tt
  valid_keys_complete (seq ∷ seqs) key h =
      let own = eligibility_key p seq.namespace seq.name in
      let node_scoped = str_eq_iff (scope seq) scope_node in
      elim (Bool-cases (scope seq == scope_node)) [
        | inr e ↦ (
          λ s. absurd (ground (arith, e, s, node_scoped)),
          valid_keys_complete seqs key (rw (e, if◌then◌else◌, valid_keys) at h),
        )
        | inl e ↦
            let missing : (own == key || is_among (valid_keys p seqs) key) ≡ false =
              rw (e, if◌then◌else◌, valid_keys) at h in
            (
              λ s same. absurd (ground (arith, missing, same, str_eq_iff own key)),
              valid_keys_complete seqs key (ground (arith, missing)),
            )
      ]

  is_orphaned-IsOrphan :
      (seqs : List PodSequence) (key : String) → is_orphaned p seqs key ≡ true → IsOrphan seqs key
  unfolding is_orphaned
  is_orphaned-IsOrphan seqs key h = elim (Bool-cases (is_legacy_group_taint_key key)) [
    | inl e ↦ inl e
    | inr e ↦ inr (ground (arith, h, e), valid_keys_complete seqs key (ground (arith, h, e)))
  ]

module _ (p : Platform) (api : Api) where
  -- What the cleanup has read.
  pub record IsRead (seqs : List PodSequence) (pods : List Pod) : Type 0 where
    pub sequences_at : History
    pub sequences : api.answer_sequences sequences_at ≡ ok seqs
    pub pods_at : History
    pub all_pods : api.answer_pods pods_at none p.everything ≡ ok pods

  -- Only orphaned keys are written: a label that a waiting pod requires is released and any other
  -- deleted.
  pub record IsCleaning (changes : List (String × Option String)) : Type 0 where
    pub seqs : List PodSequence
    pub pods : List Pod
    pub was_read : IsRead seqs pods
    pub each :
        All
          (λ change.
            IsOrphan p seqs change.0
            × (((is_among (pending_required_keys pods) change.0 ≡ false) × (change.1 ≡ none))
                ⊎ ((is_among (pending_required_keys pods) change.0 ≡ true)
                    × (change.1 ≡ some released_label_value))))
          changes

  -- Only taints of orphaned keys go.
  pub record IsSweeping (node : Node) (taints : List Taint) : Type 0 where
    pub seqs : List PodSequence
    pub pods : List Pod
    pub was_read : IsRead seqs pods
    pub gone : String → Bool
    pub orphans : (key : String) → gone key ≡ true → IsOrphan p seqs key
    pub rest : taints ≡ keep (λ t. not (gone t.key)) node.taints

  abbrev pub IsCleanupCall : Call → Type 0
  IsCleanupCall (read what) = Unit
  IsCleanupCall (patch_labels node patch) = IsCleaning patch
  IsCleanupCall (patch_taints node taints) = IsSweeping node taints
  IsCleanupCall _ = ⊥

  releases :
      (seqs : List PodSequence) (pods : List Pod)
      → IsRead seqs pods
      → AllowsReleases IsCleanupCall (is_orphaned p seqs) (is_among (pending_required_keys pods))
  releases seqs pods was_read = record {
    labels = λ node patch releasing. record {
      seqs = seqs;
      pods = pods;
      was_read = was_read;
      each =
          All-weaken patch
            (λ change (stale, wanted). (is_orphaned-IsOrphan p seqs change.0 stale, wanted))
            releasing;
    };
    taints = λ node. record {
      seqs = seqs;
      pods = pods;
      was_read = was_read;
      gone = is_orphaned p seqs;
      orphans = is_orphaned-IsOrphan p seqs;
      rest = refl;
    };
  }

  cleanup_nodes-Emits :
      (seqs : List PodSequence) (pods : List Pod) (r : Result (List Node)) (h : History)
      → IsRead seqs pods
      → Emits IsCleanupCall h (cleanup_nodes p api seqs pods r h).1
  unfolding cleanup_nodes
  cleanup_nodes-Emits seqs pods (err x) h was_read = Emits-nothing h
  cleanup_nodes-Emits seqs pods (ok nodes) h was_read =
      release_nodes-Emits api _ _ (releases seqs pods was_read) nodes h

  cleanup_sequences-Emits :
      (seqs : List PodSequence) (h_seqs h : History)
      → api.answer_sequences h_seqs ≡ ok seqs
      → Emits IsCleanupCall h (cleanup_sequences p api (ok seqs) h).1
  unfolding cleanup_sequences cleanup_pods
  cleanup_sequences-Emits seqs h_seqs h e =
      elim (Result-cases (api.answer_pods h none p.everything)) [
        | inr (x, f) ↦ rw (f, cleanup_pods) (Emits-one (read pod_list) h tt)
        | inl (pods, f) ↦
            rw (f, cleanup_pods)
              (Emits-then (Emits-one (read pod_list) h tt) (
                Emits-then (Emits-one (read node_list) _ tt) (
                  cleanup_nodes-Emits seqs pods _ _
                    (record { sequences_at = h_seqs; sequences = e; pods_at = h; all_pods = f }))))
      ]

  -- Whatever the API server answers, `cleanupOrphanedNodeKeys` writes only to nodes, and only after
  -- sequences and pods were listed. It takes away only taints, and changes only labels, whose key
  -- is a legacy key, or an eligibility key of none of the listed node-scoped sequences. Such a
  -- label is set to the released value where a listed waiting pod requires it and is deleted
  -- otherwise.
  pub cleanup_orphaned_node_keys-IsCleanupCall :
      (h : History) → Emits IsCleanupCall h (cleanup_orphaned_node_keys p api h).1
  unfolding cleanup_orphaned_node_keys cleanup_sequences
  cleanup_orphaned_node_keys-IsCleanupCall h = elim (Result-cases (api.answer_sequences h)) [
    | inr (x, f) ↦ rw (f, cleanup_sequences) (Emits-one (read sequence_list) h tt)
    | inl (seqs, f) ↦
        rw f (Emits-then (Emits-one (read sequence_list) h tt) (cleanup_sequences-Emits seqs h _ f))
  ]
