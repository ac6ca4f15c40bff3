-- ===== src/Controller/DeletionSafety.antt =====
-- `handleDeletion` (internal/controller/podsequence_controller.go): its calls, and what comes before
-- the finalizer's removal.
use podsequencing.Base.{
  String, ◌≡◌, inl, inr, refl, sym, ◌∙◌, Bool, true, not, ◌&&◌, Option, none, some, List, [], ◌∷◌,
  Result, ok, err, Error, arith, ◌==◌, string_eq, str_eq_iff, keep, All-weaken, Bool-cases,
  Option-cases, if◌then◌else◌, All, All-split,
}
use podsequencing.Kubernetes.{Pod, Node}
use podsequencing.Kubernetes.Platform.{Platform}
use podsequencing.Types.{PodSequence, scope_node}
use podsequencing.Sequence.Keys.{eligibility_key}
use podsequencing.Sequence.Fields.{target_namespace, gate_name, scope}
use podsequencing.Sequence.Pods.{has_gate}
use podsequencing.Sequence.Steering.{pending_required_keys}
use podsequencing.Controller.Api.{
  Api, History, Call, ◌>>=◌, patch_pod, patch_labels, patch_taints, update_sequence, update_status,
  read, pod_list,
}
use podsequencing.Controller.Gates.{without_gate, remove_gate}
use podsequencing.Controller.NodeKeys.{release_node_keys}
use podsequencing.Controller.Deletion.{
  finalizer_key, items_of, error_of, error_list, is_claimed, release_claimed, release_nodes,
  is_among, release_sequence_key, drop_finalizer, clean_up, handle_deletion,
}
use podsequencing.Controller.Traces.{Emits, Emits-nothing, Emits-one, Emits-then, remove_gate-Emits}
use podsequencing.Controller.ReleaseTraces.{AllowsReleases, release_node_keys-Emits}

-- `kerrors.NewAggregate` is nil only for a list without errors.
pub record IsAggregating (api : Api) : Type 0 where
  pub aggregate_none :
      (errs : List (Option Error)) → api.aggregate errs ≡ none → All (λ e. e ≡ none) errs

abbrev NoErrors : List (Option Error) → Type 0
NoErrors = All (λ e. e ≡ none)

error_list-none : (e : Option Error) → NoErrors (error_list e) → e ≡ none
error_list-none none h = refl
error_list-none (some x) (h, rest) = h

error_of-none : {A : Type 0} (r : Result A) → NoErrors (error_of r) → (a : A) × (r ≡ ok a)
error_of-none (ok a) h = (a, refl)
error_of-none (err x) (h, rest) = absurd (cc h)

module _ (p : Platform) (api : Api) (seq : PodSequence) where
  -- At some time `removeGate` reported no error for the pod.
  abbrev pub WasReleased : Pod → Type 0
  WasReleased pod =
      is_claimed p seq pod ≡ true
      → (h : History) × ((remove_gate api pod (gate_name seq) h).0.0 ≡ none)

  -- At some time `releaseNodeKeys` reported no error for the node and the sequence's key.
  abbrev pub WasFreed : (String → Bool) → Node → Type 0
  WasFreed in_use node =
      (h : History) × ((release_node_keys api node
          (λ k. k == eligibility_key p seq.namespace seq.name) in_use h).0
        ≡ none)

  -- All that the sequence holds was listed and released.
  pub record IsCleanedUp (node_scope_enabled : Bool) : Type 0 where
    pub history : History
    pub pods : List Pod
    pub listed : api.answer_pods history (some (target_namespace seq)) p.everything ≡ ok pods
    pub released : All WasReleased pods
    pub freed :
        (scope seq == scope_node && node_scope_enabled) ≡ true
        → (h : History) × (nodes : List Node) × (in_use : String → Bool) × (api.answer_nodes h
            ≡ ok nodes)
          × All (WasFreed in_use) nodes

  -- Only the cleaned-up sequence is updated, and it loses only the finalizer. Only claimed pods lose
  -- their gate, and nodes lose only the sequence's key, in full mode.
  abbrev pub IsDeletionCall : Bool → Call → Type 0
  IsDeletionCall enabled (update_sequence new) =
      (new ≡ api.remove_finalizer seq finalizer_key) × IsCleanedUp enabled
  IsDeletionCall enabled (patch_pod old new) =
      (has_gate old (gate_name seq) ≡ true)
      × (is_claimed p seq old ≡ true)
      × (new ≡ without_gate old (gate_name seq))
  IsDeletionCall enabled (patch_labels node patch) =
      ((scope seq == scope_node && enabled) ≡ true)
      × All (λ change. change.0 ≡ eligibility_key p seq.namespace seq.name) patch
  IsDeletionCall enabled (patch_taints node taints) =
      ((scope seq == scope_node && enabled) ≡ true)
      × (taints ≡ keep (λ t. not (t.key == eligibility_key p seq.namespace seq.name)) node.taints)
  IsDeletionCall enabled (update_status new) = ⊥
  IsDeletionCall enabled _ = Unit

  release_claimed-released :
      (pods : List Pod) (h : History)
      → NoErrors (release_claimed p api seq pods h).0.0
      → All WasReleased pods
  unfolding release_claimed
  release_claimed-released [] h clean = tt
  release_claimed-released (pod ∷ pods) h clean = elim (Bool-cases (is_claimed p seq pod)) [
    | inr e ↦ (
      λ c. absurd (cc (sym e ∙ c)),
      release_claimed-released pods h (rw (e, if◌then◌else◌, release_claimed) at clean),
    )
    | inl e ↦
        let r = remove_gate api pod (gate_name seq) h in
        let (here, rest) =
          All-split (λ e. e ≡ none) (error_list r.0.0) _
            (rw (e, if◌then◌else◌, release_claimed) at clean) in
        (λ c. (h, error_list-none r.0.0 here), release_claimed-released pods r.1 rest)
  ]

  pub release_claimed-Emits :
      (enabled : Bool) (pods : List Pod) (h : History)
      → Emits (IsDeletionCall enabled) h (release_claimed p api seq pods h).1
  unfolding release_claimed
  release_claimed-Emits enabled [] h = Emits-nothing h
  release_claimed-Emits enabled (pod ∷ pods) h = elim (Bool-cases (is_claimed p seq pod)) [
    | inr e ↦ rw (e, if◌then◌else◌) (release_claimed-Emits enabled pods h)
    | inl e ↦
        rw (e, if◌then◌else◌)
          (Emits-then (remove_gate-Emits api pod (gate_name seq) h (λ g. (g, e, refl)))
            (release_claimed-Emits enabled pods _))
  ]

  abbrev sequence_key : String → Bool
  sequence_key k = k == eligibility_key p seq.namespace seq.name

  release_nodes-freed :
      (in_use : String → Bool) (nodes : List Node) (h : History)
      → NoErrors (release_nodes api sequence_key in_use nodes h).0
      → All (WasFreed in_use) nodes
  unfolding release_nodes
  release_nodes-freed in_use [] h clean = tt
  release_nodes-freed in_use (node ∷ nodes) h clean =
      let r = release_node_keys api node sequence_key in_use h in
      let (here, rest) = All-split (λ e. e ≡ none) (error_list r.0) _ clean in
      ((h, error_list-none r.0 here), release_nodes-freed in_use nodes r.1 rest)

module _ (api : Api) {P : Call → Type 0} (stale in_use : String → Bool)
    (allows : AllowsReleases P stale in_use) where
  pub release_nodes-Emits :
      (nodes : List Node) (h : History) → Emits P h (release_nodes api stale in_use nodes h).1
  unfolding release_nodes
  release_nodes-Emits [] h = Emits-nothing h
  release_nodes-Emits (node ∷ nodes) h =
      Emits-then (release_node_keys-Emits api stale in_use allows node h)
        (release_nodes-Emits nodes _)

module _ (p : Platform) (api : Api) (seq : PodSequence) (enabled : Bool) where
  abbrev pub Fine : History → History → Type 0
  Fine = Emits (IsDeletionCall p api seq enabled)

  pub release_sequence_key-Fine :
      (pods : List Pod) (h : History)
      → (scope seq == scope_node && enabled) ≡ true
      → Fine h (release_sequence_key p api seq pods h).1
  unfolding release_sequence_key
  release_sequence_key-Fine pods h e = Emits-then (Emits-one _ h tt) (
      release_nodes-Emits api _ _
        (record {
          labels = λ node patch releasing. (
            e,
            All-weaken patch
                (λ change (stale, rest).
                  ground
                    (arith, stale, str_eq_iff change.0 (eligibility_key p seq.namespace seq.name)))
                releasing,
          );
          taints = λ node. (e, refl);
        })
        _ _)

  release_sequence_key-freed :
      (pods : List Pod) (h : History)
      → NoErrors (release_sequence_key p api seq pods h).0
      → (h' : History) × (nodes : List Node) × (in_use : String → Bool) × (api.answer_nodes h'
          ≡ ok nodes)
        × All (WasFreed p api seq in_use) nodes
  unfolding release_sequence_key
  release_sequence_key-freed pods h clean =
      let in_use = is_among (pending_required_keys pods) in
      let (nodes_ok, rest) = All-split (λ e. e ≡ none) (error_of (api.answer_nodes h)) _ clean in
      let (nodes, e) = error_of-none (api.answer_nodes h) nodes_ok in
      (h, nodes, in_use, e, release_nodes-freed p api seq in_use nodes _ (rw e at rest))

  pub clean_up-Fine : (h : History) → Fine h (clean_up p api enabled seq h).1
  unfolding clean_up
  clean_up-Fine h =
      let pods = items_of (api.answer_pods h (some (target_namespace seq)) p.everything) in
      let released = release_claimed-Emits p api seq enabled pods (read pod_list ∷ h) in
      elim (Bool-cases (scope seq == scope_node && enabled)) [
        | inr e ↦ rw (e, if◌then◌else◌, ◌>>=◌) (Emits-then (Emits-one _ h tt) released)
        | inl e ↦
            rw (e, if◌then◌else◌, ◌>>=◌)
              (Emits-then (Emits-then (Emits-one _ h tt) released)
                (release_sequence_key-Fine _ _ e))
      ]

  clean_up-IsCleanedUp :
      (h : History) → NoErrors (clean_up p api enabled seq h).0 → IsCleanedUp p api seq enabled
  unfolding clean_up
  clean_up-IsCleanedUp h clean =
      let answer = api.answer_pods h (some (target_namespace seq)) p.everything in
      let (read_ok, rest) = All-split (λ e. e ≡ none) (error_of answer) _ clean in
      let (pods, e) = error_of-none answer read_ok in
      let r = release_claimed p api seq (items_of answer) (read pod_list ∷ h) in
      let (released, freed) = All-split (λ e. e ≡ none) r.0.0 _ rest in
      record {
        history = h;
        pods = pods;
        listed = e;
        released = release_claimed-released p api seq pods _ (rw e at released);
        freed = λ node_scope.
            release_sequence_key-freed r.0.1 r.1 (rw (node_scope, if◌then◌else◌, ◌>>=◌) at freed);
      }

  pub drop_finalizer-Fine :
      (e : Option Error) (h : History)
      → (e ≡ none → IsCleanedUp p api seq enabled)
      → Fine h (drop_finalizer p api seq e h).1
  unfolding drop_finalizer
  drop_finalizer-Fine (some x) h cleaned = Emits-nothing h
  drop_finalizer-Fine none h cleaned =
      let new = api.remove_finalizer seq finalizer_key in
      elim (Option-cases (api.answer_update_sequence h new)) [
        | inr (x, f) ↦ rw f (Emits-one _ h (refl, cleaned refl))
        | inl f ↦ rw f (Emits-then (Emits-one _ h (refl, cleaned refl)) (Emits-one _ _ tt))
      ]

  -- Where an aggregate of errors is nil only if no error is in it: `handleDeletion` updates the
  -- sequence only to take its finalizer away, and only after the pods were listed, `removeGate`
  -- reported no error for each claimed one and, for node scope in full mode, the nodes were listed
  -- and `releaseNodeKeys` reported no error for each. It takes gates only from claimed gated pods,
  -- writes to nodes only for node scope in full mode and only the sequence's key, and no status.
  pub handle_deletion-IsDeletionCall :
      (aggregating : IsAggregating api) (h : History)
      → Emits (IsDeletionCall p api seq enabled) h (handle_deletion p api enabled seq h).1
  unfolding handle_deletion
  handle_deletion-IsDeletionCall aggregating h =
      elim (Bool-cases (api.contains_finalizer seq finalizer_key)) [
        | inr e ↦ rw (e, if◌then◌else◌) (Emits-nothing h)
        | inl e ↦
            let r = clean_up p api enabled seq h in
            rw (e, if◌then◌else◌)
              (Emits-then (clean_up-Fine h) (
                drop_finalizer-Fine (api.aggregate r.0) r.1
                  (λ n. clean_up-IsCleanedUp h (aggregating.aggregate_none r.0 n))))
      ]
