-- ===== src/Controller/Permissions.antt =====
-- What `Reconcile` (internal/controller/podsequence_controller.go) may write, by mode and finalizer.
use podsequencing.Base.{
  String, ◌≡◌, ◌≢◌, ◌⊎◌, inl, inr, refl, Bool, true, false, ◌&&◌, Option, none, some, ok, arith,
  str_eq_iff, ℕ, ◌==◌, ◌!=◌, string_eq, Bool-cases, if◌then◌else◌,
}
use podsequencing.Kubernetes.Platform.{Platform}
use podsequencing.Types.{PodSequence, scope_node}
use podsequencing.Sequence.Fields.{scope}
use podsequencing.Controller.Api.{
  Api, History, Call, read, sequence_by_name, event, count_ungated, patch_pod, patch_labels,
  patch_taints, update_sequence, update_status,
}
use podsequencing.Controller.Deletion.{finalizer_key, handle_deletion}
use podsequencing.Controller.Reconcile.{
  full_mode_needed, refuse_node_scope, initialize, proceed, adopt, dispatch, handle_sequence,
  reconcile,
}
use podsequencing.Controller.Traces.{
  Emits, Emits-nothing, Emits-one, Emits-then, Emits-weaken, patch_status-Emits,
}
use podsequencing.Controller.ClusterRules.{AllowedFor}
use podsequencing.Controller.ClusterSafety.{reconcile_cluster_scoped-IsAllowed}
use podsequencing.Controller.NodeScopedOrder.{
  IsNodeScopedCall, reconcile_node_scoped-IsNodeScopedCall,
}
use podsequencing.Controller.DeletionSafety.{
  IsAggregating, IsDeletionCall, handle_deletion-IsDeletionCall,
}

module _ (api : Api) (enabled : Bool) (seq : PodSequence) where
  abbrev IsHeld : Type 0
  IsHeld = api.contains_finalizer seq finalizer_key ≡ true

  -- The sequence is node-scoped, and the controller runs with webhooks.
  abbrev IsFullMode : Type 0
  IsFullMode = (scope seq ≡ scope_node) × (enabled ≡ true)

  -- Pods, nodes and the status are written only while the finalizer is there, nodes only in full
  -- mode, the status only before deletion. The finalizer is added before anything else, and taken
  -- away only at deletion.
  abbrev pub IsPermitted : Call → Type 0
  IsPermitted (patch_pod old new) = IsHeld
  IsPermitted (patch_labels node patch) = IsHeld × IsFullMode
  IsPermitted (patch_taints node taints) = IsHeld × IsFullMode
  IsPermitted (update_status new) = IsHeld × (seq.deletion_timestamp ≡ none)
  IsPermitted (update_sequence new) =
      ((api.contains_finalizer seq finalizer_key ≡ false)
        × (seq.deletion_timestamp ≡ none)
        × (new ≡ api.add_finalizer seq finalizer_key))
      ⊎ (IsHeld × (seq.deletion_timestamp ≢ none) × (new ≡ api.remove_finalizer seq finalizer_key))
  IsPermitted _ = Unit

  full_mode : (scope seq == scope_node && enabled) ≡ true → IsFullMode
  full_mode e = ground (arith, e, str_eq_iff (scope seq) scope_node)

module _ (p : Platform) (api : Api) (enabled : Bool) (seq : PodSequence)
    (held : api.contains_finalizer seq finalizer_key ≡ true) where
  IsDeletionCall-IsPermitted :
      seq.deletion_timestamp ≢ none
      → (c : Call) → IsDeletionCall p api seq enabled c
      → IsPermitted api enabled seq c
  IsDeletionCall-IsPermitted deleted (read what) h = tt
  IsDeletionCall-IsPermitted deleted (patch_pod old new) h = held
  IsDeletionCall-IsPermitted deleted (patch_labels node patch) h =
      (held, full_mode api enabled seq h.0)
  IsDeletionCall-IsPermitted deleted (patch_taints node taints) h =
      (held, full_mode api enabled seq h.0)
  IsDeletionCall-IsPermitted deleted (update_sequence new) h = inr (held, deleted, h.0)
  IsDeletionCall-IsPermitted deleted (update_status new) h = absurd h
  IsDeletionCall-IsPermitted deleted (event type reason message) h = tt
  IsDeletionCall-IsPermitted deleted (count_ungated ns name reason) h = tt

  module _ (kept : seq.deletion_timestamp ≡ none) where
    AllowedFor-IsPermitted :
        (seq' : PodSequence) (c : Call) → AllowedFor p api seq' c → IsPermitted api enabled seq c
    AllowedFor-IsPermitted seq' (read what) h = tt
    AllowedFor-IsPermitted seq' (patch_pod old new) h = held
    AllowedFor-IsPermitted seq' (patch_labels node patch) h = absurd h
    AllowedFor-IsPermitted seq' (patch_taints node taints) h = absurd h
    AllowedFor-IsPermitted seq' (update_sequence new) h = absurd h
    AllowedFor-IsPermitted seq' (update_status new) h = (held, kept)
    AllowedFor-IsPermitted seq' (event type reason message) h = tt
    AllowedFor-IsPermitted seq' (count_ungated ns name reason) h = tt

    IsNodeScopedCall-IsPermitted :
        IsFullMode api enabled seq
        → (seq' : PodSequence) (c : Call) → IsNodeScopedCall p api seq' c
        → IsPermitted api enabled seq c
    IsNodeScopedCall-IsPermitted full seq' (read what) h = tt
    IsNodeScopedCall-IsPermitted full seq' (patch_pod old new) h = held
    IsNodeScopedCall-IsPermitted full seq' (patch_labels node patch) h = (held, full)
    IsNodeScopedCall-IsPermitted full seq' (patch_taints node taints) h = (held, full)
    IsNodeScopedCall-IsPermitted full seq' (update_sequence new) h = absurd h
    IsNodeScopedCall-IsPermitted full seq' (update_status new) h = (held, kept)
    IsNodeScopedCall-IsPermitted full seq' (event type reason message) h = tt
    IsNodeScopedCall-IsPermitted full seq' (count_ungated ns name reason) h = tt

    initialize-Emits :
        (h : History) → Emits (IsPermitted api enabled seq) h (initialize p api seq h).1
    unfolding initialize
    initialize-Emits h = elim (Bool-cases (seq.status.phase == "")) [
      | inl e ↦ rw (e, if◌then◌else◌) (Emits-one _ h tt)
      | inr e ↦ rw (e, if◌then◌else◌) (Emits-nothing h)
    ]

    refuse_node_scope-Emits :
        (h : History) → Emits (IsPermitted api enabled seq) h (refuse_node_scope p api seq h).1
    unfolding refuse_node_scope
    refuse_node_scope-Emits h = elim (Bool-cases (seq.status.message != full_mode_needed)) [
      | inl e ↦
          rw (e, if◌then◌else◌)
            (Emits-then (Emits-one _ h tt) (patch_status-Emits api seq _ _ (held, kept)))
      | inr e ↦ rw (e, if◌then◌else◌) (patch_status-Emits api seq _ _ (held, kept))
    ]

    proceed-Emits :
        (h : History) → Emits (IsPermitted api enabled seq) h (proceed p api enabled seq h).1
    unfolding proceed
    proceed-Emits h =
        let i = initialize p api seq h in
        elim (Bool-cases (scope seq == scope_node)) [
          | inr e ↦
              rw (e, if◌then◌else◌)
                (Emits-then (initialize-Emits h) (
                  Emits-weaken (AllowedFor-IsPermitted i.0)
                    (reconcile_cluster_scoped-IsAllowed p api seq i.0 i.1)))
          | inl e ↦ elim (Bool-cases enabled) [
            | inr f ↦ rw (e, f, if◌then◌else◌) (rw f at refuse_node_scope-Emits h)
            | inl f ↦
                rw (e, f, if◌then◌else◌)
                  (rw f at (
                    Emits-then (initialize-Emits h) (
                      Emits-weaken
                        (IsNodeScopedCall-IsPermitted
                          (ground (arith, e, f, str_eq_iff (scope seq) scope_node)) i.0)
                        (reconcile_node_scoped-IsNodeScopedCall p api i.0 seq i.1))))
          ]
        ]

module _ (p : Platform) (api : Api) (enabled : Bool) (seq : PodSequence)
    (aggregating : IsAggregating api) where
  handle_deletion-IsPermitted :
      (h : History)
      → seq.deletion_timestamp ≢ none
      → Emits (IsPermitted api enabled seq) h (handle_deletion p api enabled seq h).1
  unfolding handle_deletion
  handle_deletion-IsPermitted h deleted =
      elim (Bool-cases (api.contains_finalizer seq finalizer_key)) [
        | inr e ↦ rw (e, if◌then◌else◌) (Emits-nothing h)
        | inl e ↦
            Emits-weaken (IsDeletionCall-IsPermitted p api enabled seq e deleted)
              (handle_deletion-IsDeletionCall p api seq enabled aggregating h)
      ]

  dispatch-IsPermitted :
      (deletion : Option ℕ) (h : History)
      → seq.deletion_timestamp ≡ deletion
      → Emits (IsPermitted api enabled seq) h (dispatch p api enabled seq deletion h).1
  unfolding dispatch adopt
  dispatch-IsPermitted (some t) h deleted = handle_deletion-IsPermitted h (λ n. cc (deleted, n))
  dispatch-IsPermitted none h kept = elim (Bool-cases (api.contains_finalizer seq finalizer_key)) [
    | inl e ↦ rw (e, if◌then◌else◌) (proceed-Emits p api enabled seq e kept h)
    | inr e ↦ rw (e, if◌then◌else◌) (Emits-one _ h (inl (e, kept, refl)))
  ]

  -- Where an aggregate of errors is nil only if no error is in it, and `Get` answers with the
  -- sequence: `Reconcile` writes pods, nodes and the status only while the sequence has the
  -- finalizer, nodes only for node scope in full mode, and the status only before deletion. It
  -- updates the sequence only to add a missing finalizer before deletion, or to take the finalizer
  -- away at deletion.
  pub reconcile-IsPermitted :
      (h : History) (namespace name : String)
      → api.answer_sequence h namespace name ≡ ok seq
      → Emits (IsPermitted api enabled seq) h (reconcile p api enabled namespace name h).1
  unfolding reconcile handle_sequence
  reconcile-IsPermitted h namespace name answered =
      rw (answered, handle_sequence)
        (Emits-then (Emits-one (read sequence_by_name) h tt)
          (dispatch-IsPermitted seq.deletion_timestamp _ refl))
