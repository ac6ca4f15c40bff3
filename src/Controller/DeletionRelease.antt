-- ===== src/Controller/DeletionRelease.antt =====
-- `handleDeletion` (internal/controller/podsequence_controller.go): the claimed pods when calls fail.
use mathlib.Core.List.{Memᴰ}
use podsequencing.Base.{
  ◌≡◌, inl, inr, sym, Bool, true, ◌&&◌, List, [], ◌∷◌, ok, Option, none, some, Error, subst,
  Option-cases, ◌==◌, string_eq, Bool-cases, and_true, if◌then◌else◌,
}
use podsequencing.Kubernetes.{Pod}
use podsequencing.Kubernetes.Platform.{Platform}
use podsequencing.Types.{PodSequence, scope_node}
use podsequencing.Sequence.Fields.{target_namespace, gate_name, scope}
use podsequencing.Sequence.Pods.{has_gate}
use podsequencing.Controller.Api.{Api, History, ◌>>=◌, patch_pod, read, pod_list}
use podsequencing.Controller.Gates.{without_gate}
use podsequencing.Controller.Deletion.{
  finalizer_key, is_claimed, release_claimed, drop_finalizer, clean_up, handle_deletion,
}
use podsequencing.Controller.Traces.{
  Emits, Emits-nothing, Emits-one, Emits-then, remove_gate-Emits, Includes, Includes-then,
  Includes-after, remove_gate-Includes,
}
use podsequencing.Controller.DeletionSafety.{
  IsDeletionCall, release_claimed-Emits, release_sequence_key-Fine,
}

module _ (p : Platform) (api : Api) (seq : PodSequence) where
  release_claimed-Includes :
      (pods : List Pod) (pod : Pod) (h : History)
      → Memᴰ pod pods
      → is_claimed p seq pod ≡ true
      → Includes
          (patch_pod pod (without_gate pod (gate_name seq)))
          h
          (release_claimed p api seq pods h).1
  unfolding release_claimed is_claimed
  release_claimed-Includes [] pod h m e = elim m [ ]
  release_claimed-Includes (q ∷ pods) pod h (Memᴰ.head same) e =
      let claimed : is_claimed p seq q ≡ true = subst (λ x. is_claimed p seq x ≡ true) same e in
      let (gated, rest) = and_true (has_gate q (gate_name seq)) _ claimed in
      subst
        (λ x.
          Includes (patch_pod x (without_gate x (gate_name seq))) h
            (release_claimed p api seq (q ∷ pods) h).1)
        (sym same)
        (rw (claimed, if◌then◌else◌, release_claimed)
          (Includes-then (remove_gate-Includes api q (gate_name seq) h gated)
            (release_claimed-Emits p api seq true pods _)))
  release_claimed-Includes (q ∷ pods) pod h (Memᴰ.tail m) e =
      elim (Bool-cases (is_claimed p seq q)) [
        | inr f ↦ rw (f, if◌then◌else◌, release_claimed) (release_claimed-Includes pods pod h m e)
        | inl f ↦
            rw (f, if◌then◌else◌, release_claimed)
              (Includes-after {P = λ c. Unit {0}}
                (remove_gate-Emits api q (gate_name seq) h (λ g. tt))
                (release_claimed-Includes pods pod _ m e))
      ]

module _ (p : Platform) (api : Api) (seq : PodSequence) where
  drop_finalizer-Extends :
      (e : Option Error) (h : History) → Emits (λ c. Unit {0}) h (drop_finalizer p api seq e h).1
  unfolding drop_finalizer
  drop_finalizer-Extends (some x) h = Emits-nothing h
  drop_finalizer-Extends none h =
      elim (Option-cases (api.answer_update_sequence h (api.remove_finalizer seq finalizer_key))) [
        | inr (x, f) ↦ rw f (Emits-one _ h tt)
        | inl f ↦ rw f (Emits-then (Emits-one _ h tt) (Emits-one _ _ tt))
      ]

module _ (p : Platform) (api : Api) (seq : PodSequence) (enabled : Bool) where
  -- Deletion fails open. Where the sequence has the finalizer and the first list of pods holds a
  -- claimed pod, `handleDeletion` sends the patch that takes the gate from that pod, whatever
  -- errors it meets.
  pub handle_deletion-Includes :
      (pods : List Pod) (pod : Pod) (h : History)
      → api.contains_finalizer seq finalizer_key ≡ true
      → api.answer_pods h (some (target_namespace seq)) p.everything ≡ ok pods
      → Memᴰ pod pods
      → is_claimed p seq pod ≡ true
      → Includes
          (patch_pod pod (without_gate pod (gate_name seq)))
          h
          (handle_deletion p api enabled seq h).1
  unfolding handle_deletion clean_up
  handle_deletion-Includes pods pod h held answered m claimed =
      let r = clean_up p api enabled seq h in
      let first = release_claimed-Includes p api seq pods pod (read pod_list ∷ h) m claimed in
      let start : Emits (IsDeletionCall p api seq enabled) h (read pod_list ∷ h) =
        Emits-one _ h tt in
      let cleaned : Includes (patch_pod pod (without_gate pod (gate_name seq))) h r.1 =
        elim (Bool-cases (scope seq == scope_node && enabled)) [
          | inr e ↦ rw (answered, e, if◌then◌else◌, ◌>>=◌) (Includes-after start first)
          | inl e ↦
              rw (answered, e, if◌then◌else◌, ◌>>=◌)
                (Includes-after start
                  (Includes-then first (release_sequence_key-Fine p api seq enabled _ _ e)))
        ] in
      rw (held, if◌then◌else◌)
        (Includes-then cleaned (drop_finalizer-Extends p api seq (api.aggregate r.0) r.1))
