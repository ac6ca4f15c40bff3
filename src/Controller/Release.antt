-- ===== src/Controller/Release.antt =====
-- `removeGate` and `applyPodAction` (internal/controller/podsequence_controller.go): the order of
-- their patches.
use podsequencing.Base.{
  String, ◌≡◌, ◌⊎◌, inl, inr, refl, ap, ◌∙◌, true, false, not, Option, none, List, [], ◌∷◌, ◌++◌,
  ok, Error, arith, ◌==◌, string_eq, str_eq_iff, Bool-cases, Result-cases, if◌then◌else◌, keep, any,
}
use podsequencing.Kubernetes.{Pod}
use podsequencing.Kubernetes.Platform.{Platform, IsDocumented}
use podsequencing.Sequence.Pods.{has_gate}
use podsequencing.Plan.Data.{PodAction}
use podsequencing.Controller.Api.{Api, History, Call, patch_pod}
use podsequencing.Controller.Echo.{IsEchoing}
use podsequencing.Controller.Gates.{
  without_gate, remove_gate, constrain, is_constrained, finish, apply_pod_action,
}
use podsequencing.Controller.Steered.{
  IsSteered, IsSteered-by, constrain-IsSteered, constrain_unchanged, unconstrained,
}

any-keep_lem :
    (gate g : String) (gates : List String)
    → any (λ x. x == g) (keep (λ x. not (x == gate)) gates)
      ≡ (if g == gate then false else any (λ x. x == g) gates)
any-keep_lem gate g [] = ground arith
any-keep_lem gate g (x ∷ gates) =
    ground (arith, any-keep_lem gate g gates, str_eq_iff x gate, str_eq_iff x g, str_eq_iff g gate)

module _ (p : Platform) (api : Api) (a : PodAction) where
  -- After `calls`, made since `h`, the server has the pod with the action's constraints: it is the
  -- action's own pod, which holds them already, or the server's answer to the one patch of that pod
  -- that added them.
  pub data WasSteered (calls h : History) (old : Pod) : Type 0 where
    already : old ≡ a.pod → calls ≡ [] → IsSteered p a old.spec → WasSteered calls h old
    accepted :
        (new : Pod)
        → calls ≡ patch_pod a.pod new ∷ []
        → IsSteered p a new.spec
        → api.answer_patch_pod h a.pod new ≡ ok old
        → IsSteered p a old.spec
        → WasSteered calls h old

  module _ (gate : String) where
    -- A call that follows `calls`, made since `h`: the patch that adds the constraints to the
    -- action's pod and leaves its gates, or the one that takes the gate from a steered pod.
    abbrev pub IsOrdered : Call → History → History → Type 0
    IsOrdered (patch_pod old new) calls h =
        ((old ≡ a.pod)
          × IsSteered p a new.spec
          × (new.spec.scheduling_gates ≡ old.spec.scheduling_gates))
        ⊎ ((has_gate old gate ≡ true) × (new ≡ without_gate old gate) × WasSteered calls h old)
    IsOrdered _ calls h = ⊥

    -- Each call is in order after those before it.
    abbrev pub InOrder : History → History → Type 0
    InOrder [] h = Unit
    InOrder (c ∷ calls) h = IsOrdered c calls h × InOrder calls h

module _ (p : Platform) (documented : IsDocumented p) (api : Api)
    (keeps : (h : History) (old new r : Pod)
      → api.answer_patch_pod h old new ≡ ok r
      → (r.spec.tolerations ≡ new.spec.tolerations) × (r.spec.affinity ≡ new.spec.affinity))
    (a : PodAction) (gate : String) where
  finish-InOrder :
      (pod : Pod) (earlier h : History)
      → WasSteered p api a earlier h pod
      → InOrder p api a gate earlier h
      → (calls : History) × ((finish api pod gate (earlier ++ h)).1 ≡ calls ++ h)
        × InOrder p api a gate calls h
  unfolding remove_gate
  finish-InOrder pod earlier h steered ordered =
      let new = without_gate pod gate in
      elim (Bool-cases (has_gate pod gate)) [
        | inr n ↦ rw (n, if◌then◌else◌) (earlier, refl, ordered)
        | inl g ↦
            let next : InOrder p api a gate (patch_pod pod new ∷ earlier) h =
              (inr (g, refl, steered), ordered) in
            elim (Result-cases (api.answer_patch_pod (earlier ++ h) pod new)) [
              | inl (r, e) ↦ rw (g, if◌then◌else◌, e) (patch_pod pod new ∷ earlier, refl, next)
              | inr (x, e) ↦ rw (g, if◌then◌else◌, e) (patch_pod pod new ∷ earlier, refl, next)
            ]
      ]

  -- On a documented platform, where every accepted patch of a pod is answered with the patched
  -- tolerations and affinity, `applyPodAction` only patches pods. Each patch either adds the
  -- action's constraints to the action's pod and leaves its gates, or takes the gate from a pod
  -- that has it and holds the constraints. That pod is the action's own, with nothing sent before,
  -- or the server's answer to the one patch sent before, which added them and was accepted. Patches
  -- may be refused.
  pub apply_pod_action-IsOrdered :
      (h : History)
      → (calls : History) × ((apply_pod_action p api a gate h).1 ≡ calls ++ h)
        × InOrder p api a gate calls h
  unfolding apply_pod_action
  apply_pod_action-IsOrdered h =
      let (steered, gates) = constrain-IsSteered p a a.pod.spec documented in
      let (spec, changed) = constrain p a a.pod.spec in
      let new = record (a.pod) { spec = spec } in
      elim (Bool-cases (is_constrained a)) [
        | inr n ↦
            rw (n, if◌then◌else◌)
              (finish-InOrder a.pod [] h (already refl refl (unconstrained p a n)) tt)
        | inl c ↦ elim (Bool-cases changed) [
          | inr same ↦
              let own : new ≡ a.pod =
                ap (λ s. record (a.pod) { spec = s }) (constrain_unchanged p a a.pod.spec same) in
              rw (c, same, if◌then◌else◌) (finish-InOrder new [] h (already own refl steered) tt)
          | inl e ↦
              let first : InOrder p api a gate (patch_pod a.pod new ∷ []) h =
                (inl (refl, steered, gates), tt) in
              elim (Result-cases (api.answer_patch_pod h a.pod new)) [
                | inr (x, f) ↦ rw (c, e, if◌then◌else◌, f) (patch_pod a.pod new ∷ [], refl, first)
                | inl (r, f) ↦
                    let (t, u) = keeps h a.pod new r f in
                    rw (c, e, if◌then◌else◌, f)
                      (finish-InOrder r (patch_pod a.pod new ∷ []) h
                        (accepted new refl steered f (IsSteered-by p a spec r.spec steered t u))
                        first)
              ]
        ]
      ]

module _ (p : Platform) (documented : IsDocumented p) (api : Api) (echo : IsEchoing api)
    (a : PodAction) (gate : String) where
  abbrev Ends : History → Option Error × History → Type 0
  Ends h r =
      (r.0 ≡ none)
      × (old : Pod) × (calls : History) × (r.1
          ≡ patch_pod old (without_gate old gate) ∷ (calls ++ h))
      × WasSteered p api a calls h old
      × (has_gate old gate ≡ true)
      × (has_gate (without_gate old gate) gate ≡ false)

  finish-Ends :
      (pod : Pod) (calls h : History)
      → has_gate pod gate ≡ true
      → WasSteered p api a calls h pod
      → Ends h (finish api pod gate (calls ++ h))
  unfolding remove_gate without_gate has_gate
  finish-Ends pod calls h g steered =
      rw (g, if◌then◌else◌, echo.echo_pod (calls ++ h) pod (without_gate pod gate))
        (
          refl,
          pod,
          calls,
          refl,
          steered,
          g,
          ground (arith, any-keep_lem gate gate pod.spec.scheduling_gates, str_eq_iff gate gate),
        )

  -- On a documented platform and against an API server that accepts its patches, `applyPodAction`
  -- on a gated pod reports no error, and its last call takes the gate from a pod that has it. That
  -- pod holds the action's constraints: it is the server's answer to the one call before, the patch
  -- that puts them into the action's pod, or it is the action's own pod, which has them already,
  -- and that patch is the only call.
  pub apply_pod_action-releases :
      (h : History)
      → has_gate a.pod gate ≡ true
      → ((apply_pod_action p api a gate h).0 ≡ none)
        × (old : Pod) × (calls : History) × ((apply_pod_action p api a gate h).1
            ≡ patch_pod old (without_gate old gate) ∷ (calls ++ h))
        × WasSteered p api a calls h old
        × (has_gate old gate ≡ true)
        × (has_gate (without_gate old gate) gate ≡ false)
  unfolding apply_pod_action has_gate
  apply_pod_action-releases h g =
      let (steered, gates) = constrain-IsSteered p a a.pod.spec documented in
      let (spec, changed) = constrain p a a.pod.spec in
      let new = record (a.pod) { spec = spec } in
      let gated : has_gate new gate ≡ true = ap (any (λ x. x == gate)) gates ∙ g in
      elim (Bool-cases (is_constrained a)) [
        | inr n ↦
            rw (n, if◌then◌else◌)
              (finish-Ends a.pod [] h g (already refl refl (unconstrained p a n)))
        | inl c ↦ elim (Bool-cases changed) [
          | inr same ↦
              let own : new ≡ a.pod =
                ap (λ s. record (a.pod) { spec = s }) (constrain_unchanged p a a.pod.spec same) in
              rw (c, same, if◌then◌else◌) (finish-Ends new [] h gated (already own refl steered))
          | inl e ↦
              rw (c, e, if◌then◌else◌, echo.echo_pod h a.pod new)
                (finish-Ends new (patch_pod a.pod new ∷ []) h gated
                  (accepted new refl steered (echo.echo_pod h a.pod new) steered))
        ]
      ]
