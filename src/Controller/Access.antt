-- ===== src/Controller/Access.antt =====
-- internal/controller/podsequence_controller.go: `patchStatus`, `getPodsInGroup` and `now`.
use podsequencing.Base.{
  ℕ, String, ◌<>◌, Bool, true, false, Option, none, some, List, [], ◌∷◌, Result, ok, err, Error,
  wrap, wrapping, other, if◌then◌else◌,
}
use podsequencing.Kubernetes.{Pod}
use podsequencing.Kubernetes.Platform.{Platform, Selector}
use podsequencing.Types.{PodGroup, PodSequence}
use podsequencing.Controller.Api.{
  Api, Action, pure, ask, ◌>>=◌, read, pod_by_name, pod_list, update_status,
}

-- `ctrl.Result`; durations are nanoseconds.
pub record Requeue : Type 0 where
  pub requeue : Bool
  pub after : ℕ

abbrev pub no_requeue : Requeue
no_requeue = record { requeue = false; after = 0 }

abbrev pub requeue_after : ℕ → Requeue
requeue_after d = record { requeue = false; after = d }

-- `(ctrl.Result, error)`
abbrev pub Outcome : Type 0
Outcome = Requeue × Option Error

abbrev pub is_none : {A : Type 0} → Option A → Bool
is_none none = true
is_none (some a) = false

-- `append` in a loop that returns the list or the first error, from the end.
abbrev pub prepend : Pod → Result (List Pod) → Result (List Pod)
prepend pod (err x) = err x
prepend pod (ok pods) = ok (pod ∷ pods)

module _ (api : Api) where
  abbrev pub clock : Action ℕ
  clock h = (api.time h, h)

  unfoldable pub patch_status : PodSequence → PodSequence → Action (Option Error)
  patch_status orig seq = if api.same_status orig.status seq.status then pure none else (do
    e ← ask (update_status seq) (λ h. api.answer_update_status h seq)
    if api.is_conflict e then pure none else pure (api.ignore_not_found e))

  -- `return result, r.patchStatus(ctx, orig, seq)`
  abbrev pub patch_and_return : PodSequence → PodSequence → Requeue → Action Outcome
  patch_and_return orig seq result = do e ← patch_status orig seq; pure (result, e)

  -- The loop over the names.
  unfoldable pub get_named_pods : String → List String → Action (Result (List Pod))
  get_named_pods namespace [] = pure (ok [])
  get_named_pods namespace (name ∷ names) = do
    r ← ask (read pod_by_name) (λ h. api.answer_pod h namespace name)
    elim r [
      | err e ↦
          if is_none (api.ignore_not_found (some e))
          then get_named_pods namespace names
          else pure (err (wrap ("failed to get pod " <> name) e))
      | ok pod ↦ do rest ← get_named_pods namespace names; pure (prepend pod rest)
    ]

module _ (p : Platform) (api : Api) where
  unfoldable pub get_selected_pods : String → Result Selector → Action (Result (List Pod))
  get_selected_pods namespace (err e) = pure (err (wrap "invalid label selector" e))
  get_selected_pods namespace (ok selector) = do
    r ← ask (read pod_list) (λ h. api.answer_pods h (some namespace) selector)
    pure (wrapping "failed to list pods" r)

  unfoldable pub get_pods_in_group : PodGroup → String → Action (Result (List Pod))
  get_pods_in_group group namespace = elim group.pods [
    | name ∷ names ↦ get_named_pods api namespace (name ∷ names)
    | [] ↦ elim group.pod_selector [
      | some s ↦ get_selected_pods namespace (p.as_selector s)
      | none ↦
          pure
            (err (record { kind = other; text = "group must specify either pods or podSelector" }))
    ]
  ]
