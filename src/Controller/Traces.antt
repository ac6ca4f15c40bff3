-- ===== src/Controller/Traces.antt =====
-- What a handler adds to the calls made so far. Such a trace is composed along the handler's steps.
use mathlib.Core.List.{Memᴰ}
use podsequencing.Base.{
  String, ◌≡◌, refl, ap, ◌∙◌, sym, true, inl, inr, Option, none, some, List, [], ◌∷◌, ◌++◌,
  append_assoc, Result-cases, Bool-cases, if◌then◌else◌, All, All-append, All-mem, append_cancel,
  subst, All-weaken, mem_append_left, mem_append_right, Result, ok, err,
}
use podsequencing.Kubernetes.{Pod, LabelSelector}
use podsequencing.Types.{PodGroup, PodSequence}
use podsequencing.Kubernetes.Platform.{Platform, Selector}
use podsequencing.Sequence.Pods.{has_gate}
use podsequencing.Controller.Api.{
  Api, History, Call, patch_pod, update_status, read, pod_by_name, pod_list,
}
use podsequencing.Controller.Gates.{without_gate, remove_gate}
use podsequencing.Controller.Access.{
  is_none, patch_status, get_named_pods, get_selected_pods, get_pods_in_group,
}

-- The calls of `after` that are not in `before` all satisfy `P`.
pub record Emits (P : Call → Type 0) (before after : History) : Type 0 where
  pub calls : History
  pub extends : after ≡ calls ++ before
  pub each : All P calls

module _ {P : Call → Type 0} where
  pub Emits-nothing : (h : History) → Emits P h h
  Emits-nothing h = record { calls = []; extends = refl; each = tt }

  pub Emits-one : (c : Call) (h : History) → P c → Emits P h (c ∷ h)
  Emits-one c h given = record { calls = c ∷ []; extends = refl; each = (given, tt) }

  pub Emits-then : {h h' h'' : History} → Emits P h h' → Emits P h' h'' → Emits P h h''
  Emits-then {h} first second = record {
    calls = second.calls ++ first.calls;
    extends =
        second.extends
        ∙ ap (λ l. second.calls ++ l) first.extends
        ∙ sym (append_assoc second.calls first.calls h);
    each = All-append P second.calls first.calls second.each first.each;
  }

pub Emits-weaken :
    {P Q : Call → Type 0} {h h' : History} → ((c : Call) → P c → Q c) → Emits P h h' → Emits Q h h'
Emits-weaken f e = record {
  calls = e.calls;
  extends = e.extends;
  each = All-weaken e.calls f e.each;
}

module _ (api : Api) {P : Call → Type 0} where
  pub remove_gate-Emits :
      (pod : Pod) (gate : String) (h : History)
      → (has_gate pod gate ≡ true → P (patch_pod pod (without_gate pod gate)))
      → Emits P h (remove_gate api pod gate h).1
  unfolding remove_gate
  remove_gate-Emits pod gate h given = elim (Bool-cases (has_gate pod gate)) [
    | inr e ↦ rw (e, if◌then◌else◌) (Emits-nothing h)
    | inl e ↦ elim (Result-cases (api.answer_patch_pod h pod (without_gate pod gate))) [
      | inl (r, f) ↦ rw (e, if◌then◌else◌, f) (Emits-one _ h (given e))
      | inr (x, f) ↦ rw (e, if◌then◌else◌, f) (Emits-one _ h (given e))
    ]
  ]

  pub patch_status-Emits :
      (orig seq : PodSequence) (h : History)
      → P (update_status seq)
      → Emits P h (patch_status api orig seq h).1
  unfolding patch_status
  patch_status-Emits orig seq h given = elim (Bool-cases (api.same_status orig.status seq.status)) [
    | inl e ↦ rw (e, if◌then◌else◌) (Emits-nothing h)
    | inr e ↦ elim (Bool-cases (api.is_conflict (api.answer_update_status h seq))) [
      | inl f ↦ rw (e, if◌then◌else◌, f) (Emits-one _ h given)
      | inr f ↦ rw (e, if◌then◌else◌, f) (Emits-one _ h given)
    ]
  ]

-- Reading pods is allowed by `P`.
abbrev pub AllowsReads : (Call → Type 0) → Type 0
AllowsReads P = P (read pod_by_name) × P (read pod_list)

module _ (p : Platform) (api : Api) {P : Call → Type 0} (reads : AllowsReads P) where
  get_named_pods-Emits :
      (namespace : String) (names : List String) (h : History)
      → Emits P h (get_named_pods api namespace names h).1
  unfolding get_named_pods
  get_named_pods-Emits namespace [] h = Emits-nothing h
  get_named_pods-Emits namespace (name ∷ names) h =
      elim (Result-cases (api.answer_pod h namespace name)) [
        | inl (pod, f) ↦
            rw f (Emits-then (Emits-one _ h reads.0) (get_named_pods-Emits namespace names _))
        | inr (x, f) ↦ elim (Bool-cases (is_none (api.ignore_not_found (some x)))) [
          | inl e ↦
              rw (f, e, if◌then◌else◌)
                (Emits-then (Emits-one _ h reads.0) (get_named_pods-Emits namespace names _))
          | inr e ↦ rw (f, e, if◌then◌else◌) (Emits-one _ h reads.0)
        ]
      ]

  get_selected_pods-Emits :
      (namespace : String) (r : Result Selector) (h : History)
      → Emits P h (get_selected_pods p api namespace r h).1
  unfolding get_selected_pods
  get_selected_pods-Emits namespace (err x) h = Emits-nothing h
  get_selected_pods-Emits namespace (ok selector) h = Emits-one _ h reads.1

  pub get_pods_in_group-Emits :
      (group : PodGroup) (namespace : String) (h : History)
      → Emits P h (get_pods_in_group p api group namespace h).1
  unfolding get_pods_in_group
  get_pods_in_group-Emits group namespace h = fetch group.pods group.pod_selector
    where
      fetch :
          (names : List String) (selector : Option LabelSelector)
          → Emits P h
              (get_pods_in_group p api
                (record group { pods = names; pod_selector = selector })
                namespace
                h).1
      fetch (name ∷ names) selector = get_named_pods-Emits namespace (name ∷ names) h
      fetch [] none = Emits-nothing h
      fetch [] (some s) = get_selected_pods-Emits namespace (p.as_selector s) h

-- The call is among those that are in `after` and not in `before`.
pub record Includes (c : Call) (before after : History) : Type 0 where
  pub calls : History
  pub extends : after ≡ calls ++ before
  pub listed : Memᴰ c calls

module _ {P : Call → Type 0} {c : Call} where
  pub Emits-Includes : {h h' : History} → Emits P h h' → Includes c h h' → P c
  Emits-Includes {h} emitted included =
      let same =
        append_cancel included.calls emitted.calls h (sym included.extends ∙ emitted.extends) in
      All-mem P emitted.calls emitted.each (subst (Memᴰ c) same included.listed)

  pub Includes-then : {h h' h'' : History} → Includes c h h' → Emits P h' h'' → Includes c h h''
  Includes-then {h} first second = record {
    calls = second.calls ++ first.calls;
    extends =
        second.extends
        ∙ ap (λ l. second.calls ++ l) first.extends
        ∙ sym (append_assoc second.calls first.calls h);
    listed = mem_append_right second.calls first.calls first.listed;
  }

  pub Includes-after : {h h' h'' : History} → Emits P h h' → Includes c h' h'' → Includes c h h''
  Includes-after {h} first second = record {
    calls = second.calls ++ first.calls;
    extends =
        second.extends
        ∙ ap (λ l. second.calls ++ l) first.extends
        ∙ sym (append_assoc second.calls first.calls h);
    listed = mem_append_left second.calls first.calls second.listed;
  }

module _ (api : Api) where
  pub remove_gate-Includes :
      (pod : Pod) (gate : String) (h : History)
      → has_gate pod gate ≡ true
      → Includes (patch_pod pod (without_gate pod gate)) h (remove_gate api pod gate h).1
  unfolding remove_gate
  remove_gate-Includes pod gate h e =
      let c = patch_pod pod (without_gate pod gate) in
      elim (Result-cases (api.answer_patch_pod h pod (without_gate pod gate))) [
        | inl (r, f) ↦
            rw (e, if◌then◌else◌, f)
              (record { calls = c ∷ []; extends = refl; listed = Memᴰ.head refl })
        | inr (x, f) ↦
            rw (e, if◌then◌else◌, f)
              (record { calls = c ∷ []; extends = refl; listed = Memᴰ.head refl })
      ]
