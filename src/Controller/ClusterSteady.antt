-- ===== src/Controller/ClusterSteady.antt =====
-- A group that is done, on a server whose pods do not change: the parts of `reconcileClusterScoped`
-- (internal/controller/podsequence_controller.go) there.
use mathlib.Core.List.{Memᴰ}
use podsequencing.Base.{
  ℕ, suc, ◌≤◌, ◌<◌, String, ◌≡◌, inl, inr, refl, arith, false, ◌||◌, List, [], ◌∷◌, ok, ◌==◌,
  nat_eq, ltb, length, count, All, Bool-cases, if◌then◌else◌,
}
use podsequencing.Kubernetes.{ℤ, Pod}
use podsequencing.Kubernetes.Platform.{Platform}
use podsequencing.Types.{PodGroup, PodSequence}
use podsequencing.Sequence.Fields.{target_namespace, gate_name, wait_duration}
use podsequencing.Sequence.Pods.{has_gate, is_pod_ready, ready_remaining}
use podsequencing.Controller.Api.{Api, History, update_status}
use podsequencing.Controller.Access.{get_pods_in_group, patch_status}
use podsequencing.Controller.ClusterScoped.{release_pods, longest_remaining}
use podsequencing.Controller.Traces.{Emits, Includes, Includes-after}

pub no_wait_left :
    (pods : List Pod) (wait : ℤ) (now : ℕ)
    → All (λ pod. ready_remaining pod wait now ≡ 0) pods
    → longest_remaining pods wait now 0 ≡ 0
unfolding longest_remaining
no_wait_left [] wait now waited = refl
no_wait_left (pod ∷ pods) wait now (here, waited) =
    rw (here, if◌then◌else◌) (no_wait_left pods wait now waited)

pub all_there :
    (names : List String) (n : ℕ)
    → 0 < n
    → length names ≤ n
    → (n == 0 || ltb n (elim names as (λ _. ℕ) [ [] ↦ n | _ ↦ length names ])) ≡ false
all_there [] n some_pods enough = ground arith
all_there (name ∷ names) n some_pods enough = ground (arith, enough)

-- The call that writes a status of the next index.
pub record IsMovedOn (idx : ℕ) (before after : History) : Type 0 where
  pub new : PodSequence
  pub next : new.status.current_index ≡ suc idx
  pub sent : Includes (update_status new) before after

pub IsMovedOn-after :
    {idx : ℕ} {h h' h'' : History}
    → Emits (λ c. Unit {0}) h h'
    → IsMovedOn idx h' h''
    → IsMovedOn idx h h''
IsMovedOn-after emitted moved = record {
  new = moved.new;
  next = moved.next;
  sent = Includes-after emitted moved.sent;
}

module _ (p : Platform) (api : Api) (seq : PodSequence) (listing : PodGroup → List Pod) where
  -- While the reconcile runs, each group is listed with the same pods, which have no gate left.
  pub record IsSteady : Type 0 where
    pub fetches :
        (g : PodGroup) (h : History)
        → Memᴰ g seq.spec.pod_groups
        → (get_pods_in_group p api g (target_namespace seq) h).0 ≡ ok (listing g)
    pub ungated :
        (g : PodGroup)
        → Memᴰ g seq.spec.pod_groups
        → All (λ pod. has_gate pod (gate_name seq) ≡ false) (listing g)

  -- The pods of the group are there, Ready, and have waited at every time from `h` on.
  pub record IsDone (group : PodGroup) : Type 0 where
    pub some_pods : 0 < length (listing group)
    pub all_pods : length group.pods ≤ length (listing group)
    pub ready : count is_pod_ready (listing group) ≡ length (listing group)
    pub wait : ℤ
    pub wait_read : wait_duration p group ≡ ok wait
    pub waited :
        (h : History) → All (λ pod. ready_remaining pod wait (api.time h) ≡ 0) (listing group)

module _ (api : Api) (seq : PodSequence) where
  pub release_pods_nothing :
      (pods : List Pod) (h : History)
      → All (λ pod. has_gate pod (gate_name seq) ≡ false) pods
      → release_pods api seq pods h ≡ (ok pods, h)
  unfolding release_pods
  release_pods_nothing [] h ungated = refl
  release_pods_nothing (pod ∷ pods) h (here, ungated) =
      rw (here, if◌then◌else◌, release_pods_nothing pods h ungated) refl

  -- Statuses of different indices differ.
  pub update_due :
      (orig : PodSequence) (h : History)
      → api.same_status orig.status seq.status ≡ false
      → Includes (update_status seq) h (patch_status api orig seq h).1
  unfolding patch_status
  update_due orig h differs = elim (Bool-cases (api.is_conflict (api.answer_update_status h seq))) [
    | inl e ↦
        rw (differs, e, if◌then◌else◌)
          (record { calls = update_status seq ∷ []; extends = refl; listed = Memᴰ.head refl })
    | inr e ↦
        rw (differs, e, if◌then◌else◌)
          (record { calls = update_status seq ∷ []; extends = refl; listed = Memᴰ.head refl })
  ]
