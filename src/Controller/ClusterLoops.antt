-- ===== src/Controller/ClusterLoops.antt =====
-- The loops of `reconcileClusterScoped` (internal/controller/podsequence_controller.go) that remove
-- gates call what may be called for each pod.
use podsequencing.Base.{
  String, ◌≡◌, inl, inr, true, List, [], ◌∷◌, nat_eq, All, Bool-cases, Option-cases, if◌then◌else◌,
}
use podsequencing.Kubernetes.{Pod}
use podsequencing.Types.{PodSequence}
use podsequencing.Sequence.Fields.{gate_name}
use podsequencing.Sequence.Pods.{has_gate}
use podsequencing.Controller.Api.{Api, History, Call, ◌>>=◌, patch_pod, count_ungated}
use podsequencing.Controller.Gates.{without_gate, remove_gate}
use podsequencing.Controller.ClusterScoped.{release_pods, release_all}
use podsequencing.Controller.Traces.{Emits, Emits-nothing, Emits-one, Emits-then, remove_gate-Emits}

-- `P` allows a pod's gate to be removed.
abbrev pub MayRelease : (Call → Type 0) → String → Pod → Type 0
MayRelease P gate pod = has_gate pod gate ≡ true → P (patch_pod pod (without_gate pod gate))

module _ (api : Api) (seq : PodSequence) {P : Call → Type 0}
    (counts : (reason : String) → P (count_ungated seq.namespace seq.name reason)) where
  pub release_pods-Emits :
      (pods : List Pod) (h : History)
      → All (MayRelease P (gate_name seq)) pods
      → Emits P h (release_pods api seq pods h).1
  unfolding release_pods
  release_pods-Emits [] h may = Emits-nothing h
  release_pods-Emits (pod ∷ pods) h (first, rest) =
      elim (Bool-cases (has_gate pod (gate_name seq))) [
        | inr e ↦ rw (e, if◌then◌else◌) (release_pods-Emits pods h rest)
        | inl e ↦
            let r = remove_gate api pod (gate_name seq) h in
            let gone = remove_gate-Emits api pod (gate_name seq) h first in
            elim (Option-cases r.0.0) [
              | inr (x, f) ↦ rw (e, if◌then◌else◌, f, ◌>>=◌) gone
              | inl n ↦
                  rw (e, if◌then◌else◌, n, ◌>>=◌)
                    (Emits-then gone
                      (Emits-then (Emits-one _ r.1 (counts _)) (release_pods-Emits pods _ rest)))
            ]
      ]

  pub release_all-Emits :
      (pods : List Pod) (h : History)
      → All (MayRelease P (gate_name seq)) pods
      → Emits P h (release_all api seq pods h).1
  unfolding release_all
  release_all-Emits [] h may = Emits-nothing h
  release_all-Emits (pod ∷ pods) h (first, rest) =
      elim (Bool-cases (has_gate pod (gate_name seq))) [
        | inr e ↦ rw (e, if◌then◌else◌) (release_all-Emits pods h rest)
        | inl e ↦
            let r = remove_gate api pod (gate_name seq) h in
            let gone = remove_gate-Emits api pod (gate_name seq) h first in
            elim (Option-cases r.0.0) [
              | inr (x, f) ↦
                  rw (e, if◌then◌else◌, f, ◌>>=◌) (Emits-then gone (release_all-Emits pods _ rest))
              | inl n ↦
                  rw (e, if◌then◌else◌, n, ◌>>=◌)
                    (Emits-then gone
                      (Emits-then (Emits-one _ r.1 (counts _)) (release_all-Emits pods _ rest)))
            ]
      ]
