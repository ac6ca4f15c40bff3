-- ===== src/Controller/ClusterHistory.antt =====
-- Runs of `reconcileClusterScoped` (internal/controller/podsequence_controller.go) one after another:
-- the states that a stored sequence passes through.
use podsequencing.Base.{
  ℕ, suc, sym, ◌∙◌, ◌≤◌, ◌<◌, String, ◌≡◌, ◌⊎◌, inl, inr, refl, subst, arith, length,
  get_elem?-beyond,
}
use podsequencing.Kubernetes.Platform.{Platform}
use podsequencing.Types.{PodSequence}
use podsequencing.Sequence.Fields.{target_namespace, gate_name}
use podsequencing.Controller.Api.{Api, History, update_status}
use podsequencing.Controller.ClusterScoped.{with_phase, reconcile_cluster_scoped}
use podsequencing.Controller.Traces.{Emits-Includes, Includes}
use podsequencing.Controller.ClusterRules.{HasAdvanced}
use podsequencing.Controller.ClusterSafety.{reconcile_cluster_scoped-IsAllowed}

-- One reconcile of the stored sequence, of any phase, against any API server. The server stores a
-- status that the reconcile writes, and nothing else of the sequence.
pub data IsStep (p : Platform) (seq : PodSequence) : PodSequence → Type 0 where
  stores :
      (api : Api) (orig new : PodSequence) (phase : String) (h : History)
      → Includes
          (update_status new)
          h
          (reconcile_cluster_scoped p api orig (with_phase seq phase) h).1
      → IsStep p seq (record seq { status = new.status })

pub data IsReached (p : Platform) (start : PodSequence) : PodSequence → Type 0 where
  at_start : IsReached p start start
  then_step :
      (seq next : PodSequence) → IsReached p start seq → IsStep p seq next → IsReached p start next

-- The status that the step stores moves on from the current group, as `HasAdvanced` tells of the
-- answers and the clock of the server of that step.
abbrev pub MovesOn : (p : Platform) (seq next : PodSequence) → IsStep p seq next → Type 0
MovesOn p seq _ (stores api orig new phase h included) =
    HasAdvanced p api seq.spec.pod_groups seq.status.current_index (target_namespace seq)
      (gate_name seq) new

-- One of the steps was taken at index `i` and moves on.
abbrev pub WasCompleted :
    (p : Platform) (start : PodSequence) (i : ℕ) (seq : PodSequence)
    → IsReached p start seq
    → Type 0
WasCompleted p start i _ at_start = ⊥
WasCompleted p start i _ (then_step seq next reached step) =
    WasCompleted p start i seq reached ⊎ ((seq.status.current_index ≡ i) × MovesOn p seq next step)

module _ (p : Platform) where
  lt-or-equal : (i n : ℕ) → i < suc n → (i < n) ⊎ (i ≡ n)
  lt-or-equal i n lt = omega arith

  -- What one step does to the index.
  IsStep-index :
      (seq next : PodSequence) (step : IsStep p seq next)
      → (next.spec.pod_groups ≡ seq.spec.pod_groups)
        × ((next.status.current_index ≡ seq.status.current_index)
            ⊎ ((next.status.current_index ≡ suc seq.status.current_index)
                × (seq.status.current_index < length seq.spec.pod_groups)
                × MovesOn p seq next step))
  unfolding target_namespace gate_name
  IsStep-index seq next (stores api orig new phase h included) =
      let allowed =
        Emits-Includes (reconcile_cluster_scoped-IsAllowed p api orig (with_phase seq phase) h)
          included in
      elim allowed [
        | inl same ↦ (refl, inl same)
        | inr advanced ↦ (
          refl,
          inr (
            advanced.next,
            omega
                (arith, get_elem?-beyond seq.spec.pod_groups seq.status.current_index advanced.at),
            advanced,
          ),
        )
      ]

  -- In every state that reconciles of a stored cluster-scoped sequence reach from an index that is
  -- at most the number of groups, the groups are those of the start, and the current index is at
  -- least that of the start and at most the number of groups.
  pub IsReached-bounds :
      (start seq : PodSequence)
      → IsReached p start seq
      → start.status.current_index ≤ length start.spec.pod_groups
      → (seq.spec.pod_groups ≡ start.spec.pod_groups)
        × (start.status.current_index ≤ seq.status.current_index)
        × (seq.status.current_index ≤ length start.spec.pod_groups)
  IsReached-bounds start _ at_start within = (refl, omega arith, within)
  IsReached-bounds start seq (then_step before _ reached step) within =
      let (groups, low, high) = IsReached-bounds start before reached within in
      let (groups', moved) = IsStep-index before seq step in
      elim moved [
        | inl same ↦ (groups' ∙ groups, omega (arith, same, low), omega (arith, same, high))
        | inr (moved_on, lt, advanced) ↦ (
          groups' ∙ groups,
          omega (arith, moved_on, low),
          omega (arith, moved_on, subst (λ gs. before.status.current_index < length gs) groups lt),
        )
      ]

  -- The groups of a cluster-scoped sequence complete in order. Along every sequence of reconciles
  -- from a stored sequence of index 0, each against a server of its own that answers anything, for
  -- each group before the current index one of these reconciles started at that index and stored a
  -- status that moves on from it, as `HasAdvanced` tells of that server: it names the pods that the
  -- server listed for the group, as `removeGate` left them, which are there, all Ready, and have
  -- waited by that server's clock.
  pub IsReached-WasCompleted :
      (start seq : PodSequence) (reached : IsReached p start seq)
      → start.status.current_index ≡ 0
      → (i : ℕ) → i < seq.status.current_index
      → WasCompleted p start i seq reached
  IsReached-WasCompleted start _ at_start zero_index i lt = absurd (omega (arith, zero_index, lt))
  IsReached-WasCompleted start seq (then_step before _ reached step) zero_index i lt =
      let (groups', moved) = IsStep-index before seq step in
      elim moved [
        | inl same ↦
            inl (IsReached-WasCompleted start before reached zero_index i (omega (arith, same, lt)))
        | inr (moved_on, within, moves_on) ↦
            elim (lt-or-equal i before.status.current_index (omega (arith, moved_on, lt))) [
              | inl earlier ↦ inl (IsReached-WasCompleted start before reached zero_index i earlier)
              | inr same ↦ inr (sym same, moves_on)
            ]
      ]
