-- ===== src/Controller/Labelling.antt =====
-- `syncNodeEligibility` (internal/controller/podsequence_controller.go) together with the
-- constraints of unpinned pods that it serves: affinity in NodeLabel mode, tolerations in Taint mode.
use podsequencing.Base.{
  ◌<◌, any, [], ◌∷◌, ℕ, suc, ◌≤◌, String, ◌≡◌, ◌≢◌, ◌↔◌, refl, sym, ap, ◌∙◌, Bool, true, false,
  none, some, ◌++◌, arith, ◌==◌, string_eq, str_eq_iff, if◌then◌else◌, itoa, decimal, decimal-itoa,
}
use podsequencing.Kubernetes.{Node, Taint}
use podsequencing.Kubernetes.Platform.{Platform, IsDocumented}
use podsequencing.Types.{method_taint}
use podsequencing.Sequence.Steering.{eligibility_requirement, eligibility_tolerations}
use podsequencing.Sequence.Eligibility.{
  requirement_matches_iff, eligibility_taint, eligibility_tolerations_iff,
}
use podsequencing.Plan.Data.{NodeState, NodePlan}
use podsequencing.Controller.Api.{Api, History}
use podsequencing.Controller.NodeKeys.{wanted_label, wanted_taint, sync_node_eligibility}
use podsequencing.Controller.Taints.{own}
use podsequencing.Controller.Echo.{IsEchoing, replay}
use podsequencing.Controller.NodeSync.{set_node_key-IsSynced}

itoa-given : (n : ℕ) → itoa n ≢ ""
unfolding itoa
itoa-given n e =
    let zero_only : n ≡ 0 = sym (decimal-itoa n) ∙ ap (λ s. decimal s 0) e in
    let zero_text : ◌≡◌ {A = String} "0" "" = ap itoa (sym zero_only) ∙ e in
    absurd (ground (arith, zero_text, str_eq_iff "0" ""))

module _ (plan : NodePlan) (st : NodeState) (labels_mode : plan.method ≢ method_taint) where
  wanted_taint-none : wanted_taint plan st ≡ none
  unfolding wanted_taint
  wanted_taint-none = ground (arith, str_eq_iff plan.method method_taint)

  wanted_label-participating :
      (node : Node) (label_in_use : Bool)
      → st.participating ≡ true
      → wanted_label node plan st label_in_use ≡ itoa st.satisfied
  unfolding wanted_label
  wanted_label-participating node label_in_use e =
      ground (arith, str_eq_iff plan.method method_taint)

module _ (p : Platform) (documented : IsDocumented p) (api : Api) (echo : IsEchoing api) where
  -- NodeLabel mode, on a documented platform, against an API server that accepts its patches and
  -- for a plan whose key is not empty: `syncNodeEligibility` on a participating node reports no
  -- error, and after its calls the node matches the affinity of an unpinned pod of group `suc i`
  -- exactly when `suc i` groups or more are satisfied there.
  pub sync_node_eligibility-matches :
      (node : Node) (plan : NodePlan) (st : NodeState) (label_in_use : Bool) (h : History) (i : ℕ)
      → plan.method ≢ method_taint
      → plan.key ≢ ""
      → st.participating ≡ true
      → (calls : History) × ((sync_node_eligibility api (some node) plan st label_in_use h).0
          ≡ none)
        × ((sync_node_eligibility api (some node) plan st label_in_use h).1 ≡ calls ++ h)
        × ((p.requirement_matches
                (eligibility_requirement plan.key (suc i))
                (replay calls node).labels
              ≡ true)
            ↔ (suc i ≤ st.satisfied))
  unfolding sync_node_eligibility
  sync_node_eligibility-matches node plan st label_in_use h i mode key participating =
      let (calls, fine, log, synced) =
        set_node_key-IsSynced api echo plan.key none tt node (itoa st.satisfied) h in
      let given : (itoa st.satisfied == "") ≡ false =
        ground (arith, str_eq_iff (itoa st.satisfied) "", itoa-given st.satisfied) in
      rw
        (
          wanted_taint-none plan st mode,
          wanted_label-participating plan st mode node label_in_use participating,
        )
        (
          calls,
          fine,
          log,
          requirement_matches_iff p documented plan.key key i st.satisfied
              (replay calls node).labels (synced.label ∙ rw (given, if◌then◌else◌) refl),
        )

wanted_taint-behind :
    (plan : NodePlan) (st : NodeState)
    → plan.method ≡ method_taint
    → st.participating ≡ true
    → st.satisfied < plan.num_groups
    → wanted_taint plan st ≡ some (eligibility_taint plan.key st.satisfied)
unfolding wanted_taint
wanted_taint-behind plan st mode participating behind =
    ground (arith, str_eq_iff plan.method method_taint)

module _ (p : Platform) (documented : IsDocumented p) (api : Api) (echo : IsEchoing api) where
  -- Taint mode, on a documented platform, against an API server that accepts its patches and for a
  -- plan whose key is not empty: `syncNodeEligibility` on a participating node with groups left
  -- reports no error, and after its calls the node has one taint of the key, which the tolerations
  -- of an unpinned pod of group `group` tolerate exactly when `group` groups or more are satisfied
  -- there.
  pub sync_node_eligibility-tolerated :
      (node : Node) (plan : NodePlan) (st : NodeState) (label_in_use : Bool) (h : History)
      (group : ℕ)
      → plan.method ≡ method_taint
      → plan.key ≢ ""
      → st.participating ≡ true
      → st.satisfied < plan.num_groups
      → (calls : History) × ((sync_node_eligibility api (some node) plan st label_in_use h).0
          ≡ none)
        × ((sync_node_eligibility api (some node) plan st label_in_use h).1 ≡ calls ++ h)
        × (t : Taint) × (own plan.key (replay calls node).taints ≡ t ∷ [])
        × ((any
                (λ s. p.tolerates_taint s t)
                (eligibility_tolerations plan.key group plan.num_groups)
              ≡ true)
            ↔ (group ≤ st.satisfied))
  unfolding sync_node_eligibility
  sync_node_eligibility-tolerated node plan st label_in_use h group mode key participating behind =
      let want = eligibility_taint plan.key st.satisfied in
      let (calls, fine, log, synced) =
        set_node_key-IsSynced api echo plan.key (some want) refl node
          (wanted_label node plan st label_in_use) h in
      rw (wanted_taint-behind plan st mode participating behind) (
        calls,
        fine,
        log,
        want,
        synced.taint,
        eligibility_tolerations_iff p documented plan.key key group plan.num_groups st.satisfied
            behind,
      )
