-- ===== src/Sequence/Eligibility.antt =====
-- The constraints of internal/sequence/sequence.go on unpinned pods, and the nodes that they match.
use podsequencing.Base.{
  ℕ, zero, suc, ◌+◌, ◌-◌, ◌≤◌, ◌<◌, String, ◌≡◌, ◌≢◌, ◌↔◌, true, false, none, some, arith,
  string_eq, str_eq_iff, any, lookup, itoa, itoa-injective,
}
use podsequencing.Kubernetes.{Labels, Taint, no_schedule}
use podsequencing.Kubernetes.Platform.{Platform, IsDocumented}
use podsequencing.Sequence.Steering.{
  eligibility_requirement, exists_toleration, equal_toleration, tolerations_from,
  eligibility_tolerations,
}

-- The taint of a node on which `satisfied` groups are satisfied.
abbrev pub eligibility_taint : String → ℕ → Taint
eligibility_taint key satisfied = record { key = key; value = itoa satisfied; effect = no_schedule }

no_schedule_given : no_schedule ≢ ""
no_schedule_given e = ground (arith, str_eq_iff no_schedule "")

module _ (p : Platform) (documented : IsDocumented p) (key : String) (key_given : key ≢ "") where
  -- NodeLabel mode, for a key that is not empty on a documented platform: the requirement of group
  -- `suc i` matches a node whose label is its count of satisfied groups exactly when that count is
  -- `suc i` or more.
  pub requirement_matches_iff :
      (i satisfied : ℕ) (labels : Labels)
      → lookup key labels ≡ some (itoa satisfied)
      → (p.requirement_matches (eligibility_requirement key (suc i)) labels ≡ true)
        ↔ (suc i ≤ satisfied)
  unfolding eligibility_requirement
  requirement_matches_iff i satisfied labels e =
      rw (documented.gt_present key i satisfied labels e) (ground arith)

  -- A node without the label takes no such pod.
  pub requirement_matches_unlabelled :
      (i : ℕ) (labels : Labels)
      → lookup key labels ≡ none
      → p.requirement_matches (eligibility_requirement key (suc i)) labels ≡ false
  unfolding eligibility_requirement
  requirement_matches_unlabelled i labels e = documented.gt_absent key i labels e

  tolerates_equal_itoa :
      (v satisfied : ℕ)
      → (p.tolerates_taint (equal_toleration key v) (eligibility_taint key satisfied) ≡ true)
        ↔ (v ≡ satisfied)
  unfolding equal_toleration
  tolerates_equal_itoa v satisfied =
      rw
        (documented.tolerates_equal key (itoa v) no_schedule (eligibility_taint key satisfied)
          key_given no_schedule_given)
        (
          λ h.
              itoa-injective v satisfied
                (ground (arith, str_eq_iff (itoa v) (itoa satisfied), str_eq_iff key key)),
          λ h.
              rw h
                (ground (arith, str_eq_iff (itoa satisfied) (itoa satisfied), str_eq_iff key key)),
        )

  tolerations_from_iff :
      (rounds v satisfied : ℕ)
      → (any
            (λ t. p.tolerates_taint t (eligibility_taint key satisfied))
            (tolerations_from key v rounds)
          ≡ true)
        ↔ ((v ≤ satisfied) × (satisfied < v + rounds))
  unfolding tolerations_from
  tolerations_from_iff zero v satisfied = (λ h. absurd (grind arith), λ h. absurd (omega arith))
  tolerations_from_iff (suc rounds) v satisfied =
      let ih = tolerations_from_iff rounds (suc v) satisfied in
      let here = tolerates_equal_itoa v satisfied in ground arith

  -- Taint mode, for a key that is not empty on a documented platform: of the tolerations of group
  -- `group` one tolerates the taint with a count of satisfied groups below the number of groups
  -- exactly when that count is `group` or more.
  pub eligibility_tolerations_iff :
      (group num_groups satisfied : ℕ)
      → satisfied < num_groups
      → (any
            (λ t. p.tolerates_taint t (eligibility_taint key satisfied))
            (eligibility_tolerations key group num_groups)
          ≡ true)
        ↔ (group ≤ satisfied)
  unfolding eligibility_tolerations exists_toleration
  eligibility_tolerations_iff zero num_groups satisfied h = (
    λ _. omega arith,
    λ _.
        rw
          (documented.tolerates_exists key no_schedule (eligibility_taint key satisfied) key_given
            no_schedule_given)
          (ground (arith, str_eq_iff key key)),
  )
  eligibility_tolerations_iff (suc i) num_groups satisfied h =
      let iff = tolerations_from_iff (num_groups - suc i) (suc i) satisfied in ground (arith, iff)
