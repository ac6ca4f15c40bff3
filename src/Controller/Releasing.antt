-- ===== src/Controller/Releasing.antt =====
-- The patch of the labels in `releaseNodeKeys` (internal/controller/podsequence_controller.go): what it
-- leaves.
use podsequencing.Base.{
  String, ◌≡◌, ◌≢◌, ◌⊎◌, inl, inr, refl, sym, ap, ◌∙◌, arith, Bool, true, false, not, Option, none,
  some, [], ◌∷◌, lookup, ◌==◌, string_eq, nat_eq, str_eq_iff, Bool-cases, Option-cases,
  if◌then◌else◌,
}
use podsequencing.Kubernetes.{Labels}
use podsequencing.Sequence.Keys.{released_label_value}
use podsequencing.Controller.NodeKeys.{release_labels}
use podsequencing.Controller.Echo.{patched}
use podsequencing.Controller.LabelChanges.{
  changed, patched_one, lookup-changed, lookup-changed-other, IsChange, round_cases,
}

-- What a label is afterwards: a stale one is gone, or released while it is in use.
abbrev pub label_left : (String → Bool) → (String → Bool) → Labels → String → Option String
label_left stale in_use labels k =
    if not (stale k)
    then lookup k labels
    else if in_use k
    then elim (lookup k labels) [ none ↦ none | some v ↦ some released_label_value ]
    else none

module _ (stale in_use : String → Bool) where
  -- The labels `base` once the patch for `labels` is applied.
  abbrev left : Labels → Labels → Labels
  left labels base = patched (release_labels stale in_use labels) base

  left-same :
      (j w : String) (labels base : Labels)
      → release_labels stale in_use ((j, w) ∷ labels) ≡ release_labels stale in_use labels
      → left ((j, w) ∷ labels) base ≡ left labels base
  left-same j w labels base e = ap (λ patch. patched patch base) e

  left-IsChange :
      (j w : String) (labels base : Labels) (c : IsChange stale in_use j w labels)
      → left ((j, w) ∷ labels) base ≡ left labels (changed j c.want base)
  left-IsChange j w labels base c =
      ap (λ patch. patched patch base) c.entry
      ∙ patched_one j c.want (release_labels stale in_use labels) base

  module _ (k : String) where
    left_kept :
        (labels base : Labels) → stale k ≡ false → lookup k (left labels base) ≡ lookup k base
    unfolding release_labels
    left_kept [] base fresh = refl
    left_kept ((j, w) ∷ labels) base fresh = elim (round_cases stale in_use j w labels) [
      | inl (e, why) ↦ ap (lookup k) (left-same j w labels base e) ∙ left_kept labels base fresh
      | inr c ↦
          ap (lookup k) (left-IsChange j w labels base c)
          ∙ left_kept labels (changed j c.want base) fresh
          ∙ lookup-changed-other j c.want k base (λ same. cc (c.is_stale, ap stale same, fresh))
    ]

    left_absent :
        (labels base : Labels)
        → lookup k labels ≡ none
        → lookup k (left labels base) ≡ lookup k base
    unfolding release_labels
    left_absent [] base missing = refl
    left_absent ((j, w) ∷ labels) base missing =
        let named = str_eq_iff j k in
        let other : j ≢ k = λ same. absurd (ground (arith, missing, same, named)) in
        let rest : lookup k labels ≡ none = ground (arith, missing, named) in
        elim (round_cases stale in_use j w labels) [
          | inl (e, why) ↦
              ap (lookup k) (left-same j w labels base e) ∙ left_absent labels base rest
          | inr c ↦
              ap (lookup k) (left-IsChange j w labels base c)
              ∙ left_absent labels (changed j c.want base) rest
              ∙ lookup-changed-other j c.want k base other
        ]

    left_gone :
        (labels base : Labels)
        → stale k ≡ true
        → in_use k ≡ false
        → (lookup k base ≡ none) ⊎ ((v : String) × (lookup k labels ≡ some v))
        → lookup k (left labels base) ≡ none
    unfolding release_labels
    left_gone [] base s u (inl e) = e
    left_gone [] base s u (inr (v, e)) = absurd (cc e)
    left_gone ((j, w) ∷ labels) base s u given = elim (Bool-cases (j == k)) [
      | inl eq ↦
          let same : j ≡ k = ground (arith, eq, str_eq_iff j k) in
          elim (round_cases stale in_use j w labels) [
            | inl (e, inl fresh) ↦ absurd (cc (s, ap stale same, fresh))
            | inl (e, inr (used, w_released)) ↦ absurd (cc (u, ap in_use same, used))
            | inr c ↦ elim c.wanted [
              | inr (used, want) ↦ absurd (cc (u, ap in_use same, used))
              | inl (unused, want) ↦
                  ap (lookup k) (left-IsChange j w labels base c)
                  ∙ left_gone labels (changed j c.want base) s u (
                      inl (
                        ap (λ x. lookup x (changed j c.want base)) (sym same)
                        ∙ lookup-changed j c.want base
                        ∙ want))
            ]
          ]
      | inr n ↦
          let other : j ≢ k = λ same. absurd (ground (arith, same, n, str_eq_iff j k)) in
          let rest : (lookup k base ≡ none) ⊎ ((v : String) × (lookup k labels ≡ some v)) =
            elim given [ inl e ↦ inl e | inr (v, e) ↦ inr (v, rw (n, if◌then◌else◌) at e) ] in
          elim (round_cases stale in_use j w labels) [
            | inl (e, why) ↦
                ap (lookup k) (left-same j w labels base e) ∙ left_gone labels base s u rest
            | inr c ↦
                ap (lookup k) (left-IsChange j w labels base c)
                ∙ left_gone labels (changed j c.want base) s u (elim rest [
                  | inl e ↦ inl (lookup-changed-other j c.want k base other ∙ e)
                  | inr f ↦ inr f
                ])
          ]
    ]

    left_released :
        (labels base : Labels)
        → stale k ≡ true
        → in_use k ≡ true
        → (lookup k base ≡ some released_label_value)
          ⊎ ((v : String) × (lookup k labels ≡ some v) × (lookup k base ≡ some v))
        → lookup k (left labels base) ≡ some released_label_value
    unfolding release_labels
    left_released [] base s u (inl e) = e
    left_released [] base s u (inr (v, e, f)) = absurd (cc e)
    left_released ((j, w) ∷ labels) base s u given = elim (Bool-cases (j == k)) [
      | inl eq ↦
          let same : j ≡ k = ground (arith, eq, str_eq_iff j k) in
          elim (round_cases stale in_use j w labels) [
            | inl (e, inl fresh) ↦ absurd (cc (s, ap stale same, fresh))
            | inl (e, inr (used, w_released)) ↦
                ap (lookup k) (left-same j w labels base e)
                ∙ left_released labels base s u (elim given [
                  | inl f ↦ inl f
                  | inr (v, f, g) ↦
                      let v_is : some w ≡ some v = rw (eq, if◌then◌else◌) at f in
                      inl (g ∙ sym v_is ∙ ap some w_released)
                ])
            | inr c ↦ elim c.wanted [
              | inl (unused, want) ↦ absurd (cc (u, ap in_use same, unused))
              | inr (used, want) ↦
                  ap (lookup k) (left-IsChange j w labels base c)
                  ∙ left_released labels (changed j c.want base) s u (
                      inl (
                        ap (λ x. lookup x (changed j c.want base)) (sym same)
                        ∙ lookup-changed j c.want base
                        ∙ want))
            ]
          ]
      | inr n ↦
          let other : j ≢ k = λ same. absurd (ground (arith, same, n, str_eq_iff j k)) in
          let rest : (lookup k base ≡ some released_label_value)
              ⊎ ((v : String) × (lookup k labels ≡ some v) × (lookup k base ≡ some v)) =
            elim given [ inl e ↦ inl e | inr (v, e, f) ↦ inr (v, rw (n, if◌then◌else◌) at e, f) ] in
          elim (round_cases stale in_use j w labels) [
            | inl (e, why) ↦
                ap (lookup k) (left-same j w labels base e) ∙ left_released labels base s u rest
            | inr c ↦
                let unchanged = lookup-changed-other j c.want k base other in
                ap (lookup k) (left-IsChange j w labels base c)
                ∙ left_released labels (changed j c.want base) s u (elim rest [
                  | inl e ↦ inl (unchanged ∙ e)
                  | inr (v, e, f) ↦ inr (v, e, unchanged ∙ f)
                ])
          ]
    ]

    pub left-label_left :
        (labels : Labels) → lookup k (left labels labels) ≡ label_left stale in_use labels k
    left-label_left labels = elim (Bool-cases (stale k)) [
      | inr e ↦ rw (e, if◌then◌else◌) (left_kept labels labels e)
      | inl e ↦ elim (Bool-cases (in_use k)) [
        | inr f ↦ elim (Option-cases (lookup k labels)) [
          | inl n ↦ rw (e, f, if◌then◌else◌) (left_gone labels labels e f (inl n))
          | inr (v, n) ↦ rw (e, f, if◌then◌else◌) (left_gone labels labels e f (inr (v, n)))
        ]
        | inl f ↦ elim (Option-cases (lookup k labels)) [
          | inl n ↦ rw (e, f, n, if◌then◌else◌) (left_absent labels labels n ∙ n)
          | inr (v, n) ↦
              rw (e, f, n, if◌then◌else◌) (left_released labels labels e f (inr (v, n, n)))
        ]
      ]
    ]
