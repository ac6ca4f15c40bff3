-- ===== src/Controller/Steered.antt =====
-- The constraints that `applyPodAction` (internal/controller/podsequence_controller.go) puts into a
-- pod's spec.
use podsequencing.Base.{
  or_false, ◌||◌, ◌≡◌, ◌≢◌, inl, inr, refl, sym, ap, ◌∙◌, subst, Bool, true, false, Option, none,
  some, List, [], ◌∷◌, ◌++◌, arith, string_eq, Bool-cases, Option-cases, if◌then◌else◌, any, All,
}
use podsequencing.Kubernetes.{
  Affinity, NodeAffinity, PodSpec, NodeSelectorTerm, NodeSelectorRequirement, Toleration,
}
use podsequencing.Kubernetes.Platform.{Platform, IsDocumented}
use podsequencing.Sequence.Pods.{required_terms}
use podsequencing.Sequence.Steering.{
  add_missing, add_tolerations, has_requirement, require_in_terms, with_required,
  add_required_node_affinity,
}
use podsequencing.Sequence.Additions.{
  RequiresIn, add_required_node_affinity_holds, add_tolerations_holds,
}
use podsequencing.Plan.Data.{PodAction}
use podsequencing.Controller.Gates.{constrain, is_constrained}

-- What a spec holds once an action's constraints are in it.
pub record IsSteered (p : Platform) (a : PodAction) (spec : PodSpec) : Type 0 where
  pub tolerated :
      All (λ t. any (λ e. p.match_toleration e t) spec.tolerations ≡ true) a.add_tolerations
  pub required :
      (req : NodeSelectorRequirement)
      → a.add_affinity ≡ some req
      → (terms : List NodeSelectorTerm) × (required_terms spec ≡ some terms)
        × (terms ≢ [])
        × RequiresIn req terms

affinity_only :
    (req : NodeSelectorRequirement) (spec : PodSpec)
    → ((add_required_node_affinity spec req).0.tolerations ≡ spec.tolerations)
      × ((add_required_node_affinity spec req).0.scheduling_gates ≡ spec.scheduling_gates)
unfolding add_required_node_affinity
affinity_only req spec = ground arith

pub IsSteered-by :
    (p : Platform) (a : PodAction) (spec spec' : PodSpec)
    → IsSteered p a spec
    → spec'.tolerations ≡ spec.tolerations
    → spec'.affinity ≡ spec.affinity
    → IsSteered p a spec'
unfolding required_terms
IsSteered-by p a spec spec' s t f = record {
  tolerated = rw t s.tolerated;
  required = rw f s.required;
}

pub constrain-IsSteered :
    (p : Platform) (a : PodAction) (spec : PodSpec)
    → IsDocumented p
    → IsSteered p a (constrain p a spec).0
      × ((constrain p a spec).0.scheduling_gates ≡ spec.scheduling_gates)
unfolding constrain
constrain-IsSteered p a spec documented =
    let (more, e, listed, here, again) =
      add_tolerations_holds p documented spec a.add_tolerations in
    let spec' = (add_tolerations p spec a.add_tolerations).0 in
    let tolerated : All (λ t. any (λ e. p.match_toleration e t) spec'.tolerations ≡ true)
        a.add_tolerations =
      rw (ap (λ s. s.tolerations) e) here in
    elim (Option-cases a.add_affinity) [
      | inl n ↦ rw n (
        record { tolerated = tolerated; required = λ req f. absurd (grind (arith, n)) },
        rw e refl,
      )
      | inr (req, f) ↦
          let (terms, there, some_terms, all_require, stays) =
            add_required_node_affinity_holds req spec' in
          let (tolerations, gates) = affinity_only req spec' in
          rw f (
            record {
              tolerated = rw tolerations tolerated;
              required = λ r g.
                  let same : req ≡ r = grind (arith, g) in
                  (terms, there, some_terms, subst (λ q. RequiresIn q terms) same all_require);
            },
            gates ∙ ap (λ s. s.scheduling_gates) e,
          )
    ]

no_tolerations :
    (tols : List Toleration)
    → (elim tols as (λ _. Bool) [ [] ↦ false | _ ↦ true ]) ≡ false
    → tols ≡ []
no_tolerations [] e = refl
no_tolerations (t ∷ tols) e = absurd (ground arith)

pub unconstrained :
    (p : Platform) (a : PodAction) → is_constrained a ≡ false → IsSteered p a a.pod.spec
unconstrained p a e = elim (Option-cases a.add_affinity) [
  | inr (req, f) ↦ absurd (ground (arith, rw f at e))
  | inl n ↦
      let empty : a.add_tolerations ≡ [] = no_tolerations a.add_tolerations (rw n at e) in
      record { tolerated = rw empty tt; required = λ req f. absurd (grind (arith, n, f)) }
]

-- Where nothing was added, the spec is the one given.
add_missing_changed :
    (p : Platform) (tols : List Toleration) (spec : PodSpec)
    → (add_missing p tols spec true).1 ≡ true
unfolding add_missing
add_missing_changed p [] spec = refl
add_missing_changed p (t ∷ tols) spec =
    elim (Bool-cases (any (λ e. p.match_toleration e t) spec.tolerations)) [
      | inl e ↦ rw (e, if◌then◌else◌, add_missing) (add_missing_changed p tols spec)
      | inr e ↦ rw (e, if◌then◌else◌, add_missing) (add_missing_changed p tols _)
    ]

add_missing_unchanged :
    (p : Platform) (tols : List Toleration) (spec : PodSpec)
    → (add_missing p tols spec false).1 ≡ false
    → (add_missing p tols spec false).0 ≡ spec
unfolding add_missing
add_missing_unchanged p [] spec same = refl
add_missing_unchanged p (t ∷ tols) spec same =
    elim (Bool-cases (any (λ e. p.match_toleration e t) spec.tolerations)) [
      | inl e ↦
          rw (e, if◌then◌else◌, add_missing)
            (add_missing_unchanged p tols spec (rw (e, if◌then◌else◌, add_missing) at same))
      | inr e ↦
          let more = record spec { tolerations = spec.tolerations ++ (t ∷ []) } in
          let false_here : (add_missing p tols more true).1 ≡ false =
            rw (e, if◌then◌else◌, add_missing) at same in
          absurd (cc (add_missing_changed p tols more, false_here))
    ]

require_in_terms_changed :
    (terms : List NodeSelectorTerm) (req : NodeSelectorRequirement)
    → (require_in_terms terms req true).1 ≡ true
unfolding require_in_terms
require_in_terms_changed [] req = refl
require_in_terms_changed (term ∷ terms) req =
    elim (Bool-cases (has_requirement term.match_expressions req)) [
      | inl e ↦ rw (e, if◌then◌else◌) (require_in_terms_changed terms req)
      | inr e ↦ rw (e, if◌then◌else◌) (require_in_terms_changed terms req)
    ]

require_in_terms_unchanged :
    (terms : List NodeSelectorTerm) (req : NodeSelectorRequirement)
    → (require_in_terms terms req false).1 ≡ false
    → (require_in_terms terms req false).0 ≡ terms
unfolding require_in_terms
require_in_terms_unchanged [] req same = refl
require_in_terms_unchanged (term ∷ terms) req same =
    elim (Bool-cases (has_requirement term.match_expressions req)) [
      | inl e ↦
          rw (e, if◌then◌else◌)
            (ap (λ ts. term ∷ ts)
              (require_in_terms_unchanged terms req
                (rw (e, if◌then◌else◌, require_in_terms) at same)))
      | inr e ↦
          let false_here : (require_in_terms terms req true).1 ≡ false =
            rw (e, if◌then◌else◌, require_in_terms) at same in
          absurd (cc (require_in_terms_changed terms req, false_here))
    ]

required_affinity :
    (affinity : Option Affinity) (terms : List NodeSelectorTerm)
    → (elim affinity as (λ _. Option (List NodeSelectorTerm)) [
      | none ↦ none
      | some a ↦ elim a.node_affinity [ none ↦ none | some na ↦ na.required ]
    ])
      ≡ some terms
    → some (record { node_affinity = some (record { required = some terms }) }) ≡ affinity
required_affinity none terms e = absurd (cc e)
required_affinity (some a) terms e = elim (Option-cases a.node_affinity) [
  | inl n ↦ absurd (cc (rw n at e))
  | inr (na, f) ↦
      let required : na.required ≡ some terms = rw f at e in
      let inner : some (record { required = some terms }) ≡ a.node_affinity =
        ap (λ (r : Option (List NodeSelectorTerm)). some (record { required = r })) (sym required)
        ∙ sym f in
      ap (λ (n : Option NodeAffinity). some (record { node_affinity = n })) inner
]

with_required_same :
    (spec : PodSpec) (terms : List NodeSelectorTerm)
    → required_terms spec ≡ some terms
    → with_required spec terms ≡ spec
unfolding required_terms
with_required_same spec terms e =
    ap (λ affinity. record spec { affinity = affinity }) (required_affinity spec.affinity terms e)

add_required_node_affinity_unchanged :
    (spec : PodSpec) (req : NodeSelectorRequirement)
    → (add_required_node_affinity spec req).1 ≡ false
    → (add_required_node_affinity spec req).0 ≡ spec
unfolding add_required_node_affinity
add_required_node_affinity_unchanged spec req same = elim (Option-cases (required_terms spec)) [
  | inl n ↦ absurd (cc (rw (n, add_required_node_affinity) at same))
  | inr ([], e) ↦ absurd (cc (rw (e, add_required_node_affinity) at same))
  | inr (term ∷ terms, e) ↦
      rw (e, add_required_node_affinity)
        (ap (with_required spec) (
            require_in_terms_unchanged (term ∷ terms) req
              (rw (e, add_required_node_affinity) at same))
          ∙ with_required_same spec (term ∷ terms) e)
]

pub constrain_unchanged :
    (p : Platform) (a : PodAction) (spec : PodSpec)
    → (constrain p a spec).1 ≡ false
    → (constrain p a spec).0 ≡ spec
unfolding constrain add_tolerations
constrain_unchanged p a spec same = elim (Option-cases a.add_affinity) [
  | inl n ↦
      rw n (
        add_missing_unchanged p a.add_tolerations spec (rw (n, constrain, add_tolerations) at same))
  | inr (req, f) ↦
      let r = add_missing p a.add_tolerations spec false in
      let both : (r.1 || (add_required_node_affinity r.0 req).1) ≡ false =
        rw (f, constrain, add_tolerations) at same in
      let (first, second) = or_false r.1 (add_required_node_affinity r.0 req).1 both in
      rw f (
        add_required_node_affinity_unchanged r.0 req second
        ∙ add_missing_unchanged p a.add_tolerations spec first)
]
