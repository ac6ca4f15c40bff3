-- ===== src/Sequence/Additions.antt =====
-- `AddTolerations` and `AddRequiredNodeAffinity` (internal/sequence/sequence.go), on a spec and on
-- their own result.
use mathlib.Core.List.{Memᴰ}
use podsequencing.Base.{
  ◌≡◌, ◌≢◌, refl, sym, ap, ◌∙◌, subst, ◌⊎◌, inl, inr, true, false, Bool, Option, none, some, List,
  [], ◌∷◌, ◌++◌, arith, string_eq, str_eq_iff, Bool-cases, if◌then◌else◌, any, join, All,
  append-nil, append_assoc,
}
use podsequencing.Kubernetes.{PodSpec, NodeSelectorRequirement, NodeSelectorTerm, Toleration}
use podsequencing.Kubernetes.Platform.{Platform, IsDocumented}
use podsequencing.Sequence.Pods.{required_terms}
use podsequencing.Sequence.Steering.{
  add_missing, add_tolerations, has_requirement, require_in_terms, with_required,
  add_required_node_affinity,
}

-- Every term holds the requirement.
abbrev pub RequiresIn : NodeSelectorRequirement → List NodeSelectorTerm → Type 0
RequiresIn req = All (λ t. has_requirement t.match_expressions req ≡ true)

has_requirement_last :
    (reqs : List NodeSelectorRequirement) (req : NodeSelectorRequirement)
    → has_requirement (reqs ++ (req ∷ [])) req ≡ true
unfolding has_requirement
has_requirement_last [] req = ground (
  arith,
  str_eq_iff req.key req.key,
  str_eq_iff req.operator req.operator,
  str_eq_iff (join req.values ",") (join req.values ","),
)
has_requirement_last (r ∷ reqs) req = ground (arith, has_requirement_last reqs req)

-- The terms after the loop, one to one: a term that has the requirement stays, any other gets it
-- behind its own.
abbrev pub Extends :
    NodeSelectorRequirement → List NodeSelectorTerm → List NodeSelectorTerm → Type 0
Extends req [] [] = Unit
Extends req (t ∷ ts) (u ∷ us) =
    ((u ≡ t) ⊎ (u ≡ record t { match_expressions = t.match_expressions ++ (req ∷ []) }))
    × Extends req ts us
Extends req _ _ = ⊥

module _ (req : NodeSelectorRequirement) where
  require_in_terms_all :
      (terms : List NodeSelectorTerm) (changed : Bool)
      → RequiresIn req (require_in_terms terms req changed).0
        × Extends req terms (require_in_terms terms req changed).0
  unfolding require_in_terms
  require_in_terms_all [] changed = (tt, tt)
  require_in_terms_all (t ∷ terms) changed =
      elim (Bool-cases (has_requirement t.match_expressions req)) [
        | inl e ↦
            let (h, x) = require_in_terms_all terms changed in
            rw (e, if◌then◌else◌) ((e, h), (inl refl, x))
        | inr e ↦
            let (h, x) = require_in_terms_all terms true in
            rw (e, if◌then◌else◌) ((has_requirement_last t.match_expressions req, h), (inr refl, x))
      ]

  require_in_terms_again :
      (terms : List NodeSelectorTerm) (changed : Bool)
      → RequiresIn req terms
      → require_in_terms terms req changed ≡ (terms, changed)
  unfolding require_in_terms
  require_in_terms_again [] changed h = refl
  require_in_terms_again (t ∷ terms) changed (h, hs) =
      rw (h, if◌then◌else◌, require_in_terms_again terms changed hs)

  -- The terms that the function leaves.
  new_terms : Option (List NodeSelectorTerm) → List NodeSelectorTerm
  new_terms (some (t ∷ ts)) = (require_in_terms (t ∷ ts) req false).0
  new_terms _ = record { match_expressions = req ∷ []; match_fields = [] } ∷ []

  add_required_node_affinity-fst :
      (spec : PodSpec) (old : Option (List NodeSelectorTerm))
      → required_terms spec ≡ old
      → (add_required_node_affinity spec req).0 ≡ with_required spec (new_terms old)
  unfolding add_required_node_affinity new_terms
  add_required_node_affinity-fst spec none e = rw (e, add_required_node_affinity)
  add_required_node_affinity-fst spec (some []) e = rw (e, add_required_node_affinity)
  add_required_node_affinity-fst spec (some (t ∷ ts)) e = rw (e, add_required_node_affinity)

  new_terms_all :
      (old : Option (List NodeSelectorTerm)) → (new_terms old ≢ []) × RequiresIn req (new_terms old)
  unfolding new_terms
  new_terms_all none = (λ e. cc, (has_requirement_last [] req, tt))
  new_terms_all (some []) = (λ e. cc, (has_requirement_last [] req, tt))
  new_terms_all (some (t ∷ ts)) = (
    λ e. subst (Extends req (t ∷ ts)) e (require_in_terms_all (t ∷ ts) false).1,
    (require_in_terms_all (t ∷ ts) false).0,
  )

  add_required_node_affinity_again :
      (spec : PodSpec) (terms : List NodeSelectorTerm)
      → terms ≢ []
      → RequiresIn req terms
      → add_required_node_affinity (with_required spec terms) req
        ≡ (with_required spec terms, false)
  unfolding add_required_node_affinity required_terms
  add_required_node_affinity_again spec [] some_term h = absurd (some_term refl)
  add_required_node_affinity_again spec (t ∷ ts) some_term h =
      rw (require_in_terms_again (t ∷ ts) false h)

  -- Whatever the affinity was, after adding a requirement there are required terms, all of them
  -- hold the requirement, and adding it again changes nothing.
  pub add_required_node_affinity_holds :
      (spec : PodSpec)
      → (terms : List NodeSelectorTerm) × (required_terms (add_required_node_affinity spec req).0
          ≡ some terms)
        × (terms ≢ [])
        × RequiresIn req terms
        × (add_required_node_affinity (add_required_node_affinity spec req).0 req
            ≡ ((add_required_node_affinity spec req).0, false))
  unfolding required_terms
  add_required_node_affinity_holds spec =
      let old = required_terms spec in
      let (some_term, h) = new_terms_all old in
      rw (add_required_node_affinity-fst spec old refl) (
        new_terms old,
        refl,
        some_term,
        h,
        add_required_node_affinity_again spec (new_terms old) some_term h,
      )

  -- Where the spec has required terms, each of them stays in its place, with its own expressions
  -- and fields and at most the requirement added behind them.
  pub add_required_node_affinity-Extends :
      (spec : PodSpec) (t : NodeSelectorTerm) (ts : List NodeSelectorTerm)
      → required_terms spec ≡ some (t ∷ ts)
      → (terms : List NodeSelectorTerm) × (required_terms (add_required_node_affinity spec req).0
          ≡ some terms)
        × Extends req (t ∷ ts) terms
  unfolding required_terms new_terms
  add_required_node_affinity-Extends spec t ts e =
      rw (add_required_node_affinity-fst spec (some (t ∷ ts)) e)
        ((require_in_terms (t ∷ ts) req false).0, refl, (require_in_terms_all (t ∷ ts) false).1)

module _ (p : Platform) where
  -- Every listed toleration is there already.
  abbrev Present : List Toleration → List Toleration → Type 0
  Present tols existing = All (λ t. any (λ e. p.match_toleration e t) existing ≡ true) tols

  add_missing_none :
      (tols : List Toleration) (spec : PodSpec) (changed : Bool)
      → Present tols spec.tolerations
      → add_missing p tols spec changed ≡ (spec, changed)
  unfolding add_missing
  add_missing_none [] spec changed h = refl
  add_missing_none (t ∷ tols) spec changed (h, hs) =
      rw (h, if◌then◌else◌) (add_missing_none tols spec changed hs)

  any_append :
      (t : Toleration) (xs ys : List Toleration)
      → any (λ e. p.match_toleration e t) xs ≡ true
      → any (λ e. p.match_toleration e t) (xs ++ ys) ≡ true
  any_append t [] ys h = absurd (grind arith)
  any_append t (x ∷ xs) ys h = ground (arith, any_append t xs ys)

  any_last :
      (documented : IsDocumented p) (t : Toleration) (xs : List Toleration)
      → any (λ e. p.match_toleration e t) (xs ++ (t ∷ [])) ≡ true
  any_last documented t [] = rw ((documented.match_toleration_iff t t).1 (refl, refl, refl, refl))
  any_last documented t (x ∷ xs) = ground (arith, any_last documented t xs)

  abbrev added : PodSpec → List Toleration → PodSpec
  added spec more = record spec { tolerations = spec.tolerations ++ more }

  All-later :
      (t : Toleration) (tols more : List Toleration)
      → All (λ m. Memᴰ m tols) more
      → All (λ m. Memᴰ m (t ∷ tols)) more
  All-later t tols [] h = tt
  All-later t tols (m ∷ more) (h, hs) = (Memᴰ.tail h, All-later t tols more hs)

  add_missing_found :
      (t : Toleration) (tols : List Toleration) (spec : PodSpec) (changed : Bool)
      → any (λ e. p.match_toleration e t) spec.tolerations ≡ true
      → add_missing p (t ∷ tols) spec changed ≡ add_missing p tols spec changed
  unfolding add_missing
  add_missing_found t tols spec changed e = rw (e, if◌then◌else◌)

  add_missing_absent :
      (t : Toleration) (tols : List Toleration) (spec : PodSpec) (changed : Bool)
      → any (λ e. p.match_toleration e t) spec.tolerations ≡ false
      → add_missing p (t ∷ tols) spec changed ≡ add_missing p tols (added spec (t ∷ [])) true
  unfolding add_missing
  add_missing_absent t tols spec changed e = rw (e, if◌then◌else◌)

  add_missing_result :
      (documented : IsDocumented p) (tols : List Toleration) (spec : PodSpec) (changed : Bool)
      → (more : List Toleration) × ((add_missing p tols spec changed).0 ≡ added spec more)
        × All (λ t. Memᴰ t tols) more
        × Present tols (spec.tolerations ++ more)
  add_missing_result documented [] spec changed =
      unfold add_missing in
      ([], ap (λ ts. record spec { tolerations = ts }) (sym (append-nil spec.tolerations)), tt, tt)
  add_missing_result documented (t ∷ tols) spec changed =
      elim (Bool-cases (any (λ e. p.match_toleration e t) spec.tolerations)) [
        | inl e ↦
            let (more, q, listed, here) = add_missing_result documented tols spec changed in
            rw (add_missing_found t tols spec changed e)
              (more, q, All-later t tols more listed, (any_append t spec.tolerations more e, here))
        | inr e ↦
            let (more, q, listed, here) =
              add_missing_result documented tols (added spec (t ∷ [])) true in
            let regroup = append_assoc spec.tolerations (t ∷ []) more in
            rw (add_missing_absent t tols spec changed e) (
              t ∷ more,
              q ∙ ap (λ ts. record spec { tolerations = ts }) regroup,
              (Memᴰ.head refl, All-later t tols more listed),
              (
                subst (λ ts. any (λ x. p.match_toleration x t) ts ≡ true) regroup
                    (any_append t (spec.tolerations ++ (t ∷ [])) more
                      (any_last documented t spec.tolerations)),
                subst (Present tols) regroup here,
              ),
            )
      ]

  -- On a documented platform every listed toleration is there afterwards, nothing but listed ones
  -- was added, behind those that were there, the rest of the spec is untouched, and adding them
  -- again changes nothing.
  pub add_tolerations_holds :
      (documented : IsDocumented p) (spec : PodSpec) (tols : List Toleration)
      → (more : List Toleration) × ((add_tolerations p spec tols).0
          ≡ record spec { tolerations = spec.tolerations ++ more })
        × All (λ t. Memᴰ t tols) more
        × All (λ t. any (λ e. p.match_toleration e t) (spec.tolerations ++ more) ≡ true) tols
        × (add_tolerations p (add_tolerations p spec tols).0 tols
            ≡ ((add_tolerations p spec tols).0, false))
  unfolding add_tolerations
  add_tolerations_holds documented spec tols =
      let (more, e, listed, here) = add_missing_result documented tols spec false in
      (more, e, listed, here, rw e (add_missing_none tols (added spec more) false here))
