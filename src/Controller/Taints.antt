-- ===== src/Controller/Taints.antt =====
-- What `setNodeKey` (internal/controller/podsequence_controller.go) makes of a node's taints.
use podsequencing.Base.{
  String, ◌≡◌, refl, sym, ap, ◌∙◌, inl, inr, Bool, true, false, not, ◌&&◌, ◌||◌, Option, none, some,
  List, [], ◌∷◌, ◌++◌, arith, ◌==◌, ◌!=◌, string_eq, str_eq_iff, Bool-cases, and_true,
  if◌then◌else◌, keep,
}
use mathlib.Core.List.{head-eq_of_cons-eq, tail-eq_of_cons-eq}
use podsequencing.Kubernetes.{Taint}
use podsequencing.Controller.NodeKeys.{scan_taints, next_taints}

-- The taints of the key, and the others.
abbrev pub own : String → List Taint → List Taint
own key = keep (λ t. t.key == key)

abbrev pub foreign : String → List Taint → List Taint
foreign key = keep (λ t. t.key != key)

abbrev pub wanted_list : Option Taint → List Taint
wanted_list none = []
wanted_list (some w) = w ∷ []

abbrev one_if : Bool → Taint → List Taint
one_if b w = if b then w ∷ [] else []

module _ (key : String) where
  same_taint :
      (t w : Taint) → w.key ≡ key → t.key ≡ key → t.value ≡ w.value → t.effect ≡ w.effect → t ≡ w
  same_taint t w k l v e = λ i. record { key = (l ∙ sym k) i; value = v i; effect = e i }

  scan_foreign :
      (want : Option Taint) (taints : List Taint) (found : Bool)
      → foreign key (scan_taints key want taints found).0 ≡ foreign key taints
  unfolding scan_taints
  scan_foreign none [] found = refl
  scan_foreign (some w) [] found = refl
  scan_foreign none (t ∷ taints) found =
      ground (arith, scan_foreign none taints (found || (t.key == key && false)))
  scan_foreign (some w) (t ∷ taints) found = ground (
    arith,
    scan_foreign (some w) taints
        (found || (t.key == key && (not found && (t.value == w.value && t.effect == w.effect)))),
  )

  -- With no wanted taint none of the key is left; else at most the wanted one, and it is found.
  scan_own-none :
      (taints : List Taint) (found : Bool) → own key (scan_taints key none taints found).0 ≡ []
  unfolding scan_taints
  scan_own-none [] found = refl
  scan_own-none (t ∷ taints) found =
      ground (arith, scan_own-none taints (found || (t.key == key && false)))

  scan_own_after :
      (w : Taint) (taints : List Taint)
      → (own key (scan_taints key (some w) taints true).0 ≡ [])
        × ((scan_taints key (some w) taints true).2 ≡ true)
  unfolding scan_taints
  scan_own_after w [] = (refl, refl)
  scan_own_after w (t ∷ taints) = ground (arith, scan_own_after w taints)

  scan_own-some :
      (w : Taint) (taints : List Taint)
      → w.key ≡ key
      → own key (scan_taints key (some w) taints false).0
        ≡ one_if (scan_taints key (some w) taints false).2 w
  unfolding scan_taints
  scan_own-some w [] k = refl
  scan_own-some w (t ∷ taints) k = elim (Bool-cases (t.key == key)) [
    | inr e ↦ ground (arith, scan_own-some w taints k)
    | inl e ↦ elim (Bool-cases (t.value == w.value && t.effect == w.effect)) [
      | inr d ↦ ground (arith, scan_own-some w taints k)
      | inl d ↦
          let (dv, de) = and_true _ _ d in
          let same =
            same_taint t w k ((str_eq_iff t.key key).0 e) ((str_eq_iff t.value w.value).0 dv)
              ((str_eq_iff t.effect w.effect).0 de) in
          ground (arith, scan_own_after w taints)
    ]
  ]

  own_append :
      (w : Taint) (xs : List Taint)
      → w.key ≡ key
      → own key (xs ++ (w ∷ [])) ≡ own key xs ++ (w ∷ [])
  own_append w [] k = ground (arith, str_eq_iff w.key key)
  own_append w (x ∷ xs) k = ground (arith, own_append w xs k)

  foreign_append :
      (w : Taint) (xs : List Taint) → w.key ≡ key → foreign key (xs ++ (w ∷ [])) ≡ foreign key xs
  foreign_append w [] k = ground (arith, str_eq_iff w.key key)
  foreign_append w (x ∷ xs) k = ground (arith, foreign_append w xs k)

  -- A wanted taint, if there is one, has the key.
  abbrev pub HasKey : Option Taint → Type 0
  HasKey none = Unit
  HasKey (some w) = w.key ≡ key

  -- The new taints hold the wanted taint of the key and no other of it, and every other taint in
  -- its order.
  pub next_taints_exact :
      (want : Option Taint) (taints : List Taint)
      → HasKey want
      → (own key (next_taints key want taints).0 ≡ wanted_list want)
        × (foreign key (next_taints key want taints).0 ≡ foreign key taints)
  unfolding next_taints
  next_taints_exact none taints k = (scan_own-none taints false, scan_foreign none taints false)
  next_taints_exact (some w) taints k =
      let first = scan_own-some w taints k in
      let rest = scan_foreign (some w) taints false in
      elim (Bool-cases (scan_taints key (some w) taints false).2) [
        | inl e ↦ rw (e, if◌then◌else◌) (rw (e, if◌then◌else◌) at first, rest)
        | inr e ↦
            rw (e, if◌then◌else◌)
              (
                own_append w _ k ∙ ap (λ l. l ++ (w ∷ [])) (rw (e, if◌then◌else◌) at first),
                foreign_append w _ k ∙ rest,
              )
      ]

  scan_unchanged :
      (want : Option Taint) (taints : List Taint) (found : Bool)
      → (scan_taints key want taints found).1 ≡ false
      → (scan_taints key want taints found).0 ≡ taints
  unfolding scan_taints
  scan_unchanged none [] found e = refl
  scan_unchanged (some w) [] found e = refl
  scan_unchanged none (t ∷ taints) found e =
      ground (arith, scan_unchanged none taints (found || (t.key == key && false)))
  scan_unchanged (some w) (t ∷ taints) found e = ground (
    arith,
    scan_unchanged (some w) taints
        (found || (t.key == key && (not found && (t.value == w.value && t.effect == w.effect)))),
  )

  -- Where the code sees no change there is none.
  pub next_taints_unchanged :
      (want : Option Taint) (taints : List Taint)
      → (next_taints key want taints).1 ≡ false
      → (next_taints key want taints).0 ≡ taints
  unfolding next_taints
  next_taints_unchanged none taints e = scan_unchanged none taints false e
  next_taints_unchanged (some w) taints e =
      elim (Bool-cases (scan_taints key (some w) taints false).2) [
        | inl f ↦
            rw (f, if◌then◌else◌)
              (scan_unchanged (some w) taints false (rw (f, if◌then◌else◌) at e))
        | inr f ↦ absurd (grind arith)
      ]

  scan_quiet_after :
      (w : Taint) (taints : List Taint)
      → own key taints ≡ []
      → (scan_taints key (some w) taints true).1 ≡ false
  unfolding scan_taints
  scan_quiet_after w [] e = refl
  scan_quiet_after w (t ∷ taints) e = ground (arith, scan_quiet_after w taints)

  scan_quiet_none :
      (taints : List Taint) (found : Bool)
      → own key taints ≡ []
      → (scan_taints key none taints found).1 ≡ false
  unfolding scan_taints
  scan_quiet_none [] found e = refl
  scan_quiet_none (t ∷ taints) found e =
      ground (arith, scan_quiet_none taints (found || (t.key == key && false)))

  scan_quiet_some :
      (w : Taint) (taints : List Taint)
      → own key taints ≡ w ∷ []
      → ((scan_taints key (some w) taints false).1 ≡ false)
        × ((scan_taints key (some w) taints false).2 ≡ true)
  unfolding scan_taints
  scan_quiet_some w [] e = absurd (grind arith)
  scan_quiet_some w (t ∷ taints) e = elim (Bool-cases (t.key == key)) [
    | inr f ↦ ground (arith, scan_quiet_some w taints)
    | inl f ↦
        let same : t ∷ own key taints ≡ w ∷ [] = rw (f, if◌then◌else◌) at e in
        let head : t ≡ w = head-eq_of_cons-eq same in
        let tail : own key taints ≡ [] = tail-eq_of_cons-eq same in
        ground (
          arith,
          scan_own_after w taints,
          scan_quiet_after w taints tail,
          (str_eq_iff t.value w.value).1 (ap (λ (x : Taint). x.value) head),
          (str_eq_iff t.effect w.effect).1 (ap (λ (x : Taint). x.effect) head),
        )
  ]

  -- The taints are as wanted, so the code sees no change.
  pub next_taints_quiet :
      (want : Option Taint) (taints : List Taint)
      → HasKey want
      → own key taints ≡ wanted_list want
      → (next_taints key want taints).1 ≡ false
  unfolding next_taints
  next_taints_quiet none taints k e = scan_quiet_none taints false e
  next_taints_quiet (some w) taints k e =
      let (quiet, found) = scan_quiet_some w taints e in ground arith
