-- ===== src/Plan/Prefixes.antt =====
-- The loop over the groups on one node (internal/controller/nodeplan.go).
use podsequencing.Base.{
  ℕ, zero, suc, ◌+◌, ◌≤◌, ◌<◌, String, ◌≡◌, refl, ◌⊎◌, inl, inr, true, false, some, List, [], ◌∷◌,
  arith, ◌∙◌, sym, ap, subst, get_elem?-beyond, Bool-cases, length, get_elem?, if◌then◌else◌,
}
use mathlib.Core.Option.{some-injective}
use podsequencing.Kubernetes.{Node}
use podsequencing.Kubernetes.Platform.{Platform}
use podsequencing.Plan.Data.{Member, GroupInfo, requeue}
use podsequencing.Plan.Members.{pods_of}
use podsequencing.Plan.Satisfied.{Verdict, group_satisfied_on_node}
use podsequencing.Plan.Nodes.{Progress, advance}

module _ (p : Platform) (members : List Member) (now : ℕ) (key : String) (node : Node) where
  -- The verdict on group `j`.
  abbrev pub verdict : GroupInfo → ℕ → Verdict
  verdict info j = group_satisfied_on_node p info j node (pods_of members node.name j) now key

  -- Every group before `n` is satisfied, counted from `j`; the group at `n`, if there is one, is
  -- not, and `message` is what its verdict says.
  pub record IsPrefix (infos : List GroupInfo) (j n : ℕ) (message : String) : Type 0 where
    pub from : j ≤ n
    pub bound : n ≤ j + length infos
    pub before :
        (i : ℕ) (info : GroupInfo)
        → get_elem? infos i ≡ some info
        → j + i < n
        → (verdict info (j + i)).satisfied ≡ true
    pub stop :
        (n ≡ j + length infos)
        ⊎ ((i : ℕ) × (info : GroupInfo) × (n ≡ j + i)
            × (get_elem? infos i ≡ some info)
            × ((verdict info n).satisfied ≡ false)
            × (message ≡ (verdict info n).message))

  IsPrefix-stop :
      (info : GroupInfo) (infos : List GroupInfo) (j : ℕ)
      → (verdict info j).satisfied ≡ false
      → IsPrefix (info ∷ infos) j j (verdict info j).message
  IsPrefix-stop info infos j e = record {
    from = omega arith;
    bound = omega arith;
    before = λ i other _ h. absurd (omega arith);
    stop = inr (0, info, omega arith, refl, e, refl);
  }

  IsPrefix-more :
      (info : GroupInfo) (infos : List GroupInfo) (j n : ℕ) (message : String)
      → (verdict info j).satisfied ≡ true
      → IsPrefix infos (suc j) n message
      → IsPrefix (info ∷ infos) j n message
  IsPrefix-more info infos j n message e r = record {
    from = omega (arith, r.from);
    bound = omega (arith, r.bound);
    before = λ i. before i;
    stop = elim r.stop [
      | inl h ↦ inl (omega arith)
      | inr (i, other, h, found, fails, said) ↦ inr (suc i, other, omega arith, found, fails, said)
    ];
  }
    where
      before :
          (i : ℕ) (other : GroupInfo)
          → get_elem? (info ∷ infos) i ≡ some other
          → j + i < n
          → (verdict other (j + i)).satisfied ≡ true
      before zero other found h =
          let same : j + 0 ≡ j = omega arith in
          rw same (subst (λ x. (verdict x j).satisfied ≡ true) (some-injective _ _ found) e)
      before (suc i) other found h =
          let same : j + suc i ≡ suc j + i = omega arith in
          rw same (r.before i other found (omega arith))

  advance-IsPrefix :
      (infos : List GroupInfo) (j after : ℕ)
      → IsPrefix infos j
          (advance p members now key node infos j after).satisfied
          (advance p members now key node infos j after).message
  unfolding advance
  advance-IsPrefix [] j after = record {
    from = omega arith;
    bound = omega arith;
    before = λ i info found h. absurd (grind arith);
    stop = inl (omega arith);
  }
  advance-IsPrefix (info ∷ infos) j after = elim (Bool-cases (verdict info j).satisfied) [
    | inr e ↦ rw (e, if◌then◌else◌) (IsPrefix-stop info infos j e)
    | inl e ↦
        rw (e, if◌then◌else◌)
          (IsPrefix-more info infos j _ _ e
            (advance-IsPrefix infos (suc j) (requeue after (verdict info j).remaining)))
  ]

  module _ (infos : List GroupInfo) (after : ℕ) where
    abbrev progress : Progress
    progress = advance p members now key node infos 0 after

    pub advance-le-length : progress.satisfied ≤ length infos
    advance-le-length = omega (arith, (advance-IsPrefix infos 0 after).bound)

    pub advance-before :
        (i : ℕ) (info : GroupInfo)
        → get_elem? infos i ≡ some info
        → i < progress.satisfied
        → (verdict info i).satisfied ≡ true
    advance-before i info found h =
        let same : i ≡ 0 + i = omega arith in
        rw same ((advance-IsPrefix infos 0 after).before i info found (omega arith))

    pub advance-stop :
        (info : GroupInfo)
        → get_elem? infos progress.satisfied ≡ some info
        → ((verdict info progress.satisfied).satisfied ≡ false)
          × (progress.message ≡ (verdict info progress.satisfied).message)
    advance-stop info found = elim (advance-IsPrefix infos 0 after).stop [
      | inl h ↦ absurd (get_elem?-beyond infos progress.satisfied found (omega arith))
      | inr (i, other, h, at, fails, said) ↦
          let same : progress.satisfied ≡ i = omega arith in
          let eq : other ≡ info =
            some-injective _ _ (sym at ∙ ap (get_elem? infos) (sym same) ∙ found) in
          (
            subst (λ x. (verdict x progress.satisfied).satisfied ≡ false) eq fails,
            subst (λ x. progress.message ≡ (verdict x progress.satisfied).message) eq said,
          )
    ]
