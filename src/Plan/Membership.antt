-- ===== src/Plan/Membership.antt =====
-- The first loop over the pods (internal/controller/nodeplan.go): members and strays.
use mathlib.Core.List.{Memᴰ}
use podsequencing.Base.{
  ℕ, ◌≡◌, refl, sym, ap, ◌∙◌, subst, ◌≢◌, inl, inr, true, false, Option, none, some, List, [], ◌∷◌,
  arith, ◌!=◌, string_eq, str_eq_iff, Bool-cases, Option-cases, if◌then◌else◌, mem_split, mem_one,
}
use mathlib.Core.Option.{some-injective}
use podsequencing.Kubernetes.{Pod}
use podsequencing.Kubernetes.Platform.{Platform}
use podsequencing.Types.{PodSequence}
use podsequencing.Sequence.Fields.{target_namespace}
use podsequencing.Sequence.Groups.{group_index_for_pod}
use podsequencing.Sequence.Pods.{target_node, is_active}
use podsequencing.Plan.Data.{PodAction, Member}
use podsequencing.Plan.Members.{is_stray, stray_action, collect}

module _ (p : Platform) (seq : PodSequence) where
  -- The pod belongs to a group of the sequence and is active.
  pub record IsMember (pod : Pod) (group : ℕ) : Type 0 where
    pub namespace : pod.namespace ≡ target_namespace seq
    pub group_index : group_index_for_pod p seq pod ≡ some group
    pub active : is_active pod ≡ true

  pub collect_nil : collect p seq [] ≡ ([], [])
  unfolding collect
  collect_nil = refl

  -- One round of the loop, with the results on the later pods.
  pub data Collected (pod : Pod) (pods : List Pod) : Type 0 where
    foreign :
        pod.namespace ≢ target_namespace seq
        → collect p seq (pod ∷ pods) ≡ collect p seq pods
        → Collected pod pods
    stray :
        pod.namespace ≡ target_namespace seq
        → group_index_for_pod p seq pod ≡ none
        → is_stray p seq pod ≡ true
        → collect p seq (pod ∷ pods)
          ≡ (stray_action p pod ∷ (collect p seq pods).0, (collect p seq pods).1)
        → Collected pod pods
    free :
        pod.namespace ≡ target_namespace seq
        → group_index_for_pod p seq pod ≡ none
        → is_stray p seq pod ≡ false
        → collect p seq (pod ∷ pods) ≡ collect p seq pods
        → Collected pod pods
    member :
        (i : ℕ)
        → IsMember pod i
        → collect p seq (pod ∷ pods) ≡ (
          (collect p seq pods).0,
          record { pod = pod; group = i; node = target_node pod } ∷ (collect p seq pods).1,
        )
        → Collected pod pods
    finished :
        (i : ℕ)
        → pod.namespace ≡ target_namespace seq
        → group_index_for_pod p seq pod ≡ some i
        → is_active pod ≡ false
        → collect p seq (pod ∷ pods) ≡ collect p seq pods
        → Collected pod pods

  pub collect_round : (pod : Pod) (pods : List Pod) → Collected pod pods
  unfolding collect
  collect_round pod pods = elim (Bool-cases (pod.namespace != target_namespace seq)) [
    | inl e ↦
        foreign (λ q. ground (arith, str_eq_iff pod.namespace (target_namespace seq)))
          (rw (e, if◌then◌else◌))
    | inr e ↦
        let here : pod.namespace ≡ target_namespace seq =
          ground (arith, str_eq_iff pod.namespace (target_namespace seq)) in
        elim (Option-cases (group_index_for_pod p seq pod)) [
          | inl n ↦ elim (Bool-cases (is_stray p seq pod)) [
            | inl s ↦ stray here n s (rw (e, n, s, if◌then◌else◌, collect))
            | inr s ↦ free here n s (rw (e, n, s, if◌then◌else◌, collect))
          ]
          | inr (i, n) ↦ elim (Bool-cases (is_active pod)) [
            | inl a ↦
                member i (record { namespace = here; group_index = n; active = a })
                  (rw (e, n, a, if◌then◌else◌, collect))
            | inr a ↦ finished i here n a (rw (e, n, a, if◌then◌else◌, collect))
          ]
        ]
  ]

  abbrev member_of : Pod → ℕ → Member
  member_of pod i = record { pod = pod; group = i; node = target_node pod }

  -- A member stands for a pod of its group.
  abbrev pub StandsFor : List Pod → Member → Type 0
  StandsFor pods m = Memᴰ m.pod pods × IsMember m.pod m.group × (m.node ≡ target_node m.pod)

  StandsFor-cons :
      {pods : List Pod} {m : Member} (pod : Pod) → StandsFor pods m → StandsFor (pod ∷ pods) m
  StandsFor-cons pod (l, r, t) = (Memᴰ.tail l, r, t)

  StandsFor-head :
      (pod : Pod) (pods : List Pod) (i : ℕ) (m : Member)
      → IsMember pod i
      → m ≡ member_of pod i
      → StandsFor (pod ∷ pods) m
  StandsFor-head pod pods i m r q = subst (StandsFor (pod ∷ pods)) (sym q) (Memᴰ.head refl, r, refl)

  pub collect-StandsFor :
      (pods : List Pod) (m : Member) → Memᴰ m (collect p seq pods).1 → StandsFor pods m
  unfolding collect
  collect-StandsFor [] m l = elim l [ ]
  collect-StandsFor (pod ∷ pods) m l =
      let back =
        λ (k : Memᴰ m (collect p seq pods).1). StandsFor-cons pod (collect-StandsFor pods m k) in
      elim (collect_round pod pods) [
        | foreign h e ↦ back (subst (λ c. Memᴰ m c.1) e l)
        | stray h n s e ↦ back (subst (λ c. Memᴰ m c.1) e l)
        | free h n s e ↦ back (subst (λ c. Memᴰ m c.1) e l)
        | finished i h n a e ↦ back (subst (λ c. Memᴰ m c.1) e l)
        | member i r e ↦ elim (mem_split (member_of pod i ∷ []) _ (subst (λ c. Memᴰ m c.1) e l)) [
          | inl one ↦ StandsFor-head pod pods i m r (mem_one one)
          | inr k ↦ back k
        ]
      ]

  pub collect-member :
      (pods : List Pod) (pod : Pod) (i : ℕ)
      → Memᴰ pod pods
      → IsMember pod i
      → Memᴰ (member_of pod i) (collect p seq pods).1
  collect-member [] pod i l r = elim l [ ]
  collect-member (q ∷ pods) pod i (Memᴰ.head same) r =
      let r' = subst (λ x. IsMember x i) same r in
      elim (collect_round q pods) [
        | foreign h e ↦ absurd (h r'.namespace)
        | stray h n s e ↦ absurd (clash n r'.group_index)
        | free h n s e ↦ absurd (clash n r'.group_index)
        | finished j h n a e ↦ cc (r'.active)
        | member j w e ↦
            let same_group : i ≡ j = some-injective _ _ (sym r'.group_index ∙ w.group_index) in
            subst (λ c. Memᴰ (member_of pod i) c.1) (sym e)
              (Memᴰ.head (ap (λ x. member_of x i) same ∙ ap (member_of q) same_group))
      ]
    where
      clash : {o : Option ℕ} {j : ℕ} → o ≡ none → o ≡ some j → ⊥
      clash e f = cc
  collect-member (q ∷ pods) pod i (Memᴰ.tail l) r =
      let later = collect-member pods pod i l r in
      elim (collect_round q pods) [
        | foreign h e ↦ subst (λ c. Memᴰ (member_of pod i) c.1) (sym e) later
        | stray h n s e ↦ subst (λ c. Memᴰ (member_of pod i) c.1) (sym e) later
        | free h n s e ↦ subst (λ c. Memᴰ (member_of pod i) c.1) (sym e) later
        | finished j h n a e ↦ subst (λ c. Memᴰ (member_of pod i) c.1) (sym e) later
        | member j w e ↦ subst (λ c. Memᴰ (member_of pod i) c.1) (sym e) (Memᴰ.tail later)
      ]

  -- What is released at once has no group.
  pub collect-strays_group :
      (pods : List Pod) (a : PodAction) → Memᴰ a (collect p seq pods).0 → a.group ≡ none
  unfolding collect
  collect-strays_group [] a l = elim l [ ]
  collect-strays_group (pod ∷ pods) a l = elim (collect_round pod pods) [
    | foreign h e ↦ collect-strays_group pods a (subst (λ c. Memᴰ a c.0) e l)
    | free h n s e ↦ collect-strays_group pods a (subst (λ c. Memᴰ a c.0) e l)
    | finished i h n w e ↦ collect-strays_group pods a (subst (λ c. Memᴰ a c.0) e l)
    | member i r e ↦ collect-strays_group pods a (subst (λ c. Memᴰ a c.0) e l)
    | stray h n s e ↦ elim (mem_split (stray_action p pod ∷ []) _ (subst (λ c. Memᴰ a c.0) e l)) [
      | inl one ↦ ap (λ (x : PodAction). x.group) (mem_one one)
      | inr k ↦ collect-strays_group pods a k
    ]
  ]
