-- ===== src/Plan/Runs.antt =====
-- The whole loop over the members (internal/controller/nodeplan.go): who is released and who is held.
use mathlib.Core.List.{Memᴰ}
use podsequencing.Base.{
  ℕ, suc, ◌+◌, String, ◌≡◌, refl, sym, ap, ◌∙◌, subst, ◌⊎◌, inl, inr, Bool, true, Option, none,
  some, List, [], ◌∷◌, arith, string_eq, str_eq_iff, length, count, length-append, Option-cases,
  if◌then◌else◌, mem_split, mem_append_left, mem_append_right,
}
use podsequencing.Types.{PodSequence}
use podsequencing.Sequence.Fields.{gate_name}
use podsequencing.Sequence.Pods.{has_gate}
use podsequencing.Plan.Data.{NodeState, PodAction, NodePlan, Member}
use podsequencing.Plan.Release.{state_of, mark_failed, hold, release_member, release_members}
use podsequencing.Plan.Outcomes.{
  IsOpen, MayGo, MustWait, Outcome, idle, released, held, release_member_outcome,
}

-- All of a state that decides about pods.
abbrev pub view : Option NodeState → Option (Bool × ℕ)
view none = none
view (some st) = some (st.participating, st.satisfied)

abbrev pub SameViews : List NodeState → List NodeState → Type 0
SameViews xs ys = (name : String) → view (state_of xs name) ≡ view (state_of ys name)

mark_failed-SameViews :
    (name : String) (states : List NodeState) → SameViews (mark_failed name states) states
unfolding mark_failed state_of
mark_failed-SameViews name [] k = refl
mark_failed-SameViews name (st ∷ states) k =
    ground
      (arith, mark_failed-SameViews name states k, str_eq_iff st.name name, str_eq_iff st.name k)

hold-SameViews :
    (seq : PodSequence) (now : ℕ) (plan : NodePlan) (m : Member)
    → SameViews (hold seq now plan m).nodes plan.nodes
unfolding hold
hold-SameViews seq now plan m k = elim (Option-cases seq.spec.gate_timeout) [
  | inl e ↦ rw (e, hold)
  | inr (t, e) ↦ rw (e, hold) (ground (arith, mark_failed-SameViews m.node plan.nodes k))
]

pub IsOpen-view : (o o' : Option NodeState) (g : ℕ) → view o ≡ view o' → IsOpen o g → IsOpen o' g
IsOpen-view none none g e h = tt
IsOpen-view none (some st) g e h = absurd (grind arith)
IsOpen-view (some st) none g e h = tt
IsOpen-view (some st) (some st') g e h = ground arith

pub MayGo-view : (xs ys : List NodeState) (m : Member) → SameViews xs ys → MayGo xs m → MayGo ys m
MayGo-view xs ys m same (inl b) = inl b
MayGo-view xs ys m same (inr (inl e)) = inr (inl e)
MayGo-view xs ys m same (inr (inr o)) =
    inr (inr (IsOpen-view (state_of xs m.node) (state_of ys m.node) m.group (same m.node) o))

pub MustWait-not-MayGo :
    {states : List NodeState} {m : Member} → MustWait states m → ¬ MayGo states m
MustWait-not-MayGo w (inl b) = cc (w.sequenced)
MustWait-not-MayGo w (inr (inl e)) = absurd (w.pinned e)
MustWait-not-MayGo {states} {m} w (inr (inr o)) =
    let o' : IsOpen (some w.state) m.group = subst (λ s. IsOpen s m.group) w.found o in
    let p = w.participating in let b = w.behind in ground arith

-- An action of the loop, and the member that it is for.
pub record Released (seq : PodSequence) (states : List NodeState) (ms : List Member) (a : PodAction)
    : Type 0 where
  pub member : Member
  pub listed : Memᴰ member ms
  pub same_pod : a.pod ≡ member.pod
  pub same_group : a.group ≡ some member.group
  pub gated : has_gate member.pod (gate_name seq) ≡ true
  pub may_go : MayGo states member

Released-cons :
    {seq : PodSequence} {states : List NodeState} {ms : List Member} {a : PodAction} (m : Member)
    → Released seq states ms a
    → Released seq states (m ∷ ms) a
Released-cons m r = record {
  member = r.member;
  listed = Memᴰ.tail r.listed;
  same_pod = r.same_pod;
  same_group = r.same_group;
  gated = r.gated;
  may_go = r.may_go;
}

module _ (seq : PodSequence) (now : ℕ) where
  hold_counts :
      (plan : NodePlan) (m : Member)
      → ((hold seq now plan m).ungate ≡ plan.ungate)
        × ((hold seq now plan m).gated_pods ≡ suc plan.gated_pods)
  unfolding hold
  hold_counts plan m = elim (Option-cases seq.spec.gate_timeout) [
    | inl e ↦ rw (e, hold) (refl, refl)
    | inr (t, e) ↦ rw (e, hold) ground arith
  ]

  module _ (states : List NodeState) where
    pub round-SameViews :
        (plan : NodePlan) (m : Member) (plan' : NodePlan)
        → SameViews plan.nodes states
        → Outcome seq now plan m plan'
        → SameViews plan'.nodes states
    round-SameViews plan m plan' same (idle g e) = rw e same
    round-SameViews plan m plan' same (held g w e) =
        rw e (λ k. hold-SameViews seq now plan m k ∙ same k)
    round-SameViews plan m plan' same (released b g go pod group e) = rw e same

    pub release_members-SameViews :
        (ms : List Member) (plan : NodePlan)
        → SameViews plan.nodes states
        → SameViews (release_members seq now plan ms).nodes states
    unfolding release_members
    release_members-SameViews [] plan same = same
    release_members-SameViews (m ∷ ms) plan same =
        release_members-SameViews ms (release_member seq now plan m)
          (round-SameViews plan m _ same (release_member_outcome seq now plan m))

    -- What one round adds to the released pods.
    round_sound :
        (plan : NodePlan) (m : Member) (plan' : NodePlan) (ms : List Member) (a : PodAction)
        → SameViews plan.nodes states
        → Outcome seq now plan m plan'
        → Memᴰ a plan'.ungate
        → Memᴰ a plan.ungate ⊎ Released seq states (m ∷ ms) a
    round_sound plan m plan' ms a same (idle g e) l = inl (rw e at l)
    round_sound plan m plan' ms a same (held g w e) l =
        inl (subst (Memᴰ a) (ap (λ (q : NodePlan). q.ungate) e ∙ (hold_counts plan m).0) l)
    round_sound plan m plan' ms a same (released b g go pod group e) l =
        elim (mem_split plan.ungate (b ∷ []) (rw e at l)) [
          | inl old ↦ inl old
          | inr new ↦ elim new [
            | Memᴰ.head q ↦ inr (record {
              member = m;
              listed = Memᴰ.head refl;
              same_pod = ap (λ (x : PodAction). x.pod) q ∙ pod;
              same_group = ap (λ (x : PodAction). x.group) q ∙ group;
              gated = g;
              may_go = MayGo-view plan.nodes states m same go;
            })
            | Memᴰ.tail t ↦ elim t [ ]
          ]
        ]

    pub release_members_sound :
        (ms : List Member) (plan : NodePlan) (a : PodAction)
        → SameViews plan.nodes states
        → Memᴰ a (release_members seq now plan ms).ungate
        → Memᴰ a plan.ungate ⊎ Released seq states ms a
    unfolding release_members
    release_members_sound [] plan a same l = inl l
    release_members_sound (m ∷ ms) plan a same l =
        let plan' = release_member seq now plan m in
        let o = release_member_outcome seq now plan m in
        elim (release_members_sound ms plan' a (round-SameViews plan m plan' same o) l) [
          | inl l' ↦ round_sound plan m plan' ms a same o l'
          | inr r ↦ inr (Released-cons m r)
        ]

    -- One round keeps what was released, and releases its member if that may go.
    round_complete :
        (plan : NodePlan) (m : Member) (plan' : NodePlan)
        → SameViews plan.nodes states
        → Outcome seq now plan m plan'
        → ((a : PodAction) → Memᴰ a plan.ungate → Memᴰ a plan'.ungate)
          × (has_gate m.pod (gate_name seq) ≡ true
              → MayGo states m
              → (a : PodAction) × Memᴰ a plan'.ungate × (a.pod ≡ m.pod) × (a.group ≡ some m.group))
    round_complete plan m plan' same (idle g e) = rw e (λ a l. l, λ gated go. absurd (grind arith))
    round_complete plan m plan' same (held g w e) = rw e (
      λ a l. subst (Memᴰ a) (sym (hold_counts plan m).0) l,
      λ gated go.
          absurd (MustWait-not-MayGo w (MayGo-view states plan.nodes m (λ k. sym (same k)) go)),
    )
    round_complete plan m plan' same (released b g go pod group e) = rw e (
      λ a l. mem_append_left plan.ungate (b ∷ []) l,
      λ _ _. (b, mem_append_right plan.ungate (b ∷ []) (Memᴰ.head refl), pod, group),
    )

    release_members_keep :
        (ms : List Member) (plan : NodePlan) (a : PodAction)
        → SameViews plan.nodes states
        → Memᴰ a plan.ungate
        → Memᴰ a (release_members seq now plan ms).ungate
    unfolding release_members
    release_members_keep [] plan a same l = l
    release_members_keep (m ∷ ms) plan a same l =
        let plan' = release_member seq now plan m in
        let o = release_member_outcome seq now plan m in
        release_members_keep ms plan' a (round-SameViews plan m plan' same o)
          ((round_complete plan m plan' same o).0 a l)

    pub release_members_complete :
        (ms : List Member) (plan : NodePlan) (m : Member)
        → SameViews plan.nodes states
        → Memᴰ m ms
        → has_gate m.pod (gate_name seq) ≡ true
        → MayGo states m
        → (a : PodAction) × Memᴰ a (release_members seq now plan ms).ungate
          × (a.pod ≡ m.pod)
          × (a.group ≡ some m.group)
    unfolding release_members
    release_members_complete [] plan m same l gated go = elim l [ ]
    release_members_complete (n ∷ ms) plan m same (Memᴰ.head q) gated go =
        let plan' = release_member seq now plan n in
        let o = release_member_outcome seq now plan n in
        let (a, l, pod, group) =
          (round_complete plan n plan' same o).1
            (subst (λ x. has_gate x.pod (gate_name seq) ≡ true) q gated)
            (subst (MayGo states) q go) in
        (
          a,
          release_members_keep ms plan' a (round-SameViews plan n plan' same o) l,
          pod ∙ ap (λ (x : Member). x.pod) (sym q),
          group ∙ ap (λ (x : Member). some x.group) (sym q),
        )
    release_members_complete (n ∷ ms) plan m same (Memᴰ.tail l) gated go =
        let plan' = release_member seq now plan n in
        let o = release_member_outcome seq now plan n in
        release_members_complete ms plan' m (round-SameViews plan n plan' same o) l gated go

  -- Every gated member is released or counted as gated.
  round_counts :
      (plan : NodePlan) (m : Member) (plan' : NodePlan)
      → Outcome seq now plan m plan'
      → length plan'.ungate + plan'.gated_pods
        ≡ length plan.ungate + plan.gated_pods + (if has_gate m.pod (gate_name seq) then 1 else 0)
  round_counts plan m plan' (idle g e) = rw (e, g, if◌then◌else◌) (omega arith)
  round_counts plan m plan' (held g w e) =
      rw (e, g, (hold_counts plan m).0, (hold_counts plan m).1, if◌then◌else◌) (omega arith)
  round_counts plan m plan' (released b g go pod group e) =
      rw (e, g, length-append, if◌then◌else◌) (omega arith)

  pub release_members_counts :
      (ms : List Member) (plan : NodePlan)
      → let plan' : NodePlan = release_members seq now plan ms in
        length plan'.ungate + plan'.gated_pods
        ≡ length plan.ungate + plan.gated_pods + count (λ m. has_gate m.pod (gate_name seq)) ms
  unfolding release_members
  release_members_counts [] plan = omega arith
  release_members_counts (m ∷ ms) plan = ground (
    arith,
    release_members_counts ms (release_member seq now plan m),
    round_counts plan m (release_member seq now plan m) (release_member_outcome seq now plan m),
  )
