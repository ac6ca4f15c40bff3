-- ===== src/Plan/Outcomes.antt =====
-- One round of the loop over the members (internal/controller/nodeplan.go).
use podsequencing.Base.{
  ℕ, ◌≤◌, ◌<◌, ◌≡◌, refl, ◌≢◌, ◌⊎◌, inl, inr, true, false, Option, none, some, List, arith, ◌==◌,
  string_eq, str_eq_iff, leb, leb→le, Bool-cases, if◌then◌else◌,
}
use podsequencing.Types.{PodSequence}
use podsequencing.Sequence.Fields.{gate_name}
use podsequencing.Sequence.Pods.{has_gate, is_bypassed}
use podsequencing.Plan.Data.{NodeState, PodAction, NodePlan, Member}
use podsequencing.Plan.Release.{
  push, state_of, hold, unpinned_action, release_pinned, release_member,
}

-- The node is unknown, takes no part, or has all groups before `group` satisfied.
abbrev pub IsOpen : Option NodeState → ℕ → Type 0
IsOpen none group = Unit
IsOpen (some st) group = (st.participating ≡ false) ⊎ (group ≤ st.satisfied)

-- A gated member may go.
abbrev pub MayGo : List NodeState → Member → Type 0
MayGo states m =
    (is_bypassed m.pod ≡ true) ⊎ ((m.node ≡ "") ⊎ IsOpen (state_of states m.node) m.group)

-- A gated member has to wait: its node takes part and an earlier group is not satisfied there.
pub record MustWait (states : List NodeState) (m : Member) : Type 0 where
  pub sequenced : is_bypassed m.pod ≡ false
  pub pinned : m.node ≢ ""
  pub state : NodeState
  pub found : state_of states m.node ≡ some state
  pub participating : state.participating ≡ true
  pub behind : state.satisfied < m.group

pub data Outcome (seq : PodSequence) (now : ℕ) (plan : NodePlan) (m : Member) (plan' : NodePlan)
    : Type 0 where
  idle : has_gate m.pod (gate_name seq) ≡ false → plan' ≡ plan → Outcome seq now plan m plan'
  released :
      (a : PodAction)
      → has_gate m.pod (gate_name seq) ≡ true
      → MayGo plan.nodes m
      → a.pod ≡ m.pod
      → a.group ≡ some m.group
      → plan' ≡ push plan a
      → Outcome seq now plan m plan'
  held :
      has_gate m.pod (gate_name seq) ≡ true
      → MustWait plan.nodes m
      → plan' ≡ hold seq now plan m
      → Outcome seq now plan m plan'

module _ (seq : PodSequence) (now : ℕ) (plan : NodePlan) (m : Member)
    (gated : has_gate m.pod (gate_name seq) ≡ true) where
  unpinned_outcome : m.node ≡ "" → Outcome seq now plan m (push plan (unpinned_action plan m))
  unfolding unpinned_action
  unpinned_outcome e =
      released (unpinned_action plan m) gated (inr (inl e)) (ground arith) (ground arith) refl

  pinned_outcome :
      is_bypassed m.pod ≡ false
      → m.node ≢ ""
      → (o : Option NodeState) → state_of plan.nodes m.node ≡ o
      → Outcome seq now plan m (release_pinned seq now plan m o)
  unfolding release_pinned
  pinned_outcome s pin none e = released _ gated (inr (inr (rw e tt))) refl refl refl
  pinned_outcome s pin (some st) e = elim (Bool-cases st.participating) [
    | inr out ↦
        rw (out, if◌then◌else◌) (released _ gated (inr (inr (rw e (inl out)))) refl refl refl)
    | inl part ↦ elim (Bool-cases (leb m.group st.satisfied)) [
      | inl done ↦
          rw (part, done, if◌then◌else◌)
            (released _ gated (inr (inr (rw e (inr (leb→le _ _ done))))) refl refl refl)
      | inr behind ↦
          rw (part, behind, if◌then◌else◌)
            (held gated
              (record {
                sequenced = s;
                pinned = pin;
                state = st;
                found = e;
                participating = part;
                behind = ground arith;
              })
              refl)
    ]
  ]

pub release_member_outcome :
    (seq : PodSequence) (now : ℕ) (plan : NodePlan) (m : Member)
    → Outcome seq now plan m (release_member seq now plan m)
unfolding release_member
release_member_outcome seq now plan m = elim (Bool-cases (has_gate m.pod (gate_name seq))) [
  | inr e ↦ rw (e, if◌then◌else◌) (idle e refl)
  | inl gated ↦ elim (Bool-cases (is_bypassed m.pod)) [
    | inl b ↦ rw (gated, b, if◌then◌else◌) (released _ gated (inl b) refl refl refl)
    | inr b ↦ elim (Bool-cases (m.node == "")) [
      | inl e ↦
          rw (gated, b, e, if◌then◌else◌)
            (unpinned_outcome seq now plan m gated ((str_eq_iff m.node "").0 e))
      | inr e ↦
          rw (gated, b, e, if◌then◌else◌)
            (pinned_outcome seq now plan m gated b (λ q. ground (arith, (str_eq_iff m.node "").1 q))
              (state_of plan.nodes m.node) refl)
    ]
  ]
]
