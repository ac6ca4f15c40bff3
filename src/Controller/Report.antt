-- ===== src/Controller/Report.antt =====
-- What `setNodeScopedStatus` (internal/controller/podsequence_controller.go) reports of a plan.
use mathlib.Core.List.{Memᴰ}
use podsequencing.Base.{
  ℕ, ◌+◌, ◌≤◌, ◌≡◌, ◌↔◌, ◌⊎◌, inl, inr, refl, sym, Bool, true, not, ◌&&◌, some, List, [], ◌∷◌, ◌++◌,
  map, append_assoc, append-nil, arith, ◌==◌, nat_eq, string_eq, str_eq_iff, ltb, leb,
  if◌then◌else◌, Bool-cases, take, keep, count, All,
}
use podsequencing.Types.{
  PodSequence, PodSequenceStatus, phase_active, phase_in_progress, phase_failed,
}
use podsequencing.Plan.Data.{NodeState, NodePlan}
use podsequencing.Controller.Api.{Api, History}
use podsequencing.Controller.Status.{
  Tally, no_nodes, entry_of, tally_node, tally_nodes, node_status, set_node_scoped_status,
}

-- `i` is the least of `start` and the indices of the participating nodes.
pub record IsLeast (start : ℕ) (sts : List NodeState) (i : ℕ) : Type 0 where
  pub bounded : i ≤ start
  pub below : All (λ st. st.participating ≡ true → i ≤ st.satisfied) sts
  pub attained :
      (i ≡ start)
      ⊎ ((st : NodeState) × Memᴰ st sts × (st.participating ≡ true) × (i ≡ st.satisfied))

module _ (num_groups : ℕ) where
  abbrev pub is_done : NodeState → Bool
  is_done st = st.participating && leb num_groups st.satisfied

  abbrev pub is_late : NodeState → Bool
  is_late st = st.participating && (not (leb num_groups st.satisfied) && st.failed)

  abbrev pub is_open : NodeState → Bool
  is_open st = st.participating && (not (leb num_groups st.satisfied) && not st.failed)

  record Adds (t : Tally) (sts : List NodeState) (r : Tally) : Type 0 where
    total : r.total ≡ t.total + count (λ st. st.participating) sts
    satisfied : r.satisfied ≡ t.satisfied + count is_done sts
    failed : r.failed ≡ t.failed + count is_late sts
    failed_entries :
        r.failed_entries ≡ t.failed_entries ++ map (entry_of phase_failed) (keep is_late sts)
    pending_entries :
        r.pending_entries ≡ t.pending_entries ++ map (entry_of phase_in_progress) (keep is_open sts)

  tally_nodes-Adds : (t : Tally) (sts : List NodeState) → Adds t sts (tally_nodes num_groups t sts)
  unfolding tally_nodes tally_node
  tally_nodes-Adds t [] = record {
    total = omega arith;
    satisfied = omega arith;
    failed = omega arith;
    failed_entries = sym (append-nil t.failed_entries);
    pending_entries = sym (append-nil t.pending_entries);
  }
  tally_nodes-Adds t (st ∷ sts) =
      let ih = tally_nodes-Adds (tally_node num_groups t st) sts in
      record {
        total = ground (arith, ih.total);
        satisfied = ground (arith, ih.satisfied);
        failed = ground (arith, ih.failed);
        failed_entries = ground (
          arith,
          ih.failed_entries,
          append_assoc t.failed_entries (entry_of phase_failed st ∷ [])
              (map (entry_of phase_failed) (keep is_late sts)),
        );
        pending_entries = ground (
          arith,
          ih.pending_entries,
          append_assoc t.pending_entries (entry_of phase_in_progress st ∷ [])
              (map (entry_of phase_in_progress) (keep is_open sts)),
        );
      }

  tally_nodes-IsLeast :
      (t : Tally) (sts : List NodeState)
      → IsLeast t.min_index sts (tally_nodes num_groups t sts).min_index
  unfolding tally_nodes tally_node
  tally_nodes-IsLeast t [] = record { bounded = omega arith; below = tt; attained = inl refl }
  tally_nodes-IsLeast t (st ∷ sts) =
      let ih = tally_nodes-IsLeast (tally_node num_groups t st) sts in
      record {
        bounded = ground (arith, ih.bounded);
        below = (λ p. ground (arith, ih.bounded), ih.below);
        attained = elim ih.attained [
          | inr (s, m, p, e) ↦ inr (s, Memᴰ.tail m, p, e)
          | inl e ↦ elim (Bool-cases (st.participating && ltb st.satisfied t.min_index)) [
            | inl y ↦ inr (st, Memᴰ.head refl, ground arith, ground (arith, e))
            | inr n ↦ inl (ground (arith, e))
          ]
        ];
      }

  done_le : (sts : List NodeState) → count is_done sts ≤ count (λ st. st.participating) sts
  done_le [] = omega arith
  done_le (st ∷ sts) = ground (arith, done_le sts)

  abbrev AllDone : List NodeState → Type 0
  AllDone = All (λ st. st.participating ≡ true → num_groups ≤ st.satisfied)

  done_all :
      (sts : List NodeState)
      → (count is_done sts ≡ count (λ st. st.participating) sts) ↔ AllDone sts
  done_all [] = (λ e. tt, λ h. refl)
  done_all (st ∷ sts) = (
    λ e. (λ p. ground (arith, done_le sts), (done_all sts).0 (ground (arith, done_le sts))),
    λ (first, rest).
        let ih = (done_all sts).1 rest in
        elim (Bool-cases st.participating) [
          | inl p ↦ let le = first p in ground (arith, ih)
          | inr p ↦ ground (arith, ih)
        ],
  )

module _ (api : Api) (orig seq : PodSequence) (plan : NodePlan) (h : History) where
  abbrev reported : PodSequenceStatus
  reported = (set_node_scoped_status api orig seq plan h).0.status

  abbrev tallied : Tally
  tallied = tally_nodes plan.num_groups (no_nodes plan.num_groups) plan.nodes

  reported_lem : reported ≡ node_status api seq tallied plan
  unfolding set_node_scoped_status
  reported_lem = ground arith

  -- The summary counts the participating nodes, those of them with all groups satisfied, those that
  -- are behind and marked failed, and the plan's gated pods. The entries are the failed nodes and
  -- then the other nodes that are behind, each in the plan's order, cut after 50, with the node's
  -- index and message.
  pub set_node_scoped_status-entries :
      ((set_node_scoped_status api orig seq plan h).0.status.node_status
        ≡ take 50 (
            map (entry_of phase_failed) (keep (is_late plan.num_groups) plan.nodes)
            ++ map (entry_of phase_in_progress) (keep (is_open plan.num_groups) plan.nodes)))
      × ((set_node_scoped_status api orig seq plan h).0.status.summary
          ≡ some (record {
            total_nodes = count (λ st. st.participating) plan.nodes;
            satisfied_nodes = count (is_done plan.num_groups) plan.nodes;
            failed_nodes = count (is_late plan.num_groups) plan.nodes;
            gated_pods = plan.gated_pods;
          }))
  unfolding node_status
  set_node_scoped_status-entries =
      let sums = tally_nodes-Adds plan.num_groups (no_nodes plan.num_groups) plan.nodes in
      let total : tallied.total ≡ count (λ st. st.participating) plan.nodes =
        omega (arith, sums.total) in
      let satisfied : tallied.satisfied ≡ count (is_done plan.num_groups) plan.nodes =
        omega (arith, sums.satisfied) in
      let failed : tallied.failed ≡ count (is_late plan.num_groups) plan.nodes =
        omega (arith, sums.failed) in
      rw reported_lem
        (rw (total, satisfied, failed, sums.failed_entries, sums.pending_entries) (refl, refl))

  -- The phase is Active exactly when every participating node of the plan has all groups satisfied,
  -- and it is Active or InProgress.
  pub set_node_scoped_status-phase :
      (((set_node_scoped_status api orig seq plan h).0.status.phase ≡ phase_active)
        ↔ All (λ st. st.participating ≡ true → plan.num_groups ≤ st.satisfied) plan.nodes)
      × (((set_node_scoped_status api orig seq plan h).0.status.phase ≡ phase_active)
          ⊎ ((set_node_scoped_status api orig seq plan h).0.status.phase ≡ phase_in_progress))
  unfolding node_status
  set_node_scoped_status-phase =
      let sums = tally_nodes-Adds plan.num_groups (no_nodes plan.num_groups) plan.nodes in
      let (onto, back) = done_all plan.num_groups plan.nodes in
      let differ = str_eq_iff phase_in_progress phase_active in
      rw reported_lem (elim (Bool-cases (tallied.satisfied == tallied.total)) [
        | inl e ↦
            rw (e, if◌then◌else◌)
              ((λ _. onto (ground (arith, sums.total, sums.satisfied)), λ _. refl), inl refl)
        | inr e ↦
            rw (e, if◌then◌else◌)
              (
                (
                  λ q. absurd (ground (arith, differ)),
                  λ all. absurd (let same = back all in ground (arith, sums.total, sums.satisfied)),
                ),
                inr refl,
              )
      ])

  -- The current index is at most the number of groups and the number of satisfied groups of each
  -- participating node, and it is one of these numbers.
  pub set_node_scoped_status-IsLeast :
      IsLeast plan.num_groups plan.nodes
        (set_node_scoped_status api orig seq plan h).0.status.current_index
  unfolding node_status
  set_node_scoped_status-IsLeast =
      rw reported_lem (tally_nodes-IsLeast plan.num_groups (no_nodes plan.num_groups) plan.nodes)
