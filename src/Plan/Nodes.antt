-- ===== src/Plan/Nodes.antt =====
-- internal/controller/nodeplan.go, `ComputeNodePlan`: the sort of the nodes and the loop over them.
use podsequencing.Base.{
  ℕ, suc, String, Bool, true, false, none, some, List, [], ◌∷◌, if◌then◌else◌, text_lt,
}
use podsequencing.Kubernetes.{Node}
use podsequencing.Kubernetes.Platform.{Platform, Selector}
use podsequencing.Plan.Data.{NodeState, Member, GroupInfo, requeue}
use podsequencing.Plan.Members.{pods_of}
use podsequencing.Plan.Satisfied.{group_satisfied_on_node}

-- `sort.Slice` by name, as an insertion sort. Node names are unique in a cluster, so any sort gives
-- this list.
unfoldable pub insert_node : Node → List Node → List Node
insert_node n [] = n ∷ []
insert_node n (m ∷ ms) = if text_lt m.name n.name then m ∷ insert_node n ms else n ∷ m ∷ ms

unfoldable pub sort_nodes : List Node → List Node
unfolding insert_node
sort_nodes [] = []
sort_nodes (n ∷ ns) = insert_node n (sort_nodes ns)

-- What the loop over the groups leaves: `st.Satisfied`, `st.Message` and `plan.RequeueAfter`.
pub record Progress : Type 0 where
  pub satisfied : ℕ
  pub message : String
  pub requeue_after : ℕ

-- `st.Participating`
unfoldable pub participates : Selector → Node → Bool
participates sel node = elim node.deletion_timestamp [ none ↦ sel node.labels | some t ↦ false ]

module _ (p : Platform) (members : List Member) (now : ℕ) (key : String) where
  -- The loop over the groups from index `j`, with its break.
  unfoldable pub advance : Node → List GroupInfo → ℕ → ℕ → Progress
  advance node [] j after = record { satisfied = j; message = ""; requeue_after = after }
  advance node (info ∷ infos) j after =
      let v = group_satisfied_on_node p info j node (pods_of members node.name j) now key in
      let after' = requeue after v.remaining in
      let rest = advance node infos (suc j) after' in
      if v.satisfied
      then rest
      else record { satisfied = j; message = v.message; requeue_after = after' }

  unfoldable pub node_state : Selector → List GroupInfo → Node → ℕ → NodeState × ℕ
  node_state sel infos node after =
      let r = advance node infos 0 after in
      let idle : NodeState = record {
        name = node.name;
        participating = false;
        satisfied = 0;
        message = "";
        failed = false;
      } in
      if participates sel node
      then (
        record idle { participating = true; satisfied = r.satisfied; message = r.message },
        r.requeue_after,
      )
      else (idle, after)

  unfoldable pub node_states : Selector → List GroupInfo → List Node → ℕ → List NodeState × ℕ
  node_states sel infos [] after = ([], after)
  node_states sel infos (node ∷ nodes) after =
      let (st, after') = node_state sel infos node after in
      let (sts, after'') = node_states sel infos nodes after' in (st ∷ sts, after'')
