-- ===== src/Plan/States.antt =====
-- The loop over the nodes (internal/controller/nodeplan.go) and the states that it makes.
use mathlib.Core.List.{Memᴰ}
use podsequencing.Base.{
  ℕ, String, ◌≡◌, ◌≢◌, refl, sym, ap, ◌∙◌, subst, ◌↔◌, inl, inr, true, false, none, some, List, [],
  ◌∷◌, arith, ◌==◌, string_eq, str_eq_iff, Bool-cases, if◌then◌else◌, text_lt,
}
use mathlib.Core.Option.{some-injective}
use podsequencing.Kubernetes.{Node}
use podsequencing.Kubernetes.Platform.{Platform, Selector}
use podsequencing.Plan.Data.{NodeState, Member, GroupInfo}
use podsequencing.Plan.Nodes.{
  insert_node, sort_nodes, advance, participates, node_state, node_states,
}
use podsequencing.Plan.Release.{state_of}

mem_swap : {x m n : Node} {ms : List Node} → Memᴰ x (m ∷ n ∷ ms) → Memᴰ x (n ∷ m ∷ ms)
mem_swap (Memᴰ.head q) = Memᴰ.tail (Memᴰ.head q)
mem_swap (Memᴰ.tail (Memᴰ.head q)) = Memᴰ.head q
mem_swap (Memᴰ.tail (Memᴰ.tail k)) = Memᴰ.tail (Memᴰ.tail k)

mem_grow :
    {x m : Node} {xs ys : List Node} → (Memᴰ x xs → Memᴰ x ys) → Memᴰ x (m ∷ xs) → Memᴰ x (m ∷ ys)
mem_grow f (Memᴰ.head q) = Memᴰ.head q
mem_grow f (Memᴰ.tail k) = Memᴰ.tail (f k)

insert_node-mem : (n x : Node) (ns : List Node) → Memᴰ x (insert_node n ns) ↔ Memᴰ x (n ∷ ns)
unfolding insert_node
insert_node-mem n x [] = (λ l. l, λ l. l)
insert_node-mem n x (m ∷ ms) =
    let (to, from) = insert_node-mem n x ms in
    elim (Bool-cases (text_lt m.name n.name)) [
      | inr e ↦ rw (e, if◌then◌else◌) (λ l. l, λ l. l)
      | inl e ↦
          rw (e, if◌then◌else◌) (λ l. mem_swap (mem_grow to l), λ l. mem_grow from (mem_swap l))
    ]

pub sort_nodes-mem : (x : Node) (ns : List Node) → Memᴰ x (sort_nodes ns) ↔ Memᴰ x ns
unfolding sort_nodes
sort_nodes-mem x [] = (λ l. l, λ l. l)
sort_nodes-mem x (n ∷ ns) =
    let (to, from) = insert_node-mem n x (sort_nodes ns) in
    let (to', from') = sort_nodes-mem x ns in
    (λ l. mem_grow to' (to l), λ l. from (mem_grow from' l))

-- What a state says of its node.
pub data Describes (p : Platform) (members : List Member) (now : ℕ) (key : String) (sel : Selector)
    (infos : List GroupInfo) (node : Node) (st : NodeState) : Type 0 where
  outside :
      participates sel node ≡ false
      → st.participating ≡ false
      → Describes p members now key sel infos node st
  inside :
      (after : ℕ)
      → participates sel node ≡ true
      → st.participating ≡ true
      → st.satisfied ≡ (advance p members now key node infos 0 after).satisfied
      → Describes p members now key sel infos node st

module _ (p : Platform) (members : List Member) (now : ℕ) (key : String) (sel : Selector)
    (infos : List GroupInfo) where
  node_state-Describes :
      (node : Node) (after : ℕ)
      → Describes p members now key sel infos node
          (node_state p members now key sel infos node after).0
  unfolding node_state
  node_state-Describes node after = elim (Bool-cases (participates sel node)) [
    | inl e ↦ rw (e, if◌then◌else◌) (inside after e refl refl)
    | inr e ↦ rw (e, if◌then◌else◌) (outside e refl)
  ]

  node_state-name :
      (node : Node) (after : ℕ)
      → (node_state p members now key sel infos node after).0.name ≡ node.name
  unfolding node_state
  node_state-name node after = ground arith

  pub node_states-some :
      (nodes : List Node) (after : ℕ) (name : String) (st : NodeState)
      → state_of (node_states p members now key sel infos nodes after).0 name ≡ some st
      → (node : Node) × Memᴰ node nodes
        × (node.name ≡ name)
        × Describes p members now key sel infos node st
  unfolding node_states state_of
  node_states-some [] after name st e = absurd (grind arith)
  node_states-some (node ∷ nodes) after name st e =
      let here = node_state p members now key sel infos node after in
      elim (Bool-cases (here.0.name == name)) [
        | inl same ↦ (
          node,
          Memᴰ.head refl,
          sym (node_state-name node after) ∙ (str_eq_iff here.0.name name).0 same,
          subst (Describes p members now key sel infos node)
              (some-injective _ _ (rw (same, if◌then◌else◌) at e))
              (node_state-Describes node after),
        )
        | inr other ↦
            let (n, l, q, d) =
              node_states-some nodes here.1 name st (rw (other, if◌then◌else◌) at e) in
            (n, Memᴰ.tail l, q, d)
      ]

  pub node_states-none :
      (nodes : List Node) (after : ℕ) (name : String) (node : Node)
      → state_of (node_states p members now key sel infos nodes after).0 name ≡ none
      → Memᴰ node nodes
      → node.name ≢ name
  unfolding node_states state_of
  node_states-none [] after name node e l = elim l [ ]
  node_states-none (n ∷ nodes) after name node e l =
      let here = node_state p members now key sel infos n after in
      elim (Bool-cases (here.0.name == name)) [
        | inl same ↦ absurd (grind arith)
        | inr other ↦ elim l [
          | Memᴰ.head q ↦ λ s.
              let named : here.0.name ≡ name =
                node_state-name n after ∙ ap (λ (x : Node). x.name) (sym q) ∙ s in
              absurd (grind (arith, str_eq_iff here.0.name name))
          | Memᴰ.tail k ↦ node_states-none nodes here.1 name node (rw (other, if◌then◌else◌) at e) k
        ]
      ]
