-- ===== src/Controller/NodeSync.antt =====
-- `setNodeKey` (internal/controller/podsequence_controller.go): a node's label and taint of the key
-- after its calls.
use podsequencing.Base.{
  String, ◌≡◌, inl, inr, append_assoc, refl, sym, ap, ◌∙◌, true, false, Option, none, some, [], ◌∷◌,
  ◌++◌, arith, Error, ◌==◌, string_eq, str_eq_iff, Bool-cases, if◌then◌else◌, lookup, value_of,
}
use podsequencing.Kubernetes.{Node, Labels, Taint}
use podsequencing.Controller.Api.{Api, History, Call, LabelPatch, patch_labels, patch_taints}
use podsequencing.Controller.NodeKeys.{
  label_differs, next_taints, patch_node_labels, patch_node_taints, set_node_taint, after_label,
  set_node_key,
}
use podsequencing.Controller.Taints.{
  own, foreign, wanted_list, HasKey, next_taints_exact, next_taints_unchanged, next_taints_quiet,
}
use podsequencing.Controller.Echo.{
  IsEchoing, effect_on, replay, patched, lookup-erase, lookup-insert, lookup-value_of,
  value_of-lookup,
}

abbrev wanted_value : String → Option String
wanted_value want = if want == "" then none else some want

-- The node carries the wanted label and taint under the key; its other taints are those of `before`.
pub record IsSynced (key want_label : String) (want_taint : Option Taint) (before after : Node)
    : Type 0 where
  pub label : lookup key after.labels ≡ wanted_value want_label
  pub taint : own key after.taints ≡ wanted_list want_taint
  pub others : foreign key after.taints ≡ foreign key before.taints

label_settled :
    (labels : Labels) (key want : String)
    → label_differs labels key want ≡ false
    → lookup key labels ≡ wanted_value want
unfolding label_differs
label_settled labels key want e = elim (Bool-cases (want == "")) [
  | inl f ↦ ground arith
  | inr f ↦
      rw (f, if◌then◌else◌)
        (lookup-value_of key want labels (ground (arith, str_eq_iff (value_of key labels) want)) f)
]

label_patched :
    (labels : Labels) (key want : String)
    → lookup key (patched ((key, wanted_value want) ∷ []) labels) ≡ wanted_value want
label_patched labels key want = elim (Bool-cases (want == "")) [
  | inl f ↦ rw (f, if◌then◌else◌) (lookup-erase key labels)
  | inr f ↦ rw (f, if◌then◌else◌) (lookup-insert key want labels)
]

replay-append :
    (calls : History) (c : Call) (node : Node)
    → replay (calls ++ (c ∷ [])) node ≡ replay calls (replay (c ∷ []) node)
replay-append [] c node = refl
replay-append (d ∷ calls) c node = ap (effect_on d) (replay-append calls c node)

module _ (api : Api) (echo : IsEchoing api) (key : String) (want_taint : Option Taint)
    (has_key : HasKey key want_taint) where
  -- A run that reports no error and whose calls bring about `P`.
  abbrev Brings : (Node → Type 0) → Node → History → Option Error × History → Type 0
  Brings P node h r = (calls : History) × (r.0 ≡ none) × (r.1 ≡ calls ++ h) × P (replay calls node)

  set_node_taint-Brings :
      (node : Node) (h : History)
      → Brings
          (λ n.
            (n.labels ≡ node.labels)
            × (own key n.taints ≡ wanted_list want_taint)
            × (foreign key n.taints ≡ foreign key node.taints))
          node
          h
          (set_node_taint api node key want_taint h)
  unfolding set_node_taint patch_node_taints
  set_node_taint-Brings node h =
      let (mine, others) = next_taints_exact key want_taint node.taints has_key in
      elim (Bool-cases (next_taints key want_taint node.taints).1) [
        | inl e ↦
            rw (e, if◌then◌else◌, echo.echo_taints h node)
              (
                patch_taints node (next_taints key want_taint node.taints).0 ∷ [],
                refl,
                refl,
                (refl, mine, others),
              )
        | inr e ↦
            let same = next_taints_unchanged key want_taint node.taints e in
            rw (e, if◌then◌else◌) ([], refl, refl, (refl, rw same at mine, refl))
      ]

  abbrev label_patch : String → LabelPatch
  label_patch want_label = (key, wanted_value want_label) ∷ []

  abbrev relabelled : Node → String → Node
  relabelled node want_label = record node { labels = patched (label_patch want_label) node.labels }

  patch_node_labels-echo :
      (node : Node) (patch : LabelPatch) (h : History)
      → patch_node_labels api node patch h
        ≡ ((none, record node { labels = patched patch node.labels }), patch_labels node patch ∷ h)
  unfolding patch_node_labels
  patch_node_labels-echo node patch h = rw (echo.echo_labels h node patch)

  set_node_key-patching :
      (node : Node) (want_label : String) (h : History)
      → label_differs node.labels key want_label ≡ true
      → set_node_key api node key want_label want_taint h
        ≡ set_node_taint api
            (relabelled node want_label)
            key
            want_taint
            (patch_labels node (label_patch want_label) ∷ h)
  unfolding set_node_key after_label
  set_node_key-patching node want_label h e =
      rw (e, if◌then◌else◌)
        (ap (λ r. after_label api key want_taint r.0 r.1)
          (patch_node_labels-echo node (label_patch want_label) h))

  -- Against an API server that accepts its patches and for a wanted taint of the key, or none,
  -- `setNodeKey` reports no error, and its calls leave the node the wanted label, exactly the
  -- wanted taint of the key, and all other taints.
  pub set_node_key-IsSynced :
      (node : Node) (want_label : String) (h : History)
      → (calls : History) × ((set_node_key api node key want_label want_taint h).0 ≡ none)
        × ((set_node_key api node key want_label want_taint h).1 ≡ calls ++ h)
        × IsSynced key want_label want_taint node (replay calls node)
  unfolding set_node_key
  set_node_key-IsSynced node want_label h =
      elim (Bool-cases (label_differs node.labels key want_label)) [
        | inr e ↦
            let (calls, ok, log, (labels, mine, others)) = set_node_taint-Brings node h in
            rw (e, if◌then◌else◌)
              (
                calls,
                ok,
                log,
                record {
                  label = ap (lookup key) labels ∙ label_settled node.labels key want_label e;
                  taint = mine;
                  others = others;
                },
              )
        | inl e ↦
            let node' = relabelled node want_label in
            let call = patch_labels node (label_patch want_label) in
            let (calls, ok, log, (labels, mine, others)) = set_node_taint-Brings node' (call ∷ h) in
            let end = replay-append calls call node in
            rw (set_node_key-patching node want_label h e) (
              calls ++ (call ∷ []),
              ok,
              log ∙ sym (append_assoc calls (call ∷ []) h),
              record {
                label =
                    ap (λ n. lookup key n.labels) end
                    ∙ ap (lookup key) labels
                    ∙ label_patched node.labels key want_label;
                taint = ap (λ n. own key n.taints) end ∙ mine;
                others = ap (λ n. foreign key n.taints) end ∙ others;
              },
            )
      ]

label_quiet :
    (labels : Labels) (key want : String)
    → lookup key labels ≡ wanted_value want
    → label_differs labels key want ≡ false
unfolding label_differs
label_quiet labels key want e = elim (Bool-cases (want == "")) [
  | inl f ↦ ground arith
  | inr f ↦
      let same : value_of key labels ≡ want = value_of-lookup key want labels (ground arith) in
      ground (arith, str_eq_iff (value_of key labels) want)
]

-- On a node that carries the wanted label and exactly the wanted taint of the key, or neither where
-- none is wanted, `setNodeKey` calls nothing and reports no error.
pub set_node_key-quiet :
    (api : Api) (key want_label : String) (want_taint : Option Taint) (node : Node) (h : History)
    → HasKey key want_taint
    → lookup key node.labels ≡ (if want_label == "" then none else some want_label)
    → own key node.taints ≡ wanted_list want_taint
    → set_node_key api node key want_label want_taint h ≡ (none, h)
unfolding set_node_key set_node_taint
set_node_key-quiet api key want_label want_taint node h has_key label taint = rw (
  label_quiet node.labels key want_label label,
  next_taints_quiet key want_taint node.taints has_key taint,
  if◌then◌else◌,
)
