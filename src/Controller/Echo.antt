-- ===== src/Controller/Echo.antt =====
-- An API server that accepts every patch and answers with the patched object: the documented
-- behaviour where no other client interferes. `replay` is what the recorded calls make of a node.
use podsequencing.Base.{
  String, ◌≡◌, refl, false, none, some, List, [], ◌∷◌, arith, ok, ◌==◌, ◌!=◌, string_eq, str_eq_iff,
  keep, lookup, insert, value_of,
}
use podsequencing.Kubernetes.{Pod, Node, Labels, Taint}
use podsequencing.Controller.Api.{Api, History, Call, LabelPatch, patch_labels, patch_taints}

abbrev pub erase : String → Labels → Labels
erase key = keep (λ kv. kv.0 != key)

-- A merge patch on the labels.
abbrev pub patched : LabelPatch → Labels → Labels
patched [] labels = labels
patched ((k, none) ∷ patch) labels = patched patch (erase k labels)
patched ((k, some v) ∷ patch) labels = patched patch (insert k v labels)

pub record IsEchoing (api : Api) : Type 0 where
  pub echo_pod : (h : History) (old new : Pod) → api.answer_patch_pod h old new ≡ ok new
  pub echo_labels :
      (h : History) (node : Node) (patch : LabelPatch)
      → api.answer_patch_labels h node patch
        ≡ ok (record node { labels = patched patch node.labels })
  pub echo_taints :
      (h : History) (node : Node) (taints : List Taint)
      → api.answer_patch_taints h node taints ≡ ok (record node { taints = taints })

abbrev pub effect_on : Call → Node → Node
effect_on (patch_labels n patch) node = record node { labels = patched patch node.labels }
effect_on (patch_taints n taints) node = record node { taints = taints }
effect_on _ node = node

-- The last call comes first.
abbrev pub replay : History → Node → Node
replay [] node = node
replay (c ∷ calls) node = effect_on c (replay calls node)

pub lookup-erase : (key : String) (labels : Labels) → lookup key (erase key labels) ≡ none
lookup-erase key [] = refl
lookup-erase key ((k, v) ∷ labels) = ground (arith, lookup-erase key labels, str_eq_iff k key)

pub lookup-insert :
    (key value : String) (labels : Labels) → lookup key (insert key value labels) ≡ some value
lookup-insert key value [] = ground (arith, str_eq_iff key key)
lookup-insert key value ((k, v) ∷ labels) =
    ground (arith, lookup-insert key value labels, str_eq_iff k key, str_eq_iff key key)

pub lookup-value_of :
    (key value : String) (labels : Labels)
    → value_of key labels ≡ value
    → (value == "") ≡ false
    → lookup key labels ≡ some value
lookup-value_of key value [] e n = absurd (ground (arith, str_eq_iff value ""))
lookup-value_of key value ((k, v) ∷ labels) e n = ground (arith, lookup-value_of key value labels)

pub value_of-lookup :
    (key value : String) (labels : Labels)
    → lookup key labels ≡ some value
    → value_of key labels ≡ value
value_of-lookup key value [] e = absurd (grind arith)
value_of-lookup key value ((k, v) ∷ labels) e = ground (arith, value_of-lookup key value labels)
