-- ===== src/Config/Lists.antt =====
-- The lists of texts in a configuration.
use mathlib.Core.List.{append_assoc, append-nil}
use scinit.Base.{
  ◌≡◌, ◌⊎◌, ◌↔◌, inl, inr, refl, sym, ap, ◌∙◌, Option, none, some, List, [], ◌∷◌, ◌++◌, map, Text,
  ok, ok-injective, some-injective,
}
use scinit.Config.{ListNode, push_strings, yaml_node_to_str_list}

push_strings-map : (list rest : List Text) → push_strings (map some rest) list ≡ ok (list ++ rest)
unfolding push_strings
push_strings-map list [] = ap ok (sym (append-nil list))
push_strings-map list (str ∷ rest) =
    push_strings-map (list ++ str ∷ []) rest ∙ ap ok (append_assoc list (str ∷ []) rest)

push_strings-eq-ok :
    (node : List (Option Text)) (list result : List Text)
    → push_strings node list ≡ ok result
    → (rest : List Text) × (node ≡ map some rest) × (result ≡ list ++ rest)
unfolding push_strings
push_strings-eq-ok [] list result e = ([], refl, sym (ok-injective e) ∙ sym (append-nil list))
push_strings-eq-ok (none ∷ node) list result e = absurd (cc e)
push_strings-eq-ok (some str ∷ node) list result e =
    let (rest, all, same) = push_strings-eq-ok node (list ++ str ∷ []) result e in
    (str ∷ rest, ap (λ n. some str ∷ n) all, same ∙ append_assoc list (str ∷ []) rest)

-- A key gives a list of texts exactly if it is missing, and the list is empty, or if each of its
-- elements is a text, and the list holds them in their order.
pub yaml_node_to_str_list_iff :
    (node : ListNode) (list : List Text)
    → (yaml_node_to_str_list node ≡ ok list)
      ↔ (((node ≡ none) × (list ≡ [])) ⊎ (node ≡ some (map some list)))
unfolding yaml_node_to_str_list
yaml_node_to_str_list_iff none list = (
  λ e. inl (refl, sym (ok-injective e)),
  λ c. elim c [ inl (_, empty) ↦ ap ok (sym empty) | inr e ↦ absurd (cc e) ],
)
yaml_node_to_str_list_iff (some node) list = (
  (λ e.
      let (rest, all, same) = push_strings-eq-ok node [] list e in
      inr (ap some (all ∙ ap (map some) (sym same)))),
  λ c. elim c [
    | inl (missing, _) ↦ absurd (cc missing)
    | inr e ↦ ap (λ n. push_strings n []) (some-injective e) ∙ push_strings-map [] list
  ],
)
