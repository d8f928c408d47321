-- ===== src/Utils/Decorate/TargetNode.antt =====
-- pkg/utils/kube.go: the nested loops of GetTargetNodeByAffinity.
use discoblock.Base.{◌≡◌, refl, List, [], ◌∷◌, ◌++◌, arith, ap, sym, ◌∙◌}
use discoblock.Kube.Objects.{NodeSelectorRequirement, NodeSelectorTerms}
use discoblock.Utils.Decorate.{first_some, scan_fields, scan_terms}

-- All match fields of all terms, in their order.
pub flat : NodeSelectorTerms → List NodeSelectorRequirement
flat [] = []
flat (term ∷ rest) = term ++ flat rest

scan_fields-append :
    (xs ys : List NodeSelectorRequirement)
    → scan_fields (xs ++ ys) ≡ first_some (scan_fields xs) (scan_fields ys)
unfolding scan_fields
scan_fields-append [] ys = refl
scan_fields-append (x ∷ xs) ys = ground (arith, scan_fields-append xs ys)

-- The node is named by the first match field, of any term, that names one.
pub scan_terms-flat : (terms : NodeSelectorTerms) → scan_terms terms ≡ scan_fields (flat terms)
unfolding scan_terms flat
scan_terms-flat [] = refl
scan_terms-flat (term ∷ rest) =
    ap (first_some (scan_fields term)) (scan_terms-flat rest)
    ∙ sym (scan_fields-append term (flat rest))
