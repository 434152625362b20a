-- ===== src/Output/Namespacing/Collisions.antt =====
-- The names that `namespaceStructId` of src/output/cwriter/namespacing.go gives.
use eyot.Prelude.{
  ◌≡◌, refl, sym, ap, ◌∙◌, [], ◌∷◌, ◌++◌, append_assoc, Text, codes, ℕ, false, ◌==◌, if◌then◌else◌,
}
use eyot.Ast.Ids.{ModuleId, replace_all}
use eyot.Output.Namespacing.{escape_module_cpt, escaped_components, namespace_struct_id}

replace_all-append :
    (from to : ℕ) (xs ys : Text)
    → replace_all from to (xs ++ ys) ≡ replace_all from to xs ++ replace_all from to ys
unfolding replace_all
replace_all-append from to [] ys = refl
replace_all-append from to (x ∷ xs) ys =
    ap (λ r. (if x == from then to else x) ∷ r) (replace_all-append from to xs ys)

-- A struct of the module a/b (and its submodules) has the C name of the struct of the same name in
-- the module a_b.
namespace_struct_id-collision :
    (a b : Text) (rest : ModuleId) (name : Text)
    → namespace_struct_id (record { module_id = a ∷ b ∷ rest; name = name })
      ≡ namespace_struct_id (record { module_id = (a ++ (b'_' ∷ b)) ∷ rest; name = name })
unfolding namespace_struct_id escaped_components escape_module_cpt replace_all
namespace_struct_id-collision a b rest name =
    let tail = escaped_components false rest in
    ap (λ r. r ++ (codes "__" ++ name))
      (sym (
        ap (λ r. r ++ tail) (replace_all-append b'-' b'_' a (b'_' ∷ b))
        ∙ append_assoc (escape_module_cpt a) (b'_' ∷ escape_module_cpt b) tail))
