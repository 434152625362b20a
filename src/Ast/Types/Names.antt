-- ===== src/Ast/Types/Names.antt =====
-- src/ast/types.go: the identifiers of types that name the generated C code and key the maps.
use eyot.Prelude.{
  ℕ, ◌≡◌, refl, Bool, List, [], ◌∷◌, ◌++◌, codes, text_eq, Text, ◌==◌, if◌then◌else◌, Outcome, ok,
  panic, ◌>>=◌, NoError,
}
use eyot.Ast.Ids.{ModuleId, StructId}
use eyot.Ast.Types.{
  Ty, type_of, Types, nil, cons, TypeSelector, FunctionLocation, Pointee, nothing, points_to,
}

abbrev pub Written : Type 0
Written = Outcome NoError Text

abbrev text : Text → Text → Text → Written
text a b c = ok (a ++ (b ++ c))

-- Something between an opening and a closing text.
abbrev pub between : Text → Written → Text → Written
between a m c = m >>= λ b. text a b c

-- The components of a module, the first behind `__` and each other behind `_`.
unfoldable pub write_module : Text → ModuleId → Text
write_module sep [] = []
write_module sep (cpt ∷ cpts) = sep ++ (cpt ++ write_module (codes "_") cpts)

-- What `writeId` writes of each element of `Types`.
abbrev pub WrittenTypes : Type 0
WrittenTypes = List Written

-- `ty.Types[0].writeId(w)` and `ty.Types[1].writeId(w)`, which panic out of range.
abbrev pub first : WrittenTypes → Written
first [] = panic
first (w ∷ _) = w

abbrev pub second : WrittenTypes → Written
second (_ ∷ w ∷ _) = w
second _ = panic

unfoldable pub concat : WrittenTypes → Written
concat [] = ok []
concat (w ∷ ws) = w >>= λ a. concat ws >>= λ b. ok (a ++ b)

-- `writeId` over what it writes of the parts of the type.
unfoldable pub write_id_of : TypeSelector → WrittenTypes → Written → StructId → ℕ → Written
unfolding write_module concat
write_id_of TypeSelector.null ts r sid width = ok (codes "l")
write_id_of TypeSelector.integer ts r sid width = ok (codes "i")
write_id_of TypeSelector.string ts r sid width = ok (codes "s")
write_id_of TypeSelector.boolean ts r sid width = ok (codes "b")
write_id_of TypeSelector.character ts r sid width = ok (codes "a")
write_id_of TypeSelector.float ts r sid width = ok (if width == 64 then codes "F" else codes "f")
write_id_of TypeSelector.void ts r sid width = ok (codes "v")
write_id_of TypeSelector.function ts r sid width = between (codes "n") r (codes "N")
write_id_of TypeSelector.closure ts r sid width = between (codes "b") r (codes "B")
write_id_of TypeSelector.struct ts r sid width =
    ok (codes "s_" ++ (sid.name ++ (write_module (codes "__") sid.module_id ++ codes "_S")))
write_id_of TypeSelector.vector ts r sid width = between (codes "v") (first ts) (codes "V")
write_id_of TypeSelector.worker ts r sid width =
    first ts >>= λ a. second ts >>= λ b. ok (codes "c" ++ (a ++ (codes "c" ++ (b ++ codes "C"))))
write_id_of TypeSelector.pointer ts r sid width = between (codes "p") (first ts) (codes "P")
write_id_of TypeSelector.tuple ts r sid width = between (codes "_") (concat ts) (codes "_")

unfoldable mutual
  unfolding write_id_of

  pub write_id : Ty → Written
  write_id (type_of s ts sid r _ _ _ width) =
      write_id_of s (write_types ts) (write_pointee r) sid width

  pub write_types : Types → WrittenTypes
  write_types nil = []
  write_types (cons t ts) = write_id t ∷ write_types ts

  -- A method call on a nil `Return` panics.
  pub write_pointee : Pointee → Written
  write_pointee nothing = panic
  write_pointee (points_to t) = write_id t

-- The text without one underscore at its end.
unfoldable pub trim_underscore : Text → Text
trim_underscore [] = []
trim_underscore (c ∷ []) = if c == b'_' then [] else c ∷ []
trim_underscore (c ∷ d ∷ cs) = c ∷ trim_underscore (d ∷ cs)

unfoldable pub namespaced_identifier : Text → Ty → Written
unfolding trim_underscore
namespaced_identifier ns ty =
    let prefix : Text = if text_eq ns [] then [] else codes "ey_" ++ ns in
    write_id ty >>= λ id. ok (trim_underscore (prefix ++ id))

abbrev pub tuple_identifier : Ty → Written
tuple_identifier = namespaced_identifier (codes "tuple")

abbrev pub raw_identifier : Ty → Written
raw_identifier = namespaced_identifier []

abbrev pub vector_add_name : Ty → Written
vector_add_name = namespaced_identifier (codes "vector_add_")

-- A callable type is named by its return type alone: two function types that differ in their
-- parameters, their bound struct or their location share every identifier.
identifier_of_callable :
    (ns : Text) (ts ts' : Types) (sid sid' : StructId) (r : Ty) (b b' : Bool) (n n' : Text)
    (l l' : FunctionLocation) (w w' : ℕ)
    → namespaced_identifier ns (type_of TypeSelector.function ts sid (points_to r) b n l w)
      ≡ namespaced_identifier ns (type_of TypeSelector.function ts' sid' (points_to r) b' n' l' w')
unfolding namespaced_identifier write_id
identifier_of_callable ns ts ts' sid sid' r b b' n n' l l' w w' = refl
