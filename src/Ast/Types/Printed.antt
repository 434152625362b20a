-- ===== src/Ast/Types/Printed.antt =====
-- src/ast/types.go: the texts of types, String for messages and writeCType, which only calls itself.
use eyot.Prelude.{ℕ, [], ◌∷◌, ◌++◌, codes, Text, ok, panic, ◌>>=◌}
use eyot.Token.Printed.{Format}
use eyot.Ast.Ids.{StructId, module_key, struct_key}
use eyot.Ast.Types.{
  Ty, type_of, Types, nil, cons, TypeSelector, FunctionLocation, Pointee, nothing, points_to,
}
use eyot.Ast.Types.Names.{Written, WrittenTypes, first, second, between}

-- The texts with commas between
unfoldable pub with_commas : WrittenTypes → Written
with_commas [] = ok []
with_commas (w ∷ []) = w
with_commas (w ∷ v ∷ ws) = w >>= λ a. with_commas (v ∷ ws) >>= λ b. ok (a ++ (codes ", " ++ b))

unfoldable pub location_text : FunctionLocation → Text
location_text FunctionLocation.cpu = codes "(cpu)"
location_text FunctionLocation.gpu = codes "(gpu)"
location_text FunctionLocation.anywhere = []

-- `llr` of the source, from the returned type on
unfoldable pub callable_string : Text → Written → FunctionLocation → WrittenTypes → Written
unfolding with_commas location_text
callable_string kind r location ts = r >>= λ returned. with_commas ts >>= λ parameters.
    ok (returned ++ (kind ++ (location_text location ++ (codes "(" ++ (parameters ++ codes ")")))))

module _ (f : Format) where
  -- The cases of `String`, over the texts of the parts
  unfoldable pub string_of :
      TypeSelector → WrittenTypes → Written → StructId → FunctionLocation → ℕ → Written
  unfolding callable_string
  string_of TypeSelector.integer ts r sid l width = ok (codes "i64")
  string_of TypeSelector.string ts r sid l width = ok (codes "string")
  string_of TypeSelector.boolean ts r sid l width = ok (codes "boolean")
  string_of TypeSelector.character ts r sid l width = ok (codes "character")
  string_of TypeSelector.float ts r sid l width = ok (codes "f" ++ f.int width)
  string_of TypeSelector.void ts r sid l width = ok (codes "void")
  string_of TypeSelector.pointer ts r sid l width = between (codes "*") (first ts) []
  string_of TypeSelector.closure ts r sid l width = callable_string (codes "(closure)") r l ts
  string_of TypeSelector.function ts r sid l width = callable_string [] r l ts
  string_of TypeSelector.tuple ts r sid l width = between (codes "(") (with_commas ts) (codes ")")
  string_of TypeSelector.vector ts r sid l width = between (codes "[") (first ts) (codes "]")
  string_of TypeSelector.worker ts r sid l width =
      first ts >>= λ a. second ts >>= λ b. ok (codes "worker(" ++ (a ++ (codes ")" ++ b)))
  string_of TypeSelector.struct ts r sid l width =
      ok (codes "struct(" ++ (module_key sid.module_id ++ (codes ", " ++ (sid.name ++ codes ")"))))
  string_of TypeSelector.null ts r sid l width = ok (codes "null")

  -- `String`
  unfoldable mutual
    unfolding string_of

    pub type_string : Ty → Written
    type_string (type_of s ts sid r _ _ l width) =
        string_of s (type_strings ts) (pointee_string r) sid l width

    pub type_strings : Types → WrittenTypes
    type_strings nil = []
    type_strings (cons t ts) = type_string t ∷ type_strings ts

    -- A method call on a nil `Return` panics.
    pub pointee_string : Pointee → Written
    pointee_string nothing = panic
    pointee_string (points_to t) = type_string t

  -- The cases of `writeCType`; `strings` are the texts that `String` has for the parts.
  unfoldable pub c_type_of :
      TypeSelector → WrittenTypes → WrittenTypes → Written → StructId → ℕ → Written
  unfolding with_commas
  c_type_of TypeSelector.integer strings ts r sid width = ok (codes "i64")
  c_type_of TypeSelector.string strings ts r sid width = ok (codes "string")
  c_type_of TypeSelector.boolean strings ts r sid width = ok (codes "boolean")
  c_type_of TypeSelector.character strings ts r sid width = ok (codes "character")
  c_type_of TypeSelector.float strings ts r sid width = ok (codes "f" ++ f.int width)
  c_type_of TypeSelector.void strings ts r sid width = ok (codes "void")
  c_type_of TypeSelector.pointer strings ts r sid width = between [] (first ts) (codes "*")
  c_type_of TypeSelector.closure strings ts r sid width = between [] r (codes "(closure)")
  c_type_of TypeSelector.function strings ts r sid width = between [] r (codes "(function)")
  c_type_of TypeSelector.tuple strings ts r sid width =
      between (codes "(") (with_commas strings) (codes ")")
  c_type_of TypeSelector.vector strings ts r sid width = ok (codes "EyVector")
  c_type_of TypeSelector.worker strings ts r sid width = ok (codes "EyWorker")
  c_type_of TypeSelector.struct strings ts r sid width = ok (struct_key sid)
  c_type_of TypeSelector.null strings ts r sid width = panic

  -- `writeCType`
  unfoldable mutual
    unfolding c_type_of

    pub write_c_type : Ty → Written
    write_c_type (type_of s ts sid r _ _ _ width) =
        c_type_of s (type_strings ts) (write_c_types ts) (write_c_pointee r) sid width

    pub write_c_types : Types → WrittenTypes
    write_c_types nil = []
    write_c_types (cons t ts) = write_c_type t ∷ write_c_types ts

    pub write_c_pointee : Pointee → Written
    write_c_pointee nothing = panic
    write_c_pointee (points_to t) = write_c_type t
