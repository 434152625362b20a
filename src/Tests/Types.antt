-- ===== src/Tests/Types.antt =====
-- Types and identifiers of src/ast at concrete values.
use eyot.Prelude.{◌≡◌, ◌↔◌, Bool, true, false, [], ◌∷◌, codes, ok}
use eyot.Ast.Ids.{FunctionId, function_is_equal, blank_struct_id}
use eyot.Ast.Ids.Laws.{function_is_equal_iff}
use eyot.Ast.Types.{
  Ty, type_of, Types, nil, cons, TypeSelector, FunctionLocation, nothing, plain, equal,
}
use eyot.Ast.Types.Shapes.{Shape, Shapes, integer, float, tuple, cons, nil}
use eyot.Ast.Types.Equality.{equal-same}

abbrev integer_type : Ty
integer_type = plain TypeSelector.integer Types.nil

abbrev float_type : Ty
float_type =
    type_of TypeSelector.float Types.nil blank_struct_id nothing false [] FunctionLocation.cpu 32

-- A pair of an integer and a pointer to a float, and the pair with an integer behind the pointer.
abbrev pair : Ty
pair = plain TypeSelector.tuple (Types.cons integer_type (Types.cons float_type Types.nil))

abbrev other_pair : Ty
other_pair = plain TypeSelector.tuple (Types.cons float_type (Types.cons float_type Types.nil))

abbrev pair_shape : Shape
pair_shape = Shape.tuple (Shapes.more Shape.integer (Shapes.more (Shape.float 32) Shapes.none))

abbrev other_shape : Shape
other_shape = Shape.tuple (Shapes.more (Shape.float 32) (Shapes.more (Shape.float 32) Shapes.none))

equal-same_example :
    (b : Bool) × (equal pair other_pair ≡ ok b) × ((b ≡ true) ↔ (pair_shape ≡ other_shape))
equal-same_example =
    equal-same pair other_pair pair_shape other_shape (tuple (cons integer (cons float nil)))
      (tuple (cons float (cons float nil)))

abbrev area : FunctionId
area = record {
  module_id = codes "shapes" ∷ [];
  struct_id = record { module_id = codes "shapes" ∷ []; name = codes "Circle" };
  name = codes "area";
}

abbrev free_area : FunctionId
free_area = record {
  module_id = codes "shapes" ∷ [];
  struct_id = blank_struct_id;
  name = codes "area";
}

function_is_equal_iff_example : (function_is_equal area free_area ≡ true) ↔ (area ≡ free_area)
function_is_equal_iff_example = function_is_equal_iff area free_area
