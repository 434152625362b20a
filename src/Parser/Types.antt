-- ===== src/Parser/Types.antt =====
-- src/parser/parser.go: `WholeType` and `Type`.
pub mod Starts
pub mod Written
mod Parts
pub mod RoundTrip
pub mod Settled
pub mod Total
pub mod Workers
use eyot.Prelude.{
  ℕ, zero, suc, ◌+◌, Bool, true, false, Option, none, some, List, [], ◌∷◌, ◌++◌, Text, codes,
  if◌then◌else◌,
}
use eyot.Token.Kinds.{TokenType}
use eyot.Ast.Ids.{StructId, blank_struct_id}
use eyot.Ast.Structs.{struct_type}
use eyot.Ast.Types.{
  Ty, type_of, Types, nil, cons, TypeSelector, FunctionLocation, Pointee, plain, make_void,
  make_pointer, make_vector,
}
use eyot.Parser.State.{
  Parse, Find, ◌>>=◌, ◌>>◌, pure, reads, stops, expect, when_found, not_found, found, token,
  fail_with, save, accept, reject,
}
use eyot.Parser.Calls.{Calls, with_rounds, token_among}

abbrev pub float_type : ℕ → Ty
float_type width =
    type_of TypeSelector.float nil blank_struct_id Pointee.nothing false [] FunctionLocation.cpu
      width

-- The types that are one keyword
abbrev pub keyword_types : List (TokenType × Ty)
keyword_types =
    (TokenType.integer_keyword, plain TypeSelector.integer nil)
    ∷ (TokenType.float32_keyword, float_type 32)
    ∷ (TokenType.float64_keyword, float_type 64)
    ∷ (TokenType.char_keyword, plain TypeSelector.character nil)
    ∷ (TokenType.bool_keyword, plain TypeSelector.boolean nil)
    ∷ (TokenType.string_keyword, plain TypeSelector.string nil)
    ∷ []

abbrev pub to_types : List Ty → Types
to_types [] = nil
to_types (t ∷ ts) = cons t (to_types ts)

module _ (type : Find Ty) where
  -- After `[`
  unfoldable pub vector_type : Find Ty
  vector_type = expect type (fail_with (codes "No open type found after '['")) λ ity.
      expect (token TokenType.close_square) (fail_with (codes "No close found for vector type"))
        λ _. found (make_vector ity)

  -- After `worker`
  unfoldable pub worker_type : Find Ty
  worker_type =
      expect (token TokenType.open_curved) (fail_with (codes "Expecting '(' after worker")) λ _.
        type >>= λ first.
        expect (token TokenType.close_curved) (fail_with (codes "Expecting ')' after type")) λ _.
          type >>= λ returned. found (
            plain TypeSelector.worker (
              to_types (
                elim first [ none ↦ [] | some t ↦ t ∷ [] ]
                ++ (elim returned [ none ↦ make_void | some t ↦ t ] ∷ []))))

  -- The loop of a tuple type, with the types so far
  unfoldable pub tuple_types : ℕ → List Ty → Find (List Ty)
  tuple_types zero tys = stops
  tuple_types (suc fuel) tys =
      let next =
        expect type (fail_with (codes "Did not find type in tuple"))
          λ ty. tuple_types fuel (tys ++ ty ∷ []) in
      elim tys [ [] ↦ next | t ∷ ts ↦ expect (token TokenType.comma) (found (t ∷ ts)) λ _. next ]

  -- After `(`
  unfoldable pub tuple_type : Find Ty
  unfolding tuple_types
  tuple_type = expect (with_rounds λ fuel. tuple_types fuel []) not_found λ tys.
      expect (token TokenType.close_curved)
        (fail_with (codes "Expecting close curved at the end of a tuple"))
        λ _. found (plain TypeSelector.tuple (to_types tys))

  unfoldable pub named_type : Find Ty
  named_type = expect (token TokenType.identifier) not_found λ tok.
      reads (λ p. p.id) >>= λ module_id.
      found (struct_type (record { module_id = module_id; name = tok.tval }))

  -- Every type but a pointer
  unfoldable pub whole_type : Find Ty
  unfolding vector_type worker_type tuple_type named_type
  whole_type =
      when_found (token TokenType.open_square) (λ _. vector_type)
        (when_found (token TokenType.worker) (λ _. worker_type)
          (when_found (token_among keyword_types) found
            (when_found (token TokenType.open_curved) (λ _. tuple_type) named_type)))

  -- `Type`, over the call for its parts
  unfoldable pub type_over : Find Ty
  unfolding whole_type
  type_over =
      save
      >> (token TokenType.multiply >>= λ pointer. whole_type >>= λ o. elim o [
        | none ↦ reject >> not_found
        | some ty ↦ accept >> found (elim pointer [ none ↦ ty | some _ ↦ make_pointer ty ])
      ])

unfoldable pub parse_type : ℕ → Find Ty
unfolding type_over
parse_type zero = stops
parse_type (suc fuel) = type_over (parse_type fuel)
