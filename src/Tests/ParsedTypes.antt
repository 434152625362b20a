-- ===== src/Tests/ParsedTypes.antt =====
-- `Type` of src/parser on short lists of tokens.
use eyot.Prelude.{panic, some, [], ◌∷◌, codes, ◌≡◌, refl, arith}
use eyot.Token.Kinds.{TokenType}
use eyot.Token.Printed.{type_code}
use eyot.Errors.{new_errors}
use eyot.Parser.State.{ParserState, done, over}
use eyot.Parser.Types.{parse_type}
use eyot.Parser.Types.Starts.{Basic, basic_type, Spelled, ends_type, keyword}
use eyot.Parser.Types.Written.{
  TypeSyntax, WholeSyntax, MoreSyntax, OptionalSyntax, type_spelling, Spans, Means, MeansWhole,
  MeansMore,
}
use eyot.Parser.Types.RoundTrip.{parse_type-type_spelling}
use eyot.Parser.Types.Settled.{Settled, with_log}
use eyot.Parser.Types.Total.{parse_type-Settled}
use eyot.Parser.Types.Workers.{parse_type-worker_of_nothing}
use eyot.Ast.Structs.{struct_type}
use eyot.Ast.Types.{Ty, Types, TypeSelector, plain, make_pointer, make_vector, make_void}
use eyot.Ast.Types.Printed.{type_string}
use eyot.Tests.States.{spelled, mark_token, parser_at, some_format}

-- `*(i64, [S], worker(bool)) {`
abbrev type_tokens : ParserState
type_tokens = parser_at (
    mark_token TokenType.multiply
    ∷ mark_token TokenType.open_curved
    ∷ mark_token TokenType.integer_keyword
    ∷ mark_token TokenType.comma
    ∷ mark_token TokenType.open_square
    ∷ spelled TokenType.identifier (codes "S")
    ∷ mark_token TokenType.close_square
    ∷ mark_token TokenType.comma
    ∷ mark_token TokenType.worker
    ∷ mark_token TokenType.open_curved
    ∷ mark_token TokenType.bool_keyword
    ∷ mark_token TokenType.close_curved
    ∷ mark_token TokenType.close_curved
    ∷ mark_token TokenType.open_curly
    ∷ [])

abbrev some_type : TypeSyntax
some_type = TypeSyntax.pointer (
    WholeSyntax.tuple (TypeSyntax.value (WholeSyntax.basic Basic.integer)) (
      MoreSyntax.more
        (TypeSyntax.value (WholeSyntax.vector (TypeSyntax.value (WholeSyntax.named (codes "S")))))
        (MoreSyntax.more
          (TypeSyntax.value (
            WholeSyntax.worker
              (OptionalSyntax.present (TypeSyntax.value (WholeSyntax.basic Basic.boolean)))
              OptionalSyntax.absent))
          MoreSyntax.last)))

abbrev meant_type : Ty
meant_type = make_pointer (
    plain TypeSelector.tuple (
      Types.cons (basic_type Basic.integer) (
        Types.cons
          (make_vector (struct_type (record { module_id = type_tokens.id; name = codes "S" })))
          (Types.cons
            (plain TypeSelector.worker
              (Types.cons (basic_type Basic.boolean) (Types.cons make_void Types.nil)))
            Types.nil))))

some_type-Means : Means type_tokens.id some_type meant_type
some_type-Means = Means.pointer (
    MeansWhole.tuple (Means.value MeansWhole.basic) (
      MeansMore.more (Means.value (MeansWhole.vector (Means.value MeansWhole.named))) (
        MeansMore.more (Means.value (MeansWhole.worker_of_void (Means.value MeansWhole.basic)))
          MeansMore.last)))

parse_type-type_spelling_example :
    parse_type 14 (over type_tokens (0 ∷ 7 ∷ []))
    ≡ done (some meant_type) (over type_tokens (13 ∷ 7 ∷ []))
unfolding Spans Spelled type_spelling keyword ends_type type_code
parse_type-type_spelling_example =
    parse_type-type_spelling some_type type_tokens meant_type 14 0 13 (7 ∷ []) some_type-Means
      (omega arith)
      (
        (mark_token TokenType.multiply, refl),
        (
          (mark_token TokenType.open_curved, refl),
          (
            (mark_token TokenType.integer_keyword, refl),
            (
              (mark_token TokenType.comma, refl),
              (
                (mark_token TokenType.open_square, refl),
                (
                  (spelled TokenType.identifier (codes "S"), refl),
                  (
                    (mark_token TokenType.close_square, refl),
                    (
                      (mark_token TokenType.comma, refl),
                      (
                        (mark_token TokenType.worker, refl),
                        (
                          (mark_token TokenType.open_curved, refl),
                          (
                            (mark_token TokenType.bool_keyword, refl),
                            (
                              (mark_token TokenType.close_curved, refl),
                              ((mark_token TokenType.close_curved, refl), refl),
                            ),
                          ),
                        ),
                      ),
                    ),
                  ),
                ),
              ),
            ),
          ),
        ),
      )
      refl

parse_type-Settled_example :
    Settled type_tokens [] 0 (parse_type 15 (with_log type_tokens (0 ∷ []) new_errors))
parse_type-Settled_example =
    parse_type-Settled 15 type_tokens [] 0 new_errors (omega arith) (omega arith)

-- `worker() bool {`
abbrev worker_tokens : ParserState
worker_tokens = parser_at (
    mark_token TokenType.worker
    ∷ mark_token TokenType.open_curved
    ∷ mark_token TokenType.close_curved
    ∷ mark_token TokenType.bool_keyword
    ∷ mark_token TokenType.open_curly
    ∷ [])

parse_type-worker_of_nothing_example :
    (ty : Ty) × ((parse_type 4 (over worker_tokens (0 ∷ []))
        ≡ done (some ty) (over worker_tokens (4 ∷ [])))
      × (type_string some_format ty ≡ panic))
unfolding Spans Spelled type_spelling keyword ends_type type_code
parse_type-worker_of_nothing_example =
    parse_type-worker_of_nothing (TypeSyntax.value (WholeSyntax.basic Basic.boolean)) some_format
      worker_tokens 4 0 4 [] (omega arith)
      (
        (mark_token TokenType.worker, refl),
        (
          (mark_token TokenType.open_curved, refl),
          (
            (mark_token TokenType.close_curved, refl),
            ((mark_token TokenType.bool_keyword, refl), refl),
          ),
        ),
      )
      refl
