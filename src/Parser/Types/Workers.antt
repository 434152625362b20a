-- ===== src/Parser/Types/Workers.antt =====
-- src/parser/parser.go and src/ast/types.go: the types of workers that take nothing.
use eyot.Prelude.{ℕ, ◌≤◌, true, some, List, ◌∷◌, length, ◌>>=◌, Text, ok, err, panic, ◌≡◌, refl}
use eyot.Token.Printed.{Format}
use eyot.Ast.Types.{Ty}
use eyot.Ast.Types.Names.{Written}
use eyot.Ast.Types.Printed.{string_of, type_string}
use eyot.Parser.State.{ParserState, done, over}
use eyot.Parser.Types.{parse_type}
use eyot.Parser.Types.Starts.{ends_type}
use eyot.Parser.Types.Written.{
  TypeSyntax, WholeSyntax, OptionalSyntax, type_spelling, type_meaning, Spans,
}
use eyot.Parser.Types.RoundTrip.{parse_type_made}

-- `worker() T`
abbrev pub worker_of_nothing : TypeSyntax → TypeSyntax
worker_of_nothing t =
    TypeSyntax.value (WholeSyntax.worker OptionalSyntax.absent (OptionalSyntax.present t))

first_only : (w : Written) (k : Text → Written) → ((a : Text) → k a ≡ panic) → (w >>= k) ≡ panic
first_only (ok a) k h = h a
first_only (err e) k h = elim e [ ]
first_only panic k h = refl

-- Where the tokens from i to j spell `worker() T`, the parser returns a type, and `String` panics on
-- it, since it has no second type.
pub parse_type-worker_of_nothing :
    (t : TypeSyntax) (f : Format) (p : ParserState) (fuel i j : ℕ) (fs : List ℕ)
    → length (type_spelling (worker_of_nothing t)) ≤ fuel
    → Spans p i j (type_spelling (worker_of_nothing t))
    → ends_type p j ≡ true
    → (ty : Ty) × ((parse_type fuel (over p (i ∷ fs)) ≡ done (some ty) (over p (j ∷ fs)))
        × (type_string f ty ≡ panic))
unfolding type_string string_of type_meaning
parse_type-worker_of_nothing t f p fuel i j fs le s e = (
  type_meaning p.id (worker_of_nothing t),
  (
    parse_type_made (worker_of_nothing t) p fuel i j fs le s e,
    first_only (type_string f (type_meaning p.id t)) _ (λ a. refl),
  ),
)
