-- ===== src/Parser/Types/Total.antt =====
-- src/parser/parser.go: `Type` always returns.
use eyot.Prelude.{
  ℕ, zero, suc, ◌+◌, ◌<◌, ◌≤◌, Option, none, some, List, [], ◌∷◌, ◌++◌, length, codes, arith,
}
use eyot.Token.Kinds.{TokenType}
use eyot.Errors.{Errors}
use eyot.Ast.Types.{Ty, TypeSelector, plain, make_void, make_pointer}
use eyot.Parser.State.{
  ParserState, Find, Run, bind, fail_with, found, ◌>>=◌, ◌>>◌, not_found, token, save, accept,
  reject,
}
use eyot.Parser.Calls.{token_among}
use eyot.Parser.Types.{
  keyword_types, parse_type, type_over, whole_type, vector_type, worker_type, tuple_type,
  tuple_types, named_type, to_types,
}
use eyot.Parser.Types.Settled.{Settled, Settled-bind, Settled-token, Settled-fail, with_log}

module _ (type : Find Ty) (p : ParserState) (fs : List ℕ) (from : ℕ)
    (type-Settled : (i : ℕ) (es : Errors)
      → from ≤ i
      → i ≤ length p.tokens
      → Settled p fs i (type (with_log p (i ∷ fs) es))) where
  vector_type-Settled :
      (start i : ℕ) (es : Errors)
      → start < i
      → from ≤ i
      → i ≤ length p.tokens
      → Settled p fs start (vector_type type (with_log p (i ∷ fs) es))
  unfolding vector_type
  vector_type-Settled start i es lt le b =
      Settled-bind p fs _ (type-Settled i es le b)
        (λ j es' le' b'. Settled-fail p fs _ j es' (omega arith) b')
        λ t j es' lt' b'.
          Settled-bind p fs _ (Settled-token p fs TokenType.close_square j es' b')
            (λ k es'' le'' b''. Settled-fail p fs _ k es'' (omega arith) b'')
            λ tok k es'' lt'' b''. Settled.finds _ k es'' (omega arith) b''

  -- After `worker(`, and a type or none
  behind :
      (start : ℕ) (first : Option Ty) (i : ℕ) (es : Errors)
      → start < i
      → from ≤ i
      → i ≤ length p.tokens
      → Settled {A = Ty} p fs start (
          bind (token TokenType.close_curved (with_log p (i ∷ fs) es)) (λ o. elim o [
            | none ↦ fail_with (codes "Expecting ')' after type")
            | some tok ↦ type >>= λ returned. found (
                plain TypeSelector.worker (
                  to_types (
                    elim first [ none ↦ [] | some t ↦ t ∷ [] ]
                    ++ (elim returned [ none ↦ make_void | some t ↦ t ] ∷ []))))
          ]))
  behind start first i es lt le b =
      Settled-bind p fs _ (Settled-token p fs TokenType.close_curved i es b)
        (λ j es' le' b'. Settled-fail p fs _ j es' (omega arith) b')
        λ tok j es' lt' b'.
          Settled-bind p fs _ (type-Settled j es' (omega arith) b')
            (λ k es'' le'' b''. Settled.finds _ k es'' (omega arith) b'')
            λ t k es'' lt'' b''. Settled.finds _ k es'' (omega arith) b''

  worker_type-Settled :
      (start i : ℕ) (es : Errors)
      → start < i
      → from ≤ i
      → i ≤ length p.tokens
      → Settled p fs start (worker_type type (with_log p (i ∷ fs) es))
  unfolding worker_type
  worker_type-Settled start i es lt le b =
      Settled-bind p fs _ (Settled-token p fs TokenType.open_curved i es b)
        (λ j es' le' b'. Settled-fail p fs _ j es' (omega arith) b')
        λ tok j es' lt' b'.
          Settled-bind p fs _ (type-Settled j es' (omega arith) b')
            (λ k es'' le'' b''. behind start none k es'' (omega arith) (omega arith) b'')
            λ t k es'' lt'' b''. behind start (some t) k es'' (omega arith) (omega arith) b''

  tuple_types-Settled :
      (n : ℕ) (ts : List Ty) (start i : ℕ) (es : Errors)
      → start < i
      → from ≤ i
      → i ≤ length p.tokens
      → length p.tokens < i + n
      → Settled p fs start (tuple_types type n ts (with_log p (i ∷ fs) es))
  unfolding tuple_types
  tuple_types-Settled zero ts start i es lt le b enough = absurd (omega arith)
  tuple_types-Settled (suc n) [] start i es lt le b enough =
      Settled-bind p fs _ (type-Settled i es le b)
        (λ j es' le' b'. Settled-fail p fs _ j es' (omega arith) b')
        λ t j es' lt' b'.
          tuple_types-Settled n _ start j es' (omega arith) (omega arith) b' (omega arith)
  tuple_types-Settled (suc n) (t ∷ ts) start i es lt le b enough =
      Settled-bind p fs _ (Settled-token p fs TokenType.comma i es b)
        (λ j es' le' b'. Settled.finds _ j es' (omega arith) b')
        λ tok j es' lt' b'.
          Settled-bind p fs _ (type-Settled j es' (omega arith) b')
            (λ k es'' le'' b''. Settled-fail p fs _ k es'' (omega arith) b'')
            λ u k es'' lt'' b''.
              tuple_types-Settled n _ start k es'' (omega arith) (omega arith) b'' (omega arith)

  tuple_type-Settled :
      (start i : ℕ) (es : Errors)
      → start < i
      → from ≤ i
      → i ≤ length p.tokens
      → Settled p fs start (tuple_type type (with_log p (i ∷ fs) es))
  unfolding tuple_type
  tuple_type-Settled start i es lt le b =
      Settled-bind p fs _
        (tuple_types-Settled (suc (length p.tokens)) [] start i es lt le b (omega arith))
        (λ j es' le' b'. Settled.misses j es' (omega arith) b')
        λ ts j es' lt' b'.
          Settled-bind p fs _ (Settled-token p fs TokenType.close_curved j es' b')
            (λ k es'' le'' b''. Settled-fail p fs _ k es'' (omega arith) b'')
            λ tok k es'' lt'' b''. Settled.finds _ k es'' (omega arith) b''

  named_type-Settled :
      (start i : ℕ) (es : Errors)
      → start ≤ i
      → i ≤ length p.tokens
      → Settled p fs start (named_type type (with_log p (i ∷ fs) es))
  unfolding named_type
  named_type-Settled start i es le b =
      Settled-bind p fs _ (Settled-token p fs TokenType.identifier i es b)
        (λ j es' le' b'. Settled.misses j es' (omega arith) b')
        λ tok j es' lt' b'. Settled.finds _ j es' (omega arith) b'

  token_among-Settled :
      {A : Type 0} (kinds : List (TokenType × A)) (start i : ℕ) (es : Errors)
      → start ≤ i
      → i ≤ length p.tokens
      → Settled p fs start (token_among kinds (with_log p (i ∷ fs) es))
  unfolding token_among
  token_among-Settled [] start i es le b = Settled.misses i es le b
  token_among-Settled ((ty, a) ∷ kinds) start i es le b =
      Settled-bind p fs _ (Settled-token p fs ty i es b)
        (λ j es' le' b'. token_among-Settled kinds start j es' (omega arith) b')
        λ tok j es' lt' b'. Settled.finds _ j es' (omega arith) b'

  whole_type-Settled :
      (start i : ℕ) (es : Errors)
      → start ≤ i
      → from ≤ suc i
      → i ≤ length p.tokens
      → Settled p fs start (whole_type type (with_log p (i ∷ fs) es))
  unfolding whole_type
  whole_type-Settled start i es le near b =
      Settled-bind p fs _ (Settled-token p fs TokenType.open_square i es b)
        (λ j es1 le1 b1.
          Settled-bind p fs _ (Settled-token p fs TokenType.worker j es1 b1)
            (λ k es2 le2 b2.
              Settled-bind p fs _ (token_among-Settled keyword_types k k es2 (omega arith) b2)
                (λ l es3 le3 b3.
                  Settled-bind p fs _ (Settled-token p fs TokenType.open_curved l es3 b3)
                    (λ m es4 le4 b4. named_type-Settled start m es4 (omega arith) b4)
                    λ t m es4 lt4 b4. tuple_type-Settled start m es4 (omega arith) (omega arith) b4)
                λ t l es3 lt3 b3. Settled.finds t l es3 (omega arith) b3)
            λ t k es2 lt2 b2. worker_type-Settled start k es2 (omega arith) (omega arith) b2)
        λ t j es1 lt1 b1. vector_type-Settled start j es1 (omega arith) (omega arith) b1

-- A call under a saved position, which is kept or given up
closed-Settled :
    {A : Type 0} (f : A → Ty) (p : ParserState) (fs : List ℕ) {i : ℕ} {r : Run (Option A)}
    → i ≤ length p.tokens
    → Settled p (i ∷ fs) i r
    → Settled {A = Ty} p fs i
        (bind r (λ o. elim o [ none ↦ reject >> not_found | some a ↦ accept >> found (f a) ]))
unfolding reject accept
closed-Settled f p fs {i} b (Settled.finds a j es lt b') = Settled.finds (f a) j es lt b'
closed-Settled f p fs {i} b (Settled.misses j es le b') = Settled.misses i es (omega arith) b

type_over-Settled :
    (type : Find Ty) (p : ParserState) (fs : List ℕ) (i : ℕ) (es : Errors)
    → ((j : ℕ) (es' : Errors)
        → suc i ≤ j
        → j ≤ length p.tokens
        → Settled p (i ∷ fs) j (type (with_log p (j ∷ i ∷ fs) es')))
    → i ≤ length p.tokens
    → Settled p fs i (type_over type (with_log p (i ∷ fs) es))
unfolding type_over save
type_over-Settled type p fs i es h b =
    Settled-bind p fs _ (Settled-token p (i ∷ fs) TokenType.multiply i es b)
      (λ j es' le b'.
        closed-Settled (λ ty. ty) p fs b
          (whole_type-Settled type p (i ∷ fs) (suc i) h i j es' le (omega arith) b'))
      λ tok j es' lt b'.
        closed-Settled make_pointer p fs b
          (whole_type-Settled type p (i ∷ fs) (suc i) h i j es' (omega arith) (omega arith) b')

-- From a position that is not past the end, and with more fuel than there are tokens ahead, `Type`
-- always returns, whatever the tokens are: it does not panic and its loop ends. It changes nothing
-- but the current position and the log of errors: the outer positions stay, and where it finds a type
-- the position is further on and not past the end.
pub parse_type-Settled :
    (fuel : ℕ) (p : ParserState) (fs : List ℕ) (i : ℕ) (es : Errors)
    → i ≤ length p.tokens
    → length p.tokens < i + fuel
    → Settled p fs i (parse_type fuel (with_log p (i ∷ fs) es))
unfolding parse_type
parse_type-Settled zero p fs i es b enough = absurd (omega arith)
parse_type-Settled (suc fuel) p fs i es b enough =
    type_over-Settled (parse_type fuel) p fs i es
      (λ j es' le b'. parse_type-Settled fuel p (i ∷ fs) j es' b' (omega arith)) b
