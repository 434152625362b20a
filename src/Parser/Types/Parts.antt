-- ===== src/Parser/Types/Parts.antt =====
-- src/parser/parser.go: what the parts of a type read, from what the call for a type reads.
use eyot.Prelude.{
  ℕ, suc, ◌+◌, ◌<◌, true, false, not, Option, none, some, List, [], ◌∷◌, ◌++◌, length,
  get_elem?-bound, Text, ◌≡◌, refl, ap, ◌∙◌, arith,
}
use eyot.Token.Kinds.{TokenType}
use eyot.Token.Printed.{type_code}
use eyot.Ast.Types.{Ty, TypeSelector, plain, make_void, make_vector}
use eyot.Parser.State.{ParserState, Find, done, over}
use eyot.Parser.State.Moves.{token-some}
use eyot.Parser.Types.{vector_type, worker_type, tuple_type, tuple_types, to_types}
use eyot.Parser.Types.Starts.{Spelling, Spelled, ends_type, among_kinds, type_kinds}
use eyot.Parser.Types.Written.{mark, Spans}

module _ (p : ParserState) where
  pub ends_type-Spelled :
      (ty : TokenType) (v : Text) (i : ℕ)
      → Spelled p i (ty, v)
      → among_kinds ty type_kinds ≡ false
      → ends_type p i ≡ true
  unfolding ends_type Spelled
  ends_type-Spelled ty v i (tok, h) e =
      ap (λ o. elim o [ none ↦ true | some t ↦ not (among_kinds t.type type_kinds) ]) h ∙ ap not e

  pub Spans-append :
      (xs ys : List Spelling) (i j : ℕ)
      → Spans p i j (xs ++ ys)
      → (m : ℕ) × (Spans p i m xs × Spans p m j ys)
  unfolding Spans
  Spans-append [] ys i j s = (i, (refl, s))
  Spans-append (x ∷ xs) ys i j (h, s) =
      let (m, (s1, s2)) = Spans-append xs ys (suc i) j s in (m, ((h, s1), s2))

  pub Spans-length : (xs : List Spelling) (i j : ℕ) → Spans p i j xs → i + length xs ≡ j
  unfolding Spans
  Spans-length [] i j s = omega (arith, s)
  Spans-length (x ∷ xs) i j (h, s) = omega (arith, Spans-length xs (suc i) j s)

  pub Spelled-bound : (s : Spelling) (i : ℕ) → Spelled p i s → i < length p.tokens
  unfolding Spelled
  Spelled-bound s i (tok, h) = get_elem?-bound p.tokens i h

module _ (type : Find Ty) (p : ParserState) (fs : List ℕ) where
  pub vector_type_lem :
      (i m : ℕ) {ty : Ty}
      → type (over p (i ∷ fs)) ≡ done (some ty) (over p (m ∷ fs))
      → Spelled p m (mark TokenType.close_square)
      → vector_type type (over p (i ∷ fs)) ≡ done (some (make_vector ty)) (over p (suc m ∷ fs))
  unfolding vector_type type_code Spelled
  vector_type_lem i m e (tok, h) = simp (e, token-some p m h fs)

  pub worker_type_lem :
      (i m j : ℕ) {a b : Option Ty}
      → Spelled p i (mark TokenType.open_curved)
      → type (over p (suc i ∷ fs)) ≡ done a (over p (m ∷ fs))
      → Spelled p m (mark TokenType.close_curved)
      → type (over p (suc m ∷ fs)) ≡ done b (over p (j ∷ fs))
      → worker_type type (over p (i ∷ fs))
        ≡ done
            (some (
              plain TypeSelector.worker (
                to_types (
                  elim a [ none ↦ [] | some t ↦ t ∷ [] ]
                  ++ (elim b [ none ↦ make_void | some t ↦ t ] ∷ [])))))
            (over p (j ∷ fs))
  unfolding worker_type type_code Spelled
  worker_type_lem i m j (tok, h) e (tok', h') e' =
      simp (token-some p i h fs, e, token-some p m h' fs, e')

  pub tuple_types-last :
      (n i : ℕ) (t : Ty) (ts : List Ty)
      → Spelled p i (mark TokenType.close_curved)
      → tuple_types type (suc n) (t ∷ ts) (over p (i ∷ fs)) ≡ done (some (t ∷ ts)) (over p (i ∷ fs))
  unfolding tuple_types type_code Spelled
  tuple_types-last n i t ts (tok, h) = simp (token-some p i h fs)

  pub tuple_types-more :
      (n i m : ℕ) {u : Ty} (t : Ty) (ts : List Ty)
      → Spelled p i (mark TokenType.comma)
      → type (over p (suc i ∷ fs)) ≡ done (some u) (over p (m ∷ fs))
      → tuple_types type (suc n) (t ∷ ts) (over p (i ∷ fs))
        ≡ tuple_types type n (t ∷ (ts ++ u ∷ [])) (over p (m ∷ fs))
  unfolding tuple_types type_code Spelled
  tuple_types-more n i m t ts (tok, h) e = simp (token-some p i h fs, e)

  pub tuple_type_lem :
      (i m k : ℕ) {t : Ty} {ts : List Ty}
      → type (over p (i ∷ fs)) ≡ done (some t) (over p (m ∷ fs))
      → tuple_types type (length p.tokens) (t ∷ []) (over p (m ∷ fs))
        ≡ done (some (t ∷ ts)) (over p (k ∷ fs))
      → Spelled p k (mark TokenType.close_curved)
      → tuple_type type (over p (i ∷ fs))
        ≡ done (some (plain TypeSelector.tuple (to_types (t ∷ ts)))) (over p (suc k ∷ fs))
  unfolding tuple_type tuple_types type_code Spelled
  tuple_type_lem i m k e e' (tok, h) = simp (e, e', token-some p k h fs)
