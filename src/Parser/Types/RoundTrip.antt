-- ===== src/Parser/Types/RoundTrip.antt =====
-- src/parser/parser.go: a type that is written is read back.
use eyot.Prelude.{
  ℕ, zero, suc, ◌≤◌, ◌<◌, true, Option, none, some, List, [], ◌∷◌, ◌++◌, length, length-append,
  append-nil, append_assoc, ◌≡◌, refl, ap, ◌∙◌, arith,
}
use eyot.Token.Kinds.{TokenType}
use eyot.Token.Printed.{type_code}
use eyot.Parser.State.{ParserState, token, done, over}
use eyot.Ast.Types.{Ty}
use eyot.Parser.State.Moves.{token-some}
use eyot.Parser.Types.{parse_type, whole_type, tuple_types}
use eyot.Parser.Types.Starts.{
  Basic, keyword, Spelled, ends_type, whole_type-open_square, whole_type-worker,
  whole_type-open_curved, whole_type-basic, whole_type-identifier, type_over-pointer,
  type_over-value, type_over-none,
}
use eyot.Parser.Types.Written.{
  TypeSyntax, WholeSyntax, MoreSyntax, OptionalSyntax, mark, type_spelling, whole_spelling,
  more_spelling, optional_spelling, type_meaning, whole_meaning, more_meaning, optional_meaning,
  Spans, Means, type_meaning-Means,
}
use eyot.Parser.Types.Parts.{
  ends_type-Spelled, Spans-append, Spans-length, Spelled-bound, vector_type_lem, worker_type_lem,
  tuple_types-last, tuple_types-more, tuple_type_lem,
}

module _ (p : ParserState) where
  -- No whole type begins with a `*`.
  whole-no_pointer :
      (w : WholeSyntax) (i j : ℕ) (fs : List ℕ)
      → Spans p i j (whole_spelling w)
      → token TokenType.multiply (over p (i ∷ fs)) ≡ done none (over p (i ∷ fs))
  unfolding whole_spelling Spans Spelled keyword type_code
  whole-no_pointer (WholeSyntax.basic Basic.integer) i j fs ((tok, h), s) = token-some p i h fs _
  whole-no_pointer (WholeSyntax.basic Basic.float32) i j fs ((tok, h), s) = token-some p i h fs _
  whole-no_pointer (WholeSyntax.basic Basic.float64) i j fs ((tok, h), s) = token-some p i h fs _
  whole-no_pointer (WholeSyntax.basic Basic.character) i j fs ((tok, h), s) = token-some p i h fs _
  whole-no_pointer (WholeSyntax.basic Basic.boolean) i j fs ((tok, h), s) = token-some p i h fs _
  whole-no_pointer (WholeSyntax.basic Basic.string) i j fs ((tok, h), s) = token-some p i h fs _
  whole-no_pointer (WholeSyntax.named v) i j fs ((tok, h), s) = token-some p i h fs _
  whole-no_pointer (WholeSyntax.vector t) i j fs ((tok, h), s) = token-some p i h fs _
  whole-no_pointer (WholeSyntax.tuple t m) i j fs ((tok, h), s) = token-some p i h fs _
  whole-no_pointer (WholeSyntax.worker a b) i j fs ((tok, h), s) = token-some p i h fs _

  whole-nonempty : (w : WholeSyntax) → 0 < length (whole_spelling w)
  unfolding whole_spelling
  whole-nonempty (WholeSyntax.basic b) = omega arith
  whole-nonempty (WholeSyntax.named v) = omega arith
  whole-nonempty (WholeSyntax.vector t) = omega arith
  whole-nonempty (WholeSyntax.tuple t m) = omega arith
  whole-nonempty (WholeSyntax.worker a b) = omega arith

  -- Behind a type of a tuple stands a comma or the bracket.
  more-ends :
      (m : MoreSyntax) (i k : ℕ)
      → Spans p i k (more_spelling m)
      → Spelled p k (mark TokenType.close_curved)
      → ends_type p i ≡ true
  unfolding more_spelling Spans type_code
  more-ends MoreSyntax.last i k e c = ends_type-Spelled p TokenType.close_curved [] i (rw e c) refl
  more-ends (MoreSyntax.more t m) i k (h, s) c = ends_type-Spelled p TokenType.comma [] i h refl

  at_end :
      {A : Type 0} {o : Option A} {i j : ℕ} {fs : List ℕ}
      → i ≡ j
      → done o (over p (i ∷ fs)) ≡ done o (over p (j ∷ fs))
  at_end {A} {o} {i} {j} {fs} e = ap (λ k. done o (over p (k ∷ fs))) e

  mutual
    unfolding type_spelling type_meaning parse_type Spans type_code

    type_lem :
        (t : TypeSyntax) (f i j : ℕ) (fs : List ℕ)
        → length (type_spelling t) ≤ f
        → Spans p i j (type_spelling t)
        → ends_type p j ≡ true
        → parse_type f (over p (i ∷ fs)) ≡ done (some (type_meaning p.id t)) (over p (j ∷ fs))
    type_lem (TypeSyntax.value w) zero i j fs le s e = absurd (omega (arith, whole-nonempty w, le))
    type_lem (TypeSyntax.value w) (suc f) i j fs le s e =
        type_over-value (parse_type f) p i fs (whole-no_pointer w i j (i ∷ fs) s)
          (whole_lem w f i j (i ∷ fs) le s e)
    type_lem (TypeSyntax.pointer w) zero i j fs le s e = absurd (omega (arith, le))
    type_lem (TypeSyntax.pointer w) (suc f) i j fs le (h, s) e =
        type_over-pointer (parse_type f) p i fs h
          (whole_lem w f (suc i) j (i ∷ fs) (omega (arith, le)) s e)

    whole_lem :
        (w : WholeSyntax) (f i j : ℕ) (fs : List ℕ)
        → length (whole_spelling w) ≤ suc f
        → Spans p i j (whole_spelling w)
        → ends_type p j ≡ true
        → whole_type (parse_type f) (over p (i ∷ fs))
          ≡ done (some (whole_meaning p.id w)) (over p (j ∷ fs))
    whole_lem (WholeSyntax.basic b) f i j fs le (h, s) e =
        whole_type-basic (parse_type f) p i fs b h ∙ at_end s
    whole_lem (WholeSyntax.named v) f i j fs le (h, s) e =
        whole_type-identifier (parse_type f) p i fs v h ∙ at_end s
    whole_lem (WholeSyntax.vector t) f i j fs le (h, s) e =
        let close = mark TokenType.close_square ∷ [] in
        let (m, (s1, (c, s2))) = Spans-append p (type_spelling t) close (suc i) j s in
        let ends = ends_type-Spelled p TokenType.close_square [] m c refl in
        let all = length-append (type_spelling t) close in
        whole_type-open_square (parse_type f) p i fs h
        ∙ vector_type_lem (parse_type f) p fs (suc i) m
            (type_lem t f (suc i) m fs (omega (arith, le, all)) s1 ends) c
        ∙ at_end s2
    whole_lem (WholeSyntax.tuple t ms) f i j fs le (h, s) e =
        let close = mark TokenType.close_curved ∷ [] in
        let later = more_spelling ms ++ close in
        let (m, (s1, s2)) = Spans-append p (type_spelling t) later (suc i) j s in
        let (k, (s3, (c, s4))) = Spans-append p (more_spelling ms) close m j s2 in
        let ends = more-ends ms m k s3 c in
        let all = length-append (type_spelling t) later in
        let rest = length-append (more_spelling ms) close in
        let bound = Spelled-bound p (mark TokenType.close_curved) k c in
        let reach = Spans-length p (more_spelling ms) m k s3 in
        whole_type-open_curved (parse_type f) p i fs h
        ∙ tuple_type_lem (parse_type f) p fs (suc i) m k
            (type_lem t f (suc i) m fs (omega (arith, le, all)) s1 ends)
            (more_lem ms f (length p.tokens) m k fs _ [] (omega (arith, bound, reach))
              (omega (arith, le, all, rest)) s3 c)
            c
        ∙ at_end s4
    whole_lem (WholeSyntax.worker a b) f i j fs le (h, (c, s)) e =
        let later = mark TokenType.close_curved ∷ optional_spelling b in
        let (m, (s1, (c', s2))) = Spans-append p (optional_spelling a) later (suc (suc i)) j s in
        let ends = ends_type-Spelled p TokenType.close_curved [] m c' refl in
        let all = length-append (optional_spelling a) later in
        whole_type-worker (parse_type f) p i fs h
        ∙ worker_type_lem (parse_type f) p fs (suc i) m j c
            (optional_lem a f (suc (suc i)) m fs (omega (arith, le, all)) s1 ends) c'
            (optional_lem b f (suc m) j fs (omega (arith, le, all)) s2 e)

    more_lem :
        (ms : MoreSyntax) (f n i k : ℕ) (fs : List ℕ) (t : Ty) (ts : List Ty)
        → length (more_spelling ms) < n
        → length (more_spelling ms) ≤ f
        → Spans p i k (more_spelling ms)
        → Spelled p k (mark TokenType.close_curved)
        → tuple_types (parse_type f) n (t ∷ ts) (over p (i ∷ fs))
          ≡ done (some (t ∷ (ts ++ more_meaning p.id ms))) (over p (k ∷ fs))
    more_lem ms f zero i k fs t ts lt le s c = absurd (omega (arith, lt))
    more_lem MoreSyntax.last f (suc n) i k fs t ts lt le s c =
        tuple_types-last (parse_type f) p fs n i t ts (rw s c) ∙ rw (append-nil ts) (at_end s)
    more_lem (MoreSyntax.more u ms) f (suc n) i k fs t ts lt le (h, s) c =
        let (m, (s1, s2)) = Spans-append p (type_spelling u) (more_spelling ms) (suc i) k s in
        let all = length-append (type_spelling u) (more_spelling ms) in
        let u' = type_meaning p.id u in
        tuple_types-more (parse_type f) p fs n i m t ts h
          (type_lem u f (suc i) m fs (omega (arith, le, all)) s1 (more-ends ms m k s2 c))
        ∙ more_lem ms f n m k fs t (ts ++ u' ∷ []) (omega (arith, lt, all)) (omega (arith, le, all))
            s2 c
        ∙ ap (λ us. done (some (t ∷ us)) (over p (k ∷ fs)))
            (append_assoc ts (u' ∷ []) (more_meaning p.id ms))

    optional_lem :
        (o : OptionalSyntax) (f i j : ℕ) (fs : List ℕ)
        → length (optional_spelling o) < f
        → Spans p i j (optional_spelling o)
        → ends_type p j ≡ true
        → parse_type f (over p (i ∷ fs)) ≡ done (optional_meaning p.id o) (over p (j ∷ fs))
    optional_lem o zero i j fs lt s e = absurd (omega (arith, lt))
    optional_lem OptionalSyntax.absent (suc f) i j fs lt s e =
        type_over-none (parse_type f) p i fs (rw s e) ∙ at_end s
    optional_lem (OptionalSyntax.present t) (suc f) i j fs lt s e =
        type_lem t (suc f) i j fs (omega (arith, lt)) s e

-- Where the tokens from i to j spell a type, on whatever lines, the parser makes a type of them and is
-- left at j.
pub parse_type_made :
    (t : TypeSyntax) (p : ParserState) (fuel i j : ℕ) (fs : List ℕ)
    → length (type_spelling t) ≤ fuel
    → Spans p i j (type_spelling t)
    → ends_type p j ≡ true
    → parse_type fuel (over p (i ∷ fs)) ≡ done (some (type_meaning p.id t)) (over p (j ∷ fs))
parse_type_made t p = type_lem p t

-- Where the tokens from i to j spell a type, on whatever lines, it is read back as the type that is
-- meant, and the parser is left at j: the number of the tokens is enough fuel, and no type must start
-- at j, since `worker(T)` takes a type behind it. Every worker in the type names what is sent to it.
pub parse_type-type_spelling :
    (t : TypeSyntax) (p : ParserState) (ty : Ty) (fuel i j : ℕ) (fs : List ℕ)
    → Means p.id t ty
    → length (type_spelling t) ≤ fuel
    → Spans p i j (type_spelling t)
    → ends_type p j ≡ true
    → parse_type fuel (over p (i ∷ fs)) ≡ done (some ty) (over p (j ∷ fs))
parse_type-type_spelling t p ty fuel i j fs m le s e =
    type_lem p t fuel i j fs le s e
    ∙ ap (λ ty'. done (some ty') (over p (j ∷ fs))) (type_meaning-Means p.id m)
