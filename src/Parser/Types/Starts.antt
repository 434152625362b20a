-- ===== src/Parser/Types/Starts.antt =====
-- src/parser/parser.go: which part of `WholeType` the next token chooses.
use eyot.Prelude.{
  ℕ, suc, Bool, true, false, none, some, List, [], ◌∷◌, Text, get_elem?, Option-cases, Bool-cases,
  ==_iff, not-true, ap₂, ◌==◌, ap, sym, ◌∙◌, inl, inr, not, ◌||◌, ◌≡◌, refl,
}
use eyot.Token.Kinds.{Token, TokenType}
use eyot.Token.Printed.{same_type, type_code}
use eyot.Ast.Structs.{struct_type}
use eyot.Ast.Types.{Ty, TypeSelector, nil, plain, make_pointer}
use eyot.Parser.State.{ParserState, Find, token, done, over, save, accept, reject}
use eyot.Parser.State.Moves.{token-some, token-none}
use eyot.Parser.Calls.{token_among}
use eyot.Parser.Types.{
  float_type, whole_type, type_over, vector_type, worker_type, tuple_type, named_type,
}

-- A kind and a text: what the parser reads of a token
abbrev pub Spelling : Type 0
Spelling = TokenType × Text

-- The token at a position is spelled so, on any line.
unfoldable pub Spelled : ParserState → ℕ → Spelling → Type 0
Spelled p i (ty, text) =
    (tok : Token) × (get_elem? p.tokens i ≡ some (record tok { type = ty; tval = text }))

-- The kinds of token that a type starts with
abbrev pub type_kinds : List TokenType
type_kinds =
    TokenType.multiply ∷ TokenType.open_square ∷ TokenType.worker ∷ TokenType.integer_keyword
    ∷ TokenType.float32_keyword ∷ TokenType.float64_keyword ∷ TokenType.char_keyword
    ∷ TokenType.bool_keyword ∷ TokenType.string_keyword ∷ TokenType.open_curved
    ∷ TokenType.identifier ∷ []

abbrev pub among_kinds : TokenType → List TokenType → Bool
among_kinds ty [] = false
among_kinds ty (kind ∷ kinds) = same_type ty kind || among_kinds ty kinds

among_kinds-same :
    (a b : TokenType) (kinds : List TokenType)
    → type_code a ≡ type_code b
    → among_kinds a kinds ≡ among_kinds b kinds
among_kinds-same a b [] e = refl
among_kinds-same a b (kind ∷ kinds) e =
    ap₂ (λ n r. (n == type_code kind) || r) e (among_kinds-same a b kinds e)

among_kinds-differ :
    (a b : TokenType) (kinds : List TokenType)
    → among_kinds a kinds ≡ false
    → among_kinds b kinds ≡ true
    → same_type a b ≡ false
among_kinds-differ a b kinds h k = elim (Bool-cases (same_type a b)) [
  | inr e ↦ e
  | inl e ↦ let same = among_kinds-same a b kinds ((==_iff (type_code a) (type_code b)).0 e) in cc
]

-- No type starts at the position.
unfoldable pub ends_type : ParserState → ℕ → Bool
ends_type p i = elim (get_elem? p.tokens i) [
  | none ↦ true
  | some tok ↦ not (among_kinds tok.type type_kinds)
]

-- The types that are one keyword, by it
pub data Basic : Type 0 where
  integer : Basic
  float32 : Basic
  float64 : Basic
  character : Basic
  boolean : Basic
  string : Basic

unfoldable pub keyword : Basic → TokenType
keyword Basic.integer = TokenType.integer_keyword
keyword Basic.float32 = TokenType.float32_keyword
keyword Basic.float64 = TokenType.float64_keyword
keyword Basic.character = TokenType.char_keyword
keyword Basic.boolean = TokenType.bool_keyword
keyword Basic.string = TokenType.string_keyword

unfoldable pub basic_type : Basic → Ty
basic_type Basic.integer = plain TypeSelector.integer nil
basic_type Basic.float32 = float_type 32
basic_type Basic.float64 = float_type 64
basic_type Basic.character = plain TypeSelector.character nil
basic_type Basic.boolean = plain TypeSelector.boolean nil
basic_type Basic.string = plain TypeSelector.string nil

module _ (type : Find Ty) (p : ParserState) (i : ℕ) (fs : List ℕ) where
  pub whole_type-open_square :
      Spelled p i (TokenType.open_square, [])
      → whole_type type (over p (i ∷ fs)) ≡ vector_type type (over p (suc i ∷ fs))
  unfolding whole_type type_code Spelled
  whole_type-open_square (tok, h) = simp (token-some p i h fs)

  pub whole_type-worker :
      Spelled p i (TokenType.worker, [])
      → whole_type type (over p (i ∷ fs)) ≡ worker_type type (over p (suc i ∷ fs))
  unfolding whole_type type_code Spelled
  whole_type-worker (tok, h) = simp (token-some p i h fs)

  pub whole_type-open_curved :
      Spelled p i (TokenType.open_curved, [])
      → whole_type type (over p (i ∷ fs)) ≡ tuple_type type (over p (suc i ∷ fs))
  unfolding whole_type type_code token_among Spelled
  whole_type-open_curved (tok, h) = simp (token-some p i h fs)

  pub whole_type-basic :
      (b : Basic)
      → Spelled p i (keyword b, [])
      → whole_type type (over p (i ∷ fs)) ≡ done (some (basic_type b)) (over p (suc i ∷ fs))
  unfolding whole_type type_code token_among Spelled keyword basic_type
  whole_type-basic Basic.integer (tok, h) = simp (token-some p i h fs)
  whole_type-basic Basic.float32 (tok, h) = simp (token-some p i h fs)
  whole_type-basic Basic.float64 (tok, h) = simp (token-some p i h fs)
  whole_type-basic Basic.character (tok, h) = simp (token-some p i h fs)
  whole_type-basic Basic.boolean (tok, h) = simp (token-some p i h fs)
  whole_type-basic Basic.string (tok, h) = simp (token-some p i h fs)

  pub whole_type-identifier :
      (v : Text)
      → Spelled p i (TokenType.identifier, v)
      → whole_type type (over p (i ∷ fs))
        ≡ done (some (struct_type (record { module_id = p.id; name = v }))) (over p (suc i ∷ fs))
  unfolding whole_type type_code token_among named_type Spelled
  whole_type-identifier v (tok, h) = simp (token-some p i h fs)

  token-missed :
      ends_type p i ≡ true
      → (ty : TokenType) → among_kinds ty type_kinds ≡ true
      → token ty (over p (i ∷ fs)) ≡ done none (over p (i ∷ fs))
  unfolding ends_type
  token-missed h ty k = elim (Option-cases (get_elem? p.tokens i)) [
    | inl n ↦ token-none p i n fs ty
    | inr (tok, e) ↦
        let not_among : among_kinds tok.type type_kinds ≡ false = not-true _ (
          sym (
            ap (λ o. elim o [ none ↦ true | some tok' ↦ not (among_kinds tok'.type type_kinds) ]) e)
          ∙ h) in
        rw (token-some p i e fs ty)
          (rw (among_kinds-differ tok.type ty type_kinds not_among k) refl)
  ]

  whole_type-none :
      ends_type p i ≡ true → whole_type type (over p (i ∷ fs)) ≡ done none (over p (i ∷ fs))
  unfolding whole_type type_code token_among named_type
  whole_type-none h = simp (
    token-missed h TokenType.open_square refl,
    token-missed h TokenType.worker refl,
    token-missed h TokenType.integer_keyword refl,
    token-missed h TokenType.float32_keyword refl,
    token-missed h TokenType.float64_keyword refl,
    token-missed h TokenType.char_keyword refl,
    token-missed h TokenType.bool_keyword refl,
    token-missed h TokenType.string_keyword refl,
    token-missed h TokenType.open_curved refl,
    token-missed h TokenType.identifier refl,
  )

module _ (type : Find Ty) (p : ParserState) (i : ℕ) (fs : List ℕ) where
  pub type_over-pointer :
      {j : ℕ} {ty : Ty}
      → Spelled p i (TokenType.multiply, [])
      → whole_type type (over p (suc i ∷ i ∷ fs)) ≡ done (some ty) (over p (j ∷ i ∷ fs))
      → type_over type (over p (i ∷ fs)) ≡ done (some (make_pointer ty)) (over p (j ∷ fs))
  unfolding type_over type_code Spelled save accept
  type_over-pointer (tok, h) w = simp (token-some p i h (i ∷ fs), w)

  pub type_over-value :
      {j : ℕ} {ty : Ty}
      → token TokenType.multiply (over p (i ∷ i ∷ fs)) ≡ done none (over p (i ∷ i ∷ fs))
      → whole_type type (over p (i ∷ i ∷ fs)) ≡ done (some ty) (over p (j ∷ i ∷ fs))
      → type_over type (over p (i ∷ fs)) ≡ done (some ty) (over p (j ∷ fs))
  unfolding type_over save accept
  type_over-value h w = simp (h, w)

  pub type_over-none :
      ends_type p i ≡ true → type_over type (over p (i ∷ fs)) ≡ done none (over p (i ∷ fs))
  unfolding type_over type_code save reject
  type_over-none h = simp (
    token-missed type p i (i ∷ fs) h TokenType.multiply refl,
    whole_type-none type p i (i ∷ fs) h,
  )
