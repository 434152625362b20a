-- ===== src/Parser/Types/Written.antt =====
-- The types as they are written, next to src/parser/parser.go: how one is spelled, which type is meant
-- by it, and which one the parser makes of it.
use eyot.Prelude.{ℕ, suc, Option, none, some, List, [], ◌∷◌, ◌++◌, Text, ◌≡◌, refl, ap}
use eyot.Token.Kinds.{TokenType}
use eyot.Ast.Ids.{ModuleId}
use eyot.Ast.Structs.{struct_type}
use eyot.Ast.Types.{Ty, TypeSelector, plain, make_void, make_pointer, make_vector}
use eyot.Parser.State.{ParserState}
use eyot.Parser.Types.{to_types}
use eyot.Parser.Types.Starts.{Basic, keyword, basic_type, Spelling, Spelled}

mutual
  -- A type is a whole type, or one behind a `*`.
  pub data TypeSyntax : Type 0 where
    value : WholeSyntax → TypeSyntax
    pointer : WholeSyntax → TypeSyntax

  -- `worker(T) U` may leave out either type.
  pub data WholeSyntax : Type 0 where
    basic : Basic → WholeSyntax
    named : Text → WholeSyntax
    vector : TypeSyntax → WholeSyntax
    tuple : TypeSyntax → MoreSyntax → WholeSyntax
    worker : OptionalSyntax → OptionalSyntax → WholeSyntax

  -- The types of a tuple after the first
  pub data MoreSyntax : Type 0 where
    last : MoreSyntax
    more : TypeSyntax → MoreSyntax → MoreSyntax

  pub data OptionalSyntax : Type 0 where
    absent : OptionalSyntax
    present : TypeSyntax → OptionalSyntax

abbrev pub mark : TokenType → Spelling
mark ty = (ty, [])

unfoldable mutual
  pub type_spelling : TypeSyntax → List Spelling
  type_spelling (TypeSyntax.value w) = whole_spelling w
  type_spelling (TypeSyntax.pointer w) = mark TokenType.multiply ∷ whole_spelling w

  pub whole_spelling : WholeSyntax → List Spelling
  whole_spelling (WholeSyntax.basic b) = mark (keyword b) ∷ []
  whole_spelling (WholeSyntax.named v) = (TokenType.identifier, v) ∷ []
  whole_spelling (WholeSyntax.vector t) =
      mark TokenType.open_square ∷ (type_spelling t ++ mark TokenType.close_square ∷ [])
  whole_spelling (WholeSyntax.tuple t m) =
      mark TokenType.open_curved
      ∷ (type_spelling t ++ (more_spelling m ++ mark TokenType.close_curved ∷ []))
  whole_spelling (WholeSyntax.worker a b) =
      mark TokenType.worker
      ∷ (mark TokenType.open_curved
          ∷ (optional_spelling a ++ (mark TokenType.close_curved ∷ optional_spelling b)))

  pub more_spelling : MoreSyntax → List Spelling
  more_spelling MoreSyntax.last = []
  more_spelling (MoreSyntax.more t m) = mark TokenType.comma ∷ (type_spelling t ++ more_spelling m)

  pub optional_spelling : OptionalSyntax → List Spelling
  optional_spelling OptionalSyntax.absent = []
  optional_spelling (OptionalSyntax.present t) = type_spelling t

module _ (id : ModuleId) where
  unfoldable mutual
    pub type_meaning : TypeSyntax → Ty
    type_meaning (TypeSyntax.value w) = whole_meaning w
    type_meaning (TypeSyntax.pointer w) = make_pointer (whole_meaning w)

    -- What the parser makes of it: of `worker() T`, a worker with the one type T.
    pub whole_meaning : WholeSyntax → Ty
    whole_meaning (WholeSyntax.basic b) = basic_type b
    whole_meaning (WholeSyntax.named v) = struct_type (record { module_id = id; name = v })
    whole_meaning (WholeSyntax.vector t) = make_vector (type_meaning t)
    whole_meaning (WholeSyntax.tuple t m) =
        plain TypeSelector.tuple (to_types (type_meaning t ∷ more_meaning m))
    whole_meaning (WholeSyntax.worker a b) = plain TypeSelector.worker (
        to_types (
          elim (optional_meaning a) [ none ↦ [] | some t ↦ t ∷ [] ]
          ++ (elim (optional_meaning b) [ none ↦ make_void | some t ↦ t ] ∷ [])))

    pub more_meaning : MoreSyntax → List Ty
    more_meaning MoreSyntax.last = []
    more_meaning (MoreSyntax.more t m) = type_meaning t ∷ more_meaning m

    pub optional_meaning : OptionalSyntax → Option Ty
    optional_meaning OptionalSyntax.absent = none
    optional_meaning (OptionalSyntax.present t) = some (type_meaning t)

-- Which type is meant, as src/ast/types.go describes the fields of a type: of a worker the first type
-- is what is sent to it and the second what comes back, which is void where none is written. Of a worker
-- to which nothing is sent, no type is meant: the description has none.
mutual
  pub data Means (id : ModuleId) : TypeSyntax → Ty → Type 0 where
    value : {w : WholeSyntax} {ty : Ty} → MeansWhole id w ty → Means id (TypeSyntax.value w) ty
    pointer :
        {w : WholeSyntax} {ty : Ty}
        → MeansWhole id w ty
        → Means id (TypeSyntax.pointer w) (make_pointer ty)

  pub data MeansWhole (id : ModuleId) : WholeSyntax → Ty → Type 0 where
    basic : {b : Basic} → MeansWhole id (WholeSyntax.basic b) (basic_type b)
    named :
        {v : Text}
        → MeansWhole id (WholeSyntax.named v) (struct_type (record { module_id = id; name = v }))
    vector :
        {t : TypeSyntax} {ty : Ty}
        → Means id t ty
        → MeansWhole id (WholeSyntax.vector t) (make_vector ty)
    tuple :
        {t : TypeSyntax} {ts : MoreSyntax} {ty : Ty} {tys : List Ty}
        → Means id t ty
        → MeansMore id ts tys
        → MeansWhole id (WholeSyntax.tuple t ts) (plain TypeSelector.tuple (to_types (ty ∷ tys)))
    worker :
        {t u : TypeSyntax} {ty uy : Ty}
        → Means id t ty
        → Means id u uy
        → MeansWhole id
            (WholeSyntax.worker (OptionalSyntax.present t) (OptionalSyntax.present u))
            (plain TypeSelector.worker (to_types (ty ∷ uy ∷ [])))
    worker_of_void :
        {t : TypeSyntax} {ty : Ty}
        → Means id t ty
        → MeansWhole id
            (WholeSyntax.worker (OptionalSyntax.present t) OptionalSyntax.absent)
            (plain TypeSelector.worker (to_types (ty ∷ make_void ∷ [])))

  pub data MeansMore (id : ModuleId) : MoreSyntax → List Ty → Type 0 where
    last : MeansMore id MoreSyntax.last []
    more :
        {t : TypeSyntax} {ts : MoreSyntax} {ty : Ty} {tys : List Ty}
        → Means id t ty
        → MeansMore id ts tys
        → MeansMore id (MoreSyntax.more t ts) (ty ∷ tys)

module _ (id : ModuleId) where
  mutual
    unfolding type_meaning

    pub type_meaning-Means : {t : TypeSyntax} {ty : Ty} → Means id t ty → type_meaning id t ≡ ty
    type_meaning-Means (Means.value m) = whole_meaning-Means m
    type_meaning-Means (Means.pointer m) = ap make_pointer (whole_meaning-Means m)

    whole_meaning-Means : {w : WholeSyntax} {ty : Ty} → MeansWhole id w ty → whole_meaning id w ≡ ty
    whole_meaning-Means MeansWhole.basic = refl
    whole_meaning-Means MeansWhole.named = refl
    whole_meaning-Means (MeansWhole.vector m) = ap make_vector (type_meaning-Means m)
    whole_meaning-Means (MeansWhole.tuple m ms) =
        rw (type_meaning-Means m, more_meaning-Means ms) refl
    whole_meaning-Means (MeansWhole.worker m n) =
        rw (type_meaning-Means m, type_meaning-Means n) refl
    whole_meaning-Means (MeansWhole.worker_of_void m) = rw (type_meaning-Means m) refl

    more_meaning-Means :
        {ts : MoreSyntax} {tys : List Ty} → MeansMore id ts tys → more_meaning id ts ≡ tys
    more_meaning-Means MeansMore.last = refl
    more_meaning-Means (MeansMore.more m ms) = rw (type_meaning-Means m, more_meaning-Means ms) refl

-- The tokens from one position to another are spelled so.
unfoldable pub Spans : ParserState → ℕ → ℕ → List Spelling → Type 0
Spans p i j [] = i ≡ j
Spans p i j (s ∷ ss) = Spelled p i s × Spans p (suc i) j ss
