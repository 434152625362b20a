-- ===== src/Parser/State.antt =====
-- src/parser/parser.go: the state of the parser, and the moves over the tokens.
pub mod Moves
use eyot.Prelude.{
  ℕ, zero, suc, ◌+◌, ◌<◌, ◌≤◌, Bool, true, false, Option, none, some, List, [], ◌∷◌, ◌++◌, length,
  get_elem?, Text, codes, text_eq, ℤ, ltb, if◌then◌else◌,
}
use eyot.Token.Kinds.{Token, TokenType}
use eyot.Token.Printed.{Format, same_type, token_string}
use eyot.Errors.{Errors, SourceLocation, set_current_location, errorf}
use eyot.Ast.Ids.{ModuleId, module_key}
use eyot.Ast.Structs.{TopLevelElement}
use eyot.Ast.Scope.{Scope, new_scope}
use eyot.Ast.Check.Context.{RequiredStruct}

-- What the parser asks of a module that it imports
pub record ImportedModule : Type 0 where
  pub module_id : ModuleId
  pub elements : List TopLevelElement
  pub structs : List RequiredStruct

-- The positions of `frames` have the current one first; `frames` of the source has it last. Of the
-- imports there are the names and the modules. `break_ok` is never taken below 0.
pub record ParserState : Type 0 where
  pub tokens : List Token
  pub imports : List (Text × ImportedModule)
  pub frames : List ℕ
  pub scope : Scope
  pub struct_literal_ok : ℤ
  pub break_ok : ℕ
  pub file_name : Text
  pub id : ModuleId
  pub es : Errors
  pub disallowed_ids : List Text

-- A call returns, or panics, or has used up the fuel of the model.
pub data Run {ℓ} (A : Type ℓ) : Type ℓ where
  done : A → ParserState → Run A
  crash : ParserState → Run A
  stopped : ParserState → Run A

abbrev pub Parse {ℓ} : Type ℓ → Type ℓ
Parse A = ParserState → Run A

abbrev pub bind {ℓ κ} : {A : Type ℓ} {B : Type κ} → Run A → (A → Parse B) → Run B
bind (done a p) k = k a p
bind (crash p) k = crash p
bind (stopped p) k = stopped p

module _ {ℓ κ} {A : Type ℓ} {B : Type κ} where
  infixl 1 ◌>>=◌ ◌>>◌
  abbrev pub ◌>>=◌ : Parse A → (A → Parse B) → Parse B
  m >>= k = λ p. bind (m p) k

  abbrev pub ◌>>◌ : Parse A → Parse B → Parse B
  m >> k = m >>= λ _. k

module _ {ℓ} {A : Type ℓ} where
  abbrev pub pure : A → Parse A
  pure a p = done a p

  abbrev pub reads : (ParserState → A) → Parse A
  reads f p = done (f p) p

  abbrev pub crashes : Parse A
  crashes p = crash p

  abbrev pub stops : Parse A
  stops p = stopped p

abbrev pub writes : (ParserState → ParserState) → Parse (Unit {0})
writes f p = done tt (f p)

-- What the source returns as a pointer or a value with a flag that says whether it was found
abbrev pub Find : Type 0 → Type 0
Find A = Parse (Option A)

abbrev pub not_found : {A : Type 0} → Find A
not_found = pure none

abbrev pub found : {A : Type 0} → A → Find A
found a = pure (some a)

module _ {A B : Type 0} where
  -- Go on with what was found, or do otherwise.
  abbrev pub expect : Find A → Parse B → (A → Parse B) → Parse B
  expect m otherwise k = m >>= λ o. elim o [ some a ↦ k a | none ↦ otherwise ]

  -- The other order: `otherwise` goes on.
  abbrev pub when_found : Find A → (A → Parse B) → Parse B → Parse B
  when_found m k otherwise = expect m otherwise k

-- `CurrentFrame().Position`, which panics without a frame
unfoldable pub position : Parse ℕ
position p = elim p.frames [ [] ↦ crash p | i ∷ _ ↦ done i p ]

unfoldable pub location_at : ParserState → ℕ → SourceLocation
location_at p i = elim (get_elem? p.tokens i) [
  | none ↦ record { filename = p.file_name; line = ℤ.negsuc 0 }
  | some tok ↦ record { filename = p.file_name; line = ℤ.pos tok.line }
]

unfoldable pub current_location : Parse SourceLocation
unfolding position location_at
current_location = position >>= λ i. reads (λ p. location_at p i)

-- `LogError` of a message that is formatted already
unfoldable pub log_error : Text → Parse (Unit {0})
unfolding current_location
log_error description = current_location >>= λ sl.
    writes λ p. record p { es = errorf (set_current_location p.es sl) description }

unfoldable pub save : Parse (Unit {0})
save p = elim p.frames [ [] ↦ crash p | i ∷ fs ↦ done tt (record p { frames = i ∷ i ∷ fs }) ]

abbrev pub accept_frames : List ℕ → Option (List ℕ)
accept_frames (i ∷ j ∷ fs) = some (i ∷ fs)
accept_frames _ = none

unfoldable pub accept : Parse (Unit {0})
accept p = elim (accept_frames p.frames) [
  | none ↦ crash p
  | some fs ↦ done tt (record p { frames = fs })
]

unfoldable pub reject : Parse (Unit {0})
reject p = elim p.frames [ [] ↦ crash p | i ∷ fs ↦ done tt (record p { frames = fs }) ]

unfoldable pub start_scope : Parse (Unit {0})
start_scope = writes λ p. record p { scope = new_scope p.scope }

-- `p.scope.Parent`; the root's parent is nil.
unfoldable pub end_scope : Parse (Unit {0})
end_scope p = elim p.scope [ [] ↦ crash p | _ ∷ parent ↦ done tt (record p { scope = parent }) ]

abbrev pub advance_frames : List ℕ → List ℕ
advance_frames [] = []
advance_frames (i ∷ fs) = suc i ∷ fs

-- The position is in range exactly where `Eof` is false.
unfoldable pub get_token : Find Token
unfolding position
get_token = position >>= λ i. λ p. elim (get_elem? p.tokens i) [
  | none ↦ done none p
  | some tok ↦ done (some tok) (record p { frames = advance_frames p.frames })
]

-- `Token`: the token is taken where it has the kind.
unfoldable pub token : TokenType → Find Token
unfolding save get_token accept reject
token ty =
    save
    >> (get_token >>= λ o. elim o [
      | none ↦ reject >> not_found
      | some tok ↦ if same_type tok.type ty then (accept >> found tok) else (reject >> not_found)
    ])

-- The zero token, where there is none
abbrev pub zero_token : Token
zero_token = record {
  type = TokenType.integer;
  tval = [];
  ival = 0;
  fval_zeros = 0;
  fval = 0;
  line = 0;
}

unfoldable pub debug_peek_token : Parse Token
unfolding save get_token reject
debug_peek_token =
    save >> (get_token >>= λ o. reject >> elim o [ some tok ↦ pure tok | none ↦ pure zero_token ])

unfoldable pub find_import : List (Text × ImportedModule) → Text → Option ImportedModule
find_import [] name = none
find_import ((import_as, mod_) ∷ imports) name =
    if text_eq import_as name then some mod_ else find_import imports name

-- A return after an error
abbrev pub fail_with : {A : Type 0} → Text → Find A
fail_with description = log_error description >> not_found

-- The state with other positions
abbrev pub over : ParserState → List ℕ → ParserState
over p frames = record p { frames = frames }

-- The token at a position, where it has the kind
abbrev pub kind_at : ParserState → TokenType → ℕ → Option Token
kind_at p ty i = elim (get_elem? p.tokens i) [
  | none ↦ none
  | some tok ↦ if same_type tok.type ty then some tok else none
]
