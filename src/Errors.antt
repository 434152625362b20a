-- ===== src/Errors.antt =====
-- src/errors/errors.go: the log of the errors of a run.
pub mod Log
use eyot.Prelude.{
  Bool, true, false, Option, none, some, List, [], ◌∷◌, ◌++◌, Text, codes, ℤ, is_negative,
  if◌then◌else◌,
}

pub record SourceLocation : Type 0 where
  pub filename : Text
  pub line : ℤ

pub record ErrorMessage : Type 0 where
  pub location : SourceLocation
  pub message : Text
  pub activity : Text

-- An internal error is kept by its text.
pub record Errors : Type 0 where
  pub error_messages : List ErrorMessage
  pub last_known_location : SourceLocation
  pub internal_error : Option Text
  pub activity : Text

abbrev pub nowhere : SourceLocation
nowhere = record { filename = []; line = ℤ.pos 0 }

abbrev pub new_errors : Errors
new_errors = record {
  error_messages = [];
  last_known_location = nowhere;
  internal_error = none;
  activity = [];
}

unfoldable pub set_activity : Errors → Text → Errors
set_activity es a = record es { activity = a }

unfoldable pub log_internal_error : Errors → Text → Errors
log_internal_error es e = record es { internal_error = some e }

unfoldable pub set_current_location : Errors → SourceLocation → Errors
set_current_location es sl = record es { last_known_location = sl }

-- `Errorf`, of a message that is already formatted
unfoldable pub errorf : Errors → Text → Errors
errorf es message = record es {
  error_messages =
      es.error_messages
      ++ (record { location = es.last_known_location; message = message; activity = es.activity }
          ∷ []);
}

unfoldable pub clean : Errors → Bool
clean es = elim es.internal_error [
  | some _ ↦ false
  | none ↦ elim es.error_messages [ [] ↦ true | _ ∷ _ ↦ false ]
]

-- `format_int` is the `%v` of package fmt for an int.
module _ (format_int : ℤ → Text) where
  unfoldable pub location_string : SourceLocation → Text
  location_string sl =
      if is_negative sl.line
      then sl.filename ++ codes ": EOF"
      else sl.filename ++ (codes ": " ++ format_int sl.line)

  unfoldable pub message_string : ErrorMessage → Text
  unfolding location_string
  message_string em =
      let s = location_string em.location ++ (codes ": " ++ em.message) in
      elim em.activity [ [] ↦ s | _ ∷ _ ↦ s ++ (codes " (" ++ (em.activity ++ codes ")")) ]

  abbrev pub lines_of : List ErrorMessage → Text
  lines_of [] = []
  lines_of (em ∷ ems) = message_string em ++ (b'\n' ∷ lines_of ems)

  -- `LogErrors`: the answer and what is written
  unfoldable pub log_errors : Errors → Bool × Text
  log_errors es = elim es.error_messages [
    | [] ↦ (true, [])
    | _ ∷ _ ↦ (false, lines_of es.error_messages)
  ]
