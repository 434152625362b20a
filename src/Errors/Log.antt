-- ===== src/Errors/Log.antt =====
-- What `LogErrors` of src/errors/errors.go writes.
use eyot.Prelude.{
  ◌≡◌, refl, sym, ap, ◌∙◌, false, Option, none, some, List, [], ◌∷◌, ◌++◌, append_assoc, Text, ℤ,
  arith,
}
use eyot.Errors.{Errors, ErrorMessage, errorf, clean, message_string, lines_of, log_errors}

-- What `Errorf` adds to the log.
abbrev pub noted : Errors → Text → ErrorMessage
noted es message = record {
  location = es.last_known_location;
  message = message;
  activity = es.activity;
}

module _ (format_int : ℤ → Text) where
  lines_of-append :
      (ems : List ErrorMessage) (em : ErrorMessage)
      → lines_of format_int (ems ++ (em ∷ []))
        ≡ lines_of format_int ems ++ (message_string format_int em ++ (b'\n' ∷ []))
  lines_of-append [] em = refl
  lines_of-append (x ∷ ems) em =
      ap (λ r. message_string format_int x ++ (b'\n' ∷ r)) (lines_of-append ems em)
      ∙ sym (
          append_assoc (message_string format_int x) (b'\n' ∷ lines_of format_int ems)
            (message_string format_int em ++ (b'\n' ∷ [])))

  log_errors-lines_of :
      (es : Errors) → (log_errors format_int es).1 ≡ lines_of format_int es.error_messages
  unfolding log_errors
  log_errors-lines_of es = ground arith

  log_errors-append :
      (es : Errors) (ems : List ErrorMessage) (em : ErrorMessage)
      → log_errors format_int (record es { error_messages = ems ++ (em ∷ []) })
        ≡ (false, lines_of format_int (ems ++ (em ∷ [])))
  unfolding log_errors
  log_errors-append es [] em = refl
  log_errors-append es (x ∷ ems) em = refl

  clean-append :
      (es : Errors) (o : Option Text) (ems : List ErrorMessage) (em : ErrorMessage)
      → clean (record es { internal_error = o; error_messages = ems ++ (em ∷ []) }) ≡ false
  unfolding clean
  clean-append es (some e) ems em = refl
  clean-append es none [] em = refl
  clean-append es none (x ∷ ems) em = refl

  pub log_errors-errorf :
      (es : Errors) (message : Text)
      → (clean (errorf es message) ≡ false)
        × (log_errors format_int (errorf es message) ≡ (
          false,
          (log_errors format_int es).1
              ++ (message_string format_int (noted es message) ++ (b'\n' ∷ [])),
        ))
  unfolding errorf
  log_errors-errorf es message =
      let em = noted es message in
      (
        clean-append es es.internal_error es.error_messages em,
        log_errors-append es es.error_messages em
            ∙ ap (λ r. (false, r))
                (lines_of-append es.error_messages em
                  ∙ ap (λ r. r ++ (message_string format_int em ++ (b'\n' ∷ [])))
                      (sym (log_errors-lines_of es))),
      )
