-- ===== src/Token/Loop/Semicolons.antt =====
-- `getNext` of src/token/tokeniser.go: a token that waits behind an inserted semicolon.
use eyot.Prelude.{
  inl, inr, ◌≡◌, refl, ◌∙◌, ap, sym, Bool, true, false, Option, none, some, ok, Post, of_ok,
  Post-bind, returns,
}
use eyot.Token.Junk.{should_insert_semicolon}
use eyot.Token.Kinds.{Token, TokenType, ends_statement}
use eyot.Token.Lexeme.Progress.{get_next_inner-Post}
use eyot.Token.Loop.{deliver, next_of, get_next}
use eyot.Token.State.Reads.{Reads}
use eyot.Token.State.{Tokeniser}

-- What is known of a token that waits behind a call of `getNext`.
abbrev Held : Tokeniser → Token × Tokeniser → Type 0
Held t (s, t1) =
    (tk : Token)
    → t1.pending_token ≡ some tk
    → (s.type ≡ TokenType.semicolon)
      × (t1.last_token_type ≡ t.last_token_type)
      × (ends_statement t.last_token_type ≡ true)

deliver-Held :
    (b : Bool) (t : Tokeniser) (tk' : Token) (t' : Tokeniser)
    → t.pending_token ≡ none
    → t.pending_semicolon ≡ false
    → t'.pending_semicolon ≡ b
    → Reads t t'
    → Held t (deliver b (tk', t'))
unfolding deliver
deliver-Held false t tk' t' w calm h m tk e =
    let lost : none ≡ some tk = sym (m.same_pending ∙ w) ∙ e in absurd (cc lost)
deliver-Held true t tk' t' w calm h m tk e =
    (refl, m.same_last, elim (m.semicolon h) [ inl before ↦ cc | inr ends ↦ ends ])

next_of-Held :
    (t : Tokeniser)
    → t.pending_token ≡ none
    → t.pending_semicolon ≡ false
    → Post (Held t) (next_of none t)
unfolding next_of
next_of-Held t w calm =
    Post-bind (get_next_inner-Post t)
      λ (tk', t') (m, _). returns (deliver-Held t'.pending_semicolon t tk' t' w calm refl m)

next_of-get_next :
    (t : Tokeniser) {w : Option Token} → t.pending_token ≡ w → get_next t ≡ next_of w t
unfolding get_next
next_of-get_next t h = ap (λ w. next_of w t) h

-- Where a call of `getNext` leaves a token waiting, it returned a semicolon, and the last token
-- could end a statement. The next call returns the token that waits and does not make it the last
-- token: the newline behind it calls for another semicolon, whatever the token is.
pub semicolon_after_held :
    (t t1 : Tokeniser) (s tk : Token)
    → t.pending_token ≡ none
    → t.pending_semicolon ≡ false
    → get_next t ≡ ok (s, t1)
    → t1.pending_token ≡ some tk
    → (s.type ≡ TokenType.semicolon)
      × (ends_statement t.last_token_type ≡ true)
      × (t2 : Tokeniser) × (get_next t1 ≡ ok (tk, t2))
      × (should_insert_semicolon t2 ≡ true)
unfolding next_of
semicolon_after_held t t1 s tk w calm first wait =
    let held = of_ok (rw (sym (next_of-get_next t w) ∙ first) at (next_of-Held t w calm)) in
    let (kind, same, ends) = held tk wait in
    (
      kind,
      ends,
      record t1 { pending_token = none },
      next_of-get_next t1 wait,
      ap ends_statement same ∙ ends,
    )
