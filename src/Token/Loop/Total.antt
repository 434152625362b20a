-- ===== src/Token/Loop/Total.antt =====
-- The loop of `Tokenise` in src/token/tokeniser.go: how often it runs, and the tokens it collects.
use eyot.Prelude.{
  Bool-cases, inl, inr, ◌⊎◌, ℕ, zero, suc, ◌+◌, ◌*◌, ◌<◌, ◌≤◌, ◌≡◌, refl, ap, ◌∙◌, Bool, true,
  false, Option, none, some, List, [], ◌∷◌, ◌++◌, length, arith, append_assoc, if◌then◌else◌,
  Outcome, ok, err, panic, Post, returns, fails, panics, Post-bind, Post-weaken,
}
use eyot.Token.Kinds.{Token, is_eof}
use eyot.Token.Lexeme.Progress.{Steps, get_next_inner-Post}
use eyot.Token.Lexeme.{TokenError, Lexed}
use eyot.Token.Loop.{deliver, next_of, get_next, initial, tokenise_loop, tokenise}
use eyot.Token.State.Advance.{newlines, newlines-append, remaining}
use eyot.Token.State.{Runes, Tokeniser}

-- A bound on the calls of `getNext` to come: `n` runes are left. A waiting `eof` is the last call.
abbrev calls_of : Option Token → ℕ → ℕ
calls_of none n = 2 * n + 2
calls_of (some tk) n = if is_eof tk.type then 1 else 2 * n + 3

abbrev calls_left : Tokeniser → ℕ
calls_left t = calls_of t.pending_token (length (remaining t))

calls_of-none : (w : Option Token) (n : ℕ) → w ≡ none → calls_of w n ≡ 2 * n + 2
calls_of-none none n h = refl
calls_of-none (some tk) n h = cc

calls_of-some :
    (w : Option Token) (n : ℕ) (tk : Token)
    → w ≡ some tk
    → is_eof tk.type ≡ false
    → calls_of w n ≡ 2 * n + 3
calls_of-some w n tk h kind = ap (λ o. calls_of o n) h ∙ rw kind

-- A waiting `eof` stands at the end of the text.
abbrev Waits : Option Token → Tokeniser → Type 0
Waits none t = Unit
Waits (some tk) t = is_eof tk.type ≡ true → remaining t ≡ []

Waits-none : (w : Option Token) (t : Tokeniser) → w ≡ none → Waits w t
Waits-none none t h = tt
Waits-none (some tk) t h = cc

-- One call of `getNext`: it counts the lines on, and returns `eof` at the end of the text or leaves
-- fewer calls.
record Next (t : Tokeniser) (p : Token × Tokeniser) : Type 0 where
  read : Runes
  splits : remaining t ≡ read ++ remaining p.1
  lines : p.1.line ≡ t.line + newlines read
  waits : Waits p.1.pending_token p.1
  ends :
      ((is_eof p.0.type ≡ true) × (remaining p.1 ≡ []))
      ⊎ ((is_eof p.0.type ≡ false) × (calls_left p.1 < calls_left t))

deliver-Next :
    (b : Bool) (t : Tokeniser) (tk : Token) (t' : Tokeniser)
    → t.pending_token ≡ none
    → Steps t (tk, t')
    → Next t (deliver b (tk, t'))
unfolding deliver is_eof
deliver-Next false t tk t' w (m, e) = record {
  read = m.read;
  splits = m.splits;
  lines = m.line_is;
  waits = Waits-none t'.pending_token _ (m.same_pending ∙ w);
  ends = elim e [
    | inl end ↦ inl end
    | inr (kind, less) ↦ inr (
      kind,
      omega (
        arith,
        calls_of-none t.pending_token (length (remaining t)) w,
        calls_of-none t'.pending_token (length (remaining t')) (m.same_pending ∙ w),
      ),
    )
  ];
}
deliver-Next true t tk t' w (m, e) = record {
  read = m.read;
  splits = m.splits;
  lines = m.line_is;
  waits = λ eof. elim e [ inl (_, nothing) ↦ nothing | inr (kind, _) ↦ cc ];
  ends = inr (
    refl,
    elim e [
      | inl (kind, _) ↦
          rw kind (omega (arith, calls_of-none t.pending_token (length (remaining t)) w))
      | inr (kind, less) ↦
          rw kind (omega (arith, calls_of-none t.pending_token (length (remaining t)) w))
    ],
  );
}

Next-waiting :
    (t : Tokeniser) (tk : Token)
    → t.pending_token ≡ some tk
    → Waits (some tk) t
    → Next t (tk, record t { pending_token = none })
Next-waiting t tk h wait = record {
  read = [];
  splits = refl;
  lines = omega arith;
  waits = tt;
  ends = elim (Bool-cases (is_eof tk.type)) [
    | inl eof ↦ inl (eof, wait eof)
    | inr kind ↦
        inr (kind, omega (arith, calls_of-some t.pending_token (length (remaining t)) tk h kind))
  ];
}

next_of-Next :
    (w : Option Token) (t : Tokeniser)
    → t.pending_token ≡ w
    → Waits w t
    → Post (Next t) (next_of w t)
unfolding next_of
next_of-Next none t h wait =
    Post-bind (get_next_inner-Post t)
      λ (tk, t') s. returns (deliver-Next t'.pending_semicolon t tk t' h s)
next_of-Next (some tk) t h wait = returns (Next-waiting t tk h wait)

get_next-Next : (t : Tokeniser) → Waits t.pending_token t → Post (Next t) (get_next t)
unfolding get_next
get_next-Next t wait = next_of-Next t.pending_token t refl wait

-- Tokens with lines in order from `l` on, of which the last alone is `eof`, on line `n`.
pub data Closed : ℕ → ℕ → List Token → Type 0 where
  last :
      {l n : ℕ} {tk : Token}
      → is_eof tk.type ≡ true
      → l ≤ tk.line
      → tk.line ≡ n
      → Closed l n (tk ∷ [])
  more :
      {l n : ℕ} {tk : Token} {ts : List Token}
      → is_eof tk.type ≡ false
      → l ≤ tk.line
      → Closed tk.line n ts
      → Closed l n (tk ∷ ts)

-- The loop ends, and a list that it returns goes on from `tkns` to the end of the text.
record Ends (l n : ℕ) (tkns : List Token) (r : Option (Outcome TokenError (List Token)))
    : Type 0 where
  pub outcome : Outcome TokenError (List Token)
  pub result : r ≡ some outcome
  pub closed : Post (λ ts. (rest : List Token) × (ts ≡ tkns ++ rest) × Closed l n rest) outcome

newlines-Next :
    {t : Tokeniser} {p : Token × Tokeniser} (s : Next t p)
    → p.1.line + newlines (remaining p.1) ≡ t.line + newlines (remaining t)
newlines-Next {p} s =
    omega (arith, s.lines, ap newlines s.splits, newlines-append s.read (remaining p.1))

Ends-last :
    (t : Tokeniser) (tk : Token) (t' : Tokeniser) (tkns : List Token)
    → Next t (tk, t')
    → is_eof tk.type ≡ true
    → remaining t' ≡ []
    → Ends t.line
        (t.line + newlines (remaining t))
        tkns
        (some (ok (tkns ++ (record tk { line = t'.line }) ∷ [])))
Ends-last t tk t' tkns s kind end = record {
  outcome = ok (tkns ++ (record tk { line = t'.line }) ∷ []);
  result = refl;
  closed = returns (
    record tk { line = t'.line } ∷ [],
    refl,
    last kind (omega (arith, s.lines)) (omega (arith, newlines-Next s, ap newlines end)),
  );
}

Ends-more :
    (t : Tokeniser) (tk : Token) (t' : Tokeniser) (tkns : List Token)
    {r : Option (Outcome TokenError (List Token))}
    → Next t (tk, t')
    → is_eof tk.type ≡ false
    → Ends t'.line
        (t'.line + newlines (remaining t'))
        (tkns ++ (record tk { line = t'.line }) ∷ [])
        r
    → Ends t.line (t.line + newlines (remaining t)) tkns r
Ends-more t tk t' tkns s kind e = record {
  outcome = e.outcome;
  result = e.result;
  closed =
      Post-weaken
        (λ ts (rest, split, c).
          let tk' = record tk { line = t'.line } in
          (
            tk' ∷ rest,
            split ∙ append_assoc tkns (tk' ∷ []) rest,
            more kind (omega (arith, s.lines)) (rw (newlines-Next s) at c),
          ))
        e.closed;
}

-- One round, if the rounds that follow do their work.
tokenise_round-Ends :
    (fuel : ℕ) (t : Tokeniser) (tkns : List Token) (o : Lexed)
    → get_next t ≡ o
    → Post (Next t) o
    → ((t' : Tokeniser) (tkns' : List Token)
        → calls_left t' < calls_left t
        → Waits t'.pending_token t'
        → Ends t'.line (t'.line + newlines (remaining t')) tkns' (tokenise_loop fuel t' tkns'))
    → Ends t.line (t.line + newlines (remaining t)) tkns (tokenise_loop (suc fuel) t tkns)
unfolding tokenise_loop
tokenise_round-Ends fuel t tkns panic e p rec =
    rw (e, tokenise_loop) (record { outcome = panic; result = refl; closed = panics })
tokenise_round-Ends fuel t tkns (err x) e p rec =
    rw (e, tokenise_loop) (record { outcome = err x; result = refl; closed = fails })
tokenise_round-Ends fuel t tkns (ok (tk, t')) e (returns s) rec = elim s.ends [
  | inl (kind, end) ↦ rw (e, tokenise_loop, kind) (Ends-last t tk t' tkns s kind end)
  | inr (kind, less) ↦
      rw (e, tokenise_loop, kind) (Ends-more t tk t' tkns s kind (rec t' _ less s.waits))
]

tokenise_loop-Ends :
    (fuel : ℕ) (t : Tokeniser) (tkns : List Token)
    → calls_left t < fuel
    → Waits t.pending_token t
    → Ends t.line (t.line + newlines (remaining t)) tkns (tokenise_loop fuel t tkns)
tokenise_loop-Ends zero t tkns lt wait = absurd (omega arith)
tokenise_loop-Ends (suc fuel) t tkns lt wait =
    tokenise_round-Ends fuel t tkns (get_next t) refl (get_next-Next t wait)
      λ t' tkns' less wait'. tokenise_loop-Ends fuel t' tkns' (omega arith) wait'

-- `Tokenise` ends on every text. A list of tokens that it returns has lines in order from 1 on, and
-- its last token, and no other, is `eof`, on the line after all the newlines of the text.
pub tokenise-Closed :
    (text : Runes)
    → (o : Outcome TokenError (List Token)) × (tokenise text ≡ some o)
      × Post (Closed 1 (1 + newlines text)) o
unfolding tokenise
tokenise-Closed text =
    let e = tokenise_loop-Ends (2 * length text + 3) (initial text) [] (omega arith) tt in
    (e.outcome, e.result, Post-weaken (λ ts (rest, split, c). rw split c) e.closed)
