-- ===== src/Token/Junk/Stop.antt =====
-- `eatJunk` of src/token/tokeniser.go: where it stops, and what it has skipped there.
use eyot.Prelude.{
  Option, ◌≢◌, returned, returned-some, not_none, ◌==◌, ◌&&◌, ◌||◌, if◌then◌else◌, Bool-cases, inl,
  inr, ◌⊎◌, ℕ, zero, suc, ◌<◌, ◌≡◌, refl, sym, ap, ◌∙◌, Bool, true, false, none, some, [], ◌∷◌,
  length, arith, length-drop,
}
use eyot.Token.Junk.{eat_whitespace_loop, Opening, opening, ends_comment}
use eyot.Token.Junk.Whitespace.{
  is_space, eat_whitespace, eat_whitespace_loop_returns, eat_whitespace-Reads,
  remaining-eat_whitespace,
}
use eyot.Token.State.Advance.{
  remaining, advance, get_next_rune-nil, get_next_rune-cons, remaining-advance,
}
use eyot.Token.State.Reads.{
  Reads, Reads-advance, Reads-trans, Reads-left, drop_while, left2, remaining-gather,
  remaining-eat2, gather-Reads, eat2-Reads,
}
use eyot.Token.State.{
  Runes, Tokeniser, is_not_eol, get_next_rune, get_save_point, restore_save_point,
}
use eyot.Token.State.Gather.{
  gather, gather_loop, gather_loop_returns, eat2, eat2_loop, eat2_loop_returns,
}

-- `none` where the fuel runs out.
unfoldable pub eat_junk_loop : ℕ → Tokeniser → Option Tokeniser
eat_junk_loop zero t = none
eat_junk_loop (suc fuel) t =
    let t0 = eat_whitespace t in
    let save_point = get_save_point t0 in
    elim (get_next_rune t0) [
      | none ↦ some (restore_save_point t0 save_point)
      | some (r1, t1) ↦ elim (get_next_rune t1) [
        | none ↦ some (restore_save_point t1 save_point)
        | some (r2, t2) ↦ elim (opening r1 r2) [
          | Opening.line_comment ↦ eat_junk_loop fuel (gather t2 none is_not_eol).1
          | Opening.block_comment ↦ eat_junk_loop fuel (eat2 t2 ends_comment)
          | Opening.neither ↦ some (restore_save_point t2 save_point)
        ]
      ]
    ]

-- `//` or `/*`
abbrev pub opens_comment : ℕ → ℕ → Bool
opens_comment c d = c == b'/' && (d == b'/' || d == b'*')

-- No white space and no comment begins here.
abbrev pub StartsToken : Runes → Type 0
StartsToken [] = Unit
StartsToken (c ∷ []) = is_space c ≡ false
StartsToken (c ∷ d ∷ _) = (is_space c ≡ false) × (opens_comment c d ≡ false)

-- A text from the end of its first line on
abbrev pub behind_line : Runes → Runes
behind_line [] = []
behind_line (c ∷ xs) = if c == b'\r' || c == b'\n' then c ∷ xs else behind_line xs

-- A text behind its first `*/`. Where it has none, its last rune is left, for which the code has no
-- reason.
abbrev pub behind_block : Runes → Runes
behind_block [] = []
behind_block (c ∷ []) = c ∷ []
behind_block (c ∷ d ∷ xs) = if c == b'*' && d == b'/' then xs else behind_block (d ∷ xs)

drop_while-behind_line : (xs : Runes) → drop_while is_not_eol xs ≡ behind_line xs
unfolding is_not_eol
drop_while-behind_line [] = refl
drop_while-behind_line (c ∷ xs) = ground (arith, drop_while-behind_line xs)

left2-behind_block : (xs : Runes) → left2 ends_comment xs ≡ behind_block xs
unfolding ends_comment
left2-behind_block [] = refl
left2-behind_block (c ∷ []) = refl
left2-behind_block (c ∷ d ∷ xs) = ground (arith, left2-behind_block (d ∷ xs))

opening-line_comment : (c d : ℕ) → opening c d ≡ Opening.line_comment → (c ≡ b'/') × (d ≡ b'/')
unfolding opening
opening-line_comment c d h = ground arith

opening-block_comment : (c d : ℕ) → opening c d ≡ Opening.block_comment → (c ≡ b'/') × (d ≡ b'*')
unfolding opening
opening-block_comment c d h = ground arith

opening-neither : (c d : ℕ) → opening c d ≡ Opening.neither → opens_comment c d ≡ false
unfolding opening
opening-neither c d h = ground arith

drop_while-head :
    (p : ℕ → Bool) (xs : Runes) {c : ℕ} {ys : Runes} → drop_while p xs ≡ c ∷ ys → p c ≡ false
drop_while-head p [] h = cc
drop_while-head p (x ∷ xs) {c} {ys} h =
    ground (arith, λ (k : drop_while p xs ≡ c ∷ ys). drop_while-head p xs k)

head-is_space :
    (t : Tokeniser) {c : ℕ} {ys : Runes}
    → remaining (eat_whitespace t) ≡ c ∷ ys
    → is_space c ≡ false
head-is_space t {c} h =
    drop_while-head is_space (remaining t) (sym (remaining-eat_whitespace t) ∙ h)

-- The text `ys` is `xs` without some white space and comments at its front. A line comment goes on
-- to the end of its line, a block comment to its first `*/`; of a block comment without an end, all
-- but the last rune goes.
pub data Junk : Runes → Runes → Type 0 where
  done : {xs : Runes} → Junk xs xs
  space : {c : ℕ} {xs ys : Runes} → is_space c ≡ true → Junk xs ys → Junk (c ∷ xs) ys
  line :
      {c d : ℕ} {xs ys : Runes}
      → (c ≡ b'/') × (d ≡ b'/')
      → Junk (behind_line xs) ys
      → Junk (c ∷ d ∷ xs) ys
  block :
      {c d : ℕ} {xs ys : Runes}
      → (c ≡ b'/') × (d ≡ b'*')
      → Junk (behind_block xs) ys
      → Junk (c ∷ d ∷ xs) ys

Junk-drop_while : (xs : Runes) {ys : Runes} → Junk (drop_while is_space xs) ys → Junk xs ys
Junk-drop_while [] j = j
Junk-drop_while (c ∷ xs) j = elim (Bool-cases (is_space c)) [
  | inl pass ↦ space pass (Junk-drop_while xs (rw pass at j))
  | inr stop ↦ rw stop at j
]

Junk-eat_whitespace :
    (t : Tokeniser) {ys : Runes} → Junk (remaining (eat_whitespace t)) ys → Junk (remaining t) ys
Junk-eat_whitespace t j = Junk-drop_while (remaining t) (rw remaining-eat_whitespace at j)

pub record Stops (t t' : Tokeniser) : Type 0 where
  pub reads : Reads t t'
  pub skips : Junk (remaining t) (remaining t')
  pub starts : StartsToken (remaining t')

-- The loop ends, where `Stops` says.
record Ends (t : Tokeniser) (o : Option Tokeniser) : Type 0 where
  end : Tokeniser
  result : o ≡ some end
  stops : Stops t end

-- The round ends behind the white space.
Ends-eat_whitespace :
    (t : Tokeniser) {xs : Runes}
    → remaining (eat_whitespace t) ≡ xs
    → StartsToken xs
    → Ends t (some (eat_whitespace t))
Ends-eat_whitespace t h s = record {
  end = eat_whitespace t;
  result = refl;
  stops = record {
    reads = eat_whitespace-Reads t;
    skips = Junk-eat_whitespace t done;
    starts = rw h s;
  };
}

-- The round goes on behind a comment.
Ends-step :
    (t : Tokeniser) {u : Tokeniser} {xs : Runes} {o : Option Tokeniser}
    → Reads t u
    → remaining (eat_whitespace t) ≡ xs
    → ((ys : Runes) → Junk (remaining u) ys → Junk xs ys)
    → Ends u o
    → Ends t o
Ends-step t m h j e = record {
  end = e.end;
  result = e.result;
  stops = record {
    reads = Reads-trans m e.stops.reads;
    skips = Junk-eat_whitespace t (rw h (j (remaining e.end) e.stops.skips));
    starts = e.stops.starts;
  };
}

-- The tokeniser behind white space and the two runes `c` and `d`.
abbrev behind : Tokeniser → ℕ → ℕ → Tokeniser
behind t c d = advance (advance (eat_whitespace t) (c ∷ [])) (d ∷ [])

module _ (fuel : ℕ) (t : Tokeniser) where
  junk_at_end :
      get_next_rune (eat_whitespace t) ≡ none → eat_junk_loop (suc fuel) t ≡ some (eat_whitespace t)
  unfolding eat_junk_loop
  junk_at_end h = ground arith

  junk_at_last :
      {c : ℕ}
      → get_next_rune (eat_whitespace t) ≡ some (c, advance (eat_whitespace t) (c ∷ []))
      → get_next_rune (advance (eat_whitespace t) (c ∷ [])) ≡ none
      → eat_junk_loop (suc fuel) t ≡ some (eat_whitespace t)
  unfolding eat_junk_loop
  junk_at_last h k = ground arith

  junk_at_pair :
      {c d : ℕ}
      → get_next_rune (eat_whitespace t) ≡ some (c, advance (eat_whitespace t) (c ∷ []))
      → get_next_rune (advance (eat_whitespace t) (c ∷ [])) ≡ some (d, behind t c d)
      → eat_junk_loop (suc fuel) t ≡ elim (opening c d) [
        | Opening.line_comment ↦ eat_junk_loop fuel (gather (behind t c d) none is_not_eol).1
        | Opening.block_comment ↦ eat_junk_loop fuel (eat2 (behind t c d) ends_comment)
        | Opening.neither ↦ some (eat_whitespace t)
      ]
  unfolding eat_junk_loop
  junk_at_pair h k = ground arith

Opening-cases :
    (o : Opening) → (o ≡ Opening.line_comment) ⊎ (o ≡ Opening.block_comment) ⊎ (o ≡ Opening.neither)
Opening-cases Opening.line_comment = inl refl
Opening-cases Opening.block_comment = inr (inl refl)
Opening-cases Opening.neither = inr (inr refl)

-- A round that skips a comment has read its two first runes.
record Behind (t : Tokeniser) (c d : ℕ) (xs : Runes) : Type 0 where
  reads : Reads t (behind t c d)
  left : remaining (behind t c d) ≡ xs
  less : length (remaining (behind t c d)) < length (remaining t)

Behind-intro :
    (t : Tokeniser) (c d : ℕ) (xs : Runes)
    → remaining (eat_whitespace t) ≡ c ∷ d ∷ xs
    → Behind t c d xs
Behind-intro t c d xs h =
    let t0 = eat_whitespace t in
    let m0 = eat_whitespace-Reads t in
    let left = remaining-advance t0 (c ∷ []) h in
    let m1 = Reads-advance t0 (c ∷ []) (d ∷ xs) h in
    let m2 = Reads-advance (advance t0 (c ∷ [])) (d ∷ []) xs left in
    let rest = remaining-advance (advance t0 (c ∷ [])) (d ∷ []) left in
    record {
      reads = Reads-trans m0 (Reads-trans m1 m2);
      left = rest;
      less = omega (arith, Reads-left m0, ap length h, ap length rest);
    }

-- One round, if the rounds that follow do their work.
eat_junk_round-Ends :
    (fuel : ℕ) (t : Tokeniser)
    → ((u : Tokeniser) → length (remaining u) < fuel → Ends u (eat_junk_loop fuel u))
    → length (remaining t) < suc fuel
    → (xs : Runes) → remaining (eat_whitespace t) ≡ xs
    → Ends t (eat_junk_loop (suc fuel) t)
eat_junk_round-Ends fuel t rec lt [] h =
    rw (junk_at_end fuel t (get_next_rune-nil (eat_whitespace t) h)) (Ends-eat_whitespace t h tt)
eat_junk_round-Ends fuel t rec lt (c ∷ []) h =
    let t0 = eat_whitespace t in
    let left = remaining-advance t0 (c ∷ []) h in
    rw
      (junk_at_last fuel t (get_next_rune-cons t0 h) (get_next_rune-nil (advance t0 (c ∷ [])) left))
      (Ends-eat_whitespace t h (head-is_space t h))
eat_junk_round-Ends fuel t rec lt (c ∷ d ∷ xs) h =
    let t0 = eat_whitespace t in
    let round =
      junk_at_pair fuel t (get_next_rune-cons t0 h)
        (get_next_rune-cons (advance t0 (c ∷ [])) (remaining-advance t0 (c ∷ []) h)) in
    let b = Behind-intro t c d xs h in
    let after_line = gather-Reads (behind t c d) none is_not_eol in
    let after_block = eat2-Reads (behind t c d) ends_comment in
    elim (Opening-cases (opening c d)) [
      | inl e ↦
          rw (round, e)
            (Ends-step t (Reads-trans b.reads after_line) h
              (λ _ j.
                line (opening-line_comment c d e)
                  (rw (remaining-gather, b.left, drop_while-behind_line xs) at j))
              (rec _ (omega (arith, Reads-left after_line, b.less))))
      | inr (inl e) ↦
          rw (round, e)
            (Ends-step t (Reads-trans b.reads after_block) h
              (λ _ j.
                block (opening-block_comment c d e)
                  (rw (remaining-eat2, b.left, left2-behind_block xs) at j))
              (rec _ (omega (arith, Reads-left after_block, b.less))))
      | inr (inr e) ↦
          rw (round, e) (Ends-eat_whitespace t h (head-is_space t h, opening-neither c d e))
    ]

eat_junk_loop-Ends :
    (fuel : ℕ) (t : Tokeniser) → length (remaining t) < fuel → Ends t (eat_junk_loop fuel t)
eat_junk_loop-Ends zero t lt = absurd (omega arith)
eat_junk_loop-Ends (suc fuel) t lt =
    eat_junk_round-Ends fuel t (eat_junk_loop-Ends fuel) lt (remaining (eat_whitespace t)) refl

eat_junk_loop-fuel : (t : Tokeniser) → Ends t (eat_junk_loop (suc (length t.src)) t)
eat_junk_loop-fuel t =
    eat_junk_loop-Ends (suc (length t.src)) t (omega (arith, length-drop t.position t.src))

-- The fuel does not run out.
pub eat_junk_loop_returns : (t : Tokeniser) → eat_junk_loop (suc (length t.src)) t ≢ none
eat_junk_loop_returns t = not_none (eat_junk_loop-fuel t).result

unfoldable pub eat_junk : Tokeniser → Tokeniser
eat_junk t = returned (eat_junk_loop (suc (length t.src)) t) (eat_junk_loop_returns t)

-- `eatJunk` skips white space and comments and nothing else, up to a place where neither begins, and
-- counts the lines it passes; the two tokens that wait are left as they are. Of a block comment
-- without an end it skips all but the last rune.
pub eat_junk-Stops : (t : Tokeniser) → Stops t (eat_junk t)
unfolding eat_junk
eat_junk-Stops t =
    let e = eat_junk_loop-fuel t in rw (returned-some _ (eat_junk_loop_returns t) e.result) e.stops

-- The loops of `gather`, `eat2`, `eatWhitespace` and `eatJunk` end: wherever the tokeniser stands in
-- its text, one round more than the text has runes is enough for each.
pub inner_loops_return :
    (t : Tokeniser)
    → ((rs : Option Runes) (test : ℕ → Bool) → gather_loop (suc (length t.src)) t rs test ≢ none)
      × ((test : ℕ → ℕ → Bool) → eat2_loop (suc (length t.src)) t test ≢ none)
      × (eat_whitespace_loop (suc (length t.src)) t ≢ none)
      × (eat_junk_loop (suc (length t.src)) t ≢ none)
inner_loops_return t = (
  gather_loop_returns t,
  eat2_loop_returns t,
  eat_whitespace_loop_returns t,
  eat_junk_loop_returns t,
)
