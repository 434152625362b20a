-- ===== src/Token/State/Gather.antt =====
-- src/token/tokeniser.go: the loops `gather` and `eat2`, and what they read in terms that know no
-- position and no fuel.
use eyot.Prelude.{
  true, false, ◌≢◌, returned, returned-some, not_none, ℕ, zero, suc, ◌<◌, ◌≡◌, refl, Bool, Option,
  none, some, [], ◌∷◌, ◌++◌, length, take_while, if◌then◌else◌, arith, append-nil, append_assoc,
  length-drop,
}
use eyot.Token.State.{Runes, Tokeniser, get_next_rune, backup}
use eyot.Token.State.Advance.{
  remaining, advance, advance-nil, advance-append, backup-get_next_rune, get_next_rune-nil,
  get_next_rune-cons, remaining-advance,
}
use mathlib.Core.Option

-- `rs` is `nil` where the caller does not want the runes. One round of the loop for each rune, and
-- `none` where the fuel runs out.
unfoldable pub gather_loop :
    ℕ → Tokeniser → Option Runes → (ℕ → Bool) → Option (Option Runes × Tokeniser)
gather_loop zero t rs test = none
gather_loop (suc fuel) t rs test = elim (get_next_rune t) [
  | none ↦ some (rs, t)
  | some (r, t') ↦ elim (test r) [
    | true ↦ gather_loop fuel t' (Option.map (λ l. l ++ r ∷ []) rs) test
    | false ↦ some (rs, backup t')
  ]
]

abbrev pub append_to : Option Runes → Runes → Option Runes
append_to rs w = Option.map (λ l. l ++ w) rs

append_to-nil : (rs : Option Runes) → append_to rs [] ≡ rs
append_to-nil none = refl
append_to-nil (some l) = rw append-nil

append_to-append :
    (rs : Option Runes) (v w : Runes) → append_to (append_to rs v) w ≡ append_to rs (v ++ w)
append_to-append none v w = refl
append_to-append (some l) v w = rw append_assoc

gather_loop-take_while :
    (test : ℕ → Bool) (xs : Runes) (fuel : ℕ) (t : Tokeniser) (rs : Option Runes)
    → remaining t ≡ xs
    → length xs < fuel
    → gather_loop fuel t rs test
      ≡ some (append_to rs (take_while test xs), advance t (take_while test xs))
unfolding gather_loop
gather_loop-take_while test xs zero t rs h lt = absurd (omega arith)
gather_loop-take_while test [] (suc fuel) t rs h lt =
    ground (arith, get_next_rune-nil t h, append_to-nil rs, advance-nil t)
gather_loop-take_while test (r ∷ xs) (suc fuel) t rs h lt =
    let first = get_next_rune-cons t h in
    let left = remaining-advance t (r ∷ []) h in
    let w = take_while test xs in
    ground (
      arith,
      first,
      backup-get_next_rune t _ r first,
      append_to-nil rs,
      advance-nil t,
      gather_loop-take_while test xs fuel (advance t (r ∷ [])) (append_to rs (r ∷ [])) left,
      append_to-append rs (r ∷ []) w,
      advance-append t (r ∷ []) w,
    )

gather_loop-fuel :
    (t : Tokeniser) (rs : Option Runes) (test : ℕ → Bool)
    → gather_loop (suc (length t.src)) t rs test
      ≡ some
          (append_to rs (take_while test (remaining t)), advance t (take_while test (remaining t)))
gather_loop-fuel t rs test =
    gather_loop-take_while test (remaining t) _ t rs refl
      (omega (arith, length-drop t.position t.src))

-- The fuel does not run out.
pub gather_loop_returns :
    (t : Tokeniser) (rs : Option Runes) (test : ℕ → Bool)
    → gather_loop (suc (length t.src)) t rs test ≢ none
gather_loop_returns t rs test = not_none (gather_loop-fuel t rs test)

unfoldable pub gather : Tokeniser → Option Runes → (ℕ → Bool) → Option Runes × Tokeniser
gather t rs test =
    returned (gather_loop (suc (length t.src)) t rs test) (gather_loop_returns t rs test)

-- `gather` reads the longest prefix of the rest of the text whose runes pass the test, appends it to
-- the runes of the caller, if there are some, and counts its newlines.
pub gather-take_while :
    (t : Tokeniser) (rs : Option Runes) (test : ℕ → Bool)
    → gather t rs test
      ≡ (append_to rs (take_while test (remaining t)), advance t (take_while test (remaining t)))
unfolding gather
gather-take_while t rs test = returned-some _ _ (gather_loop-fuel t rs test)

-- `none` where the fuel runs out.
unfoldable pub eat2_loop : ℕ → Tokeniser → (ℕ → ℕ → Bool) → Option Tokeniser
eat2_loop zero t test = none
eat2_loop (suc fuel) t test = elim (get_next_rune t) [
  | none ↦ some t
  | some (r1, t1) ↦ elim (get_next_rune t1) [
    | none ↦ some (backup t1)
    | some (r2, t2) ↦ elim (test r1 r2) [ true ↦ some t2 | false ↦ eat2_loop fuel (backup t2) test ]
  ]
]

-- What `eat2` reads: up to the first pair that passes. Where no pair does, all but the last rune.
abbrev pub eaten2 : (ℕ → ℕ → Bool) → Runes → Runes
eaten2 test [] = []
eaten2 test (c ∷ []) = []
eaten2 test (c ∷ d ∷ xs) = if test c d then c ∷ d ∷ [] else c ∷ eaten2 test (d ∷ xs)

eat2_loop-eaten2 :
    (test : ℕ → ℕ → Bool) (xs : Runes) (fuel : ℕ) (t : Tokeniser)
    → remaining t ≡ xs
    → length xs < fuel
    → eat2_loop fuel t test ≡ some (advance t (eaten2 test xs))
unfolding eat2_loop
eat2_loop-eaten2 test xs zero t h lt = absurd (omega arith)
eat2_loop-eaten2 test [] (suc fuel) t h lt = ground (arith, get_next_rune-nil t h, advance-nil t)
eat2_loop-eaten2 test (c ∷ []) (suc fuel) t h lt =
    let first = get_next_rune-cons t h in
    let left = remaining-advance t (c ∷ []) h in
    ground (
      arith,
      first,
      get_next_rune-nil (advance t (c ∷ [])) left,
      advance-nil t,
      backup-get_next_rune t _ c first,
    )
eat2_loop-eaten2 test (c ∷ d ∷ xs) (suc fuel) t h lt =
    let first = get_next_rune-cons t h in
    let left = remaining-advance t (c ∷ []) h in
    let second = get_next_rune-cons (advance t (c ∷ [])) left in
    ground (
      arith,
      first,
      second,
      backup-get_next_rune (advance t (c ∷ [])) _ d second,
      eat2_loop-eaten2 test (d ∷ xs) fuel (advance t (c ∷ [])) left,
      advance-append t (c ∷ []) (eaten2 test (d ∷ xs)),
      advance-append t (c ∷ []) (d ∷ []),
    )

eat2_loop-fuel :
    (t : Tokeniser) (test : ℕ → ℕ → Bool)
    → eat2_loop (suc (length t.src)) t test ≡ some (advance t (eaten2 test (remaining t)))
eat2_loop-fuel t test =
    eat2_loop-eaten2 test (remaining t) _ t refl (omega (arith, length-drop t.position t.src))

-- The fuel does not run out.
pub eat2_loop_returns :
    (t : Tokeniser) (test : ℕ → ℕ → Bool) → eat2_loop (suc (length t.src)) t test ≢ none
eat2_loop_returns t test = not_none (eat2_loop-fuel t test)

unfoldable pub eat2 : Tokeniser → (ℕ → ℕ → Bool) → Tokeniser
eat2 t test = returned (eat2_loop (suc (length t.src)) t test) (eat2_loop_returns t test)

-- `eat2` reads up to the end of the first two neighbouring runes that pass the test. Where no two
-- do, it reads all of the text but its last rune.
pub eat2-eaten2 :
    (t : Tokeniser) (test : ℕ → ℕ → Bool) → eat2 t test ≡ advance t (eaten2 test (remaining t))
unfolding eat2
eat2-eaten2 t test = returned-some _ _ (eat2_loop-fuel t test)
