-- ===== src/Ast/Check/Pass.antt =====
-- src/ast: a call of `Check` as a function of the context that the passes share and of the scope
-- that a node stands in.
pub mod Rules
pub mod Steps
pub mod Sequence
pub mod Brackets
use eyot.Prelude.{
  ℕ, [], ◌∷◌, Bool, true, false, Option, none, some, Text, codes, if◌then◌else◌, Outcome, ok, err,
  panic, ◌>>=◌, NoError,
}
use eyot.Errors.{errorf, clean}
use eyot.Ast.Types.{Ty, Types, Checked, OutOfFuel}
use eyot.Ast.Scope.{Scope, new_scope}
use eyot.Ast.Syntax.{Statement, Element}
use eyot.Ast.Check.Context.{
  CheckContext, note_cpu_required, note_gpu_required, get_unique_id, set_gpu_required,
}
use eyot.Ast.Check.Require.{require_type, require_vector}

pub record PassState : Type 0 where
  pub context : CheckContext Statement Element
  pub scope : Scope

abbrev pub Pass : Type 0 → Type 0
Pass A = PassState → Checked (A × PassState)

abbrev pub widen : {A : Type 0} → Outcome NoError A → Checked A
widen (ok a) = ok a
widen (err e) = elim e [ ]
widen panic = panic

unfoldable pub pure : {A : Type 0} → A → Pass A
pure a st = ok (a, st)

infixr 5 ◌>>>=◌ ◌>>>◌
unfoldable pub ◌>>>=◌ : {A B : Type 0} → Pass A → (A → Pass B) → Pass B
◌>>>=◌ m k st = m st >>= λ (a, st'). k a st'

abbrev pub ◌>>>◌ : {A B : Type 0} → Pass A → Pass B → Pass B
m >>> k = m >>>= λ _. k

-- Something that a call comes to, without the state
unfoldable pub force : {A : Type 0} → Checked A → Pass A
force m st = m >>= λ a. ok (a, st)

-- The same, of a call that returns no error
unfoldable pub demand : {A : Type 0} → Outcome NoError A → Pass A
demand m st = widen m >>= λ a. ok (a, st)

unfoldable pub fail : Text → Pass (Unit {0})
fail message st =
    ok (tt, record st { context = record st.context { errors = errorf st.context.errors message } })

unfoldable pub is_clean : Pass Bool
is_clean st = ok (clean st.context.errors, st)

-- `if !ctx.Errors.Clean() { return }`, where `early` is what the node is left with
unfoldable pub guarded : {A : Type 0} → A → Pass A → Pass A
unfolding is_clean
guarded early k = is_clean >>>= λ good. if good then k else pure early

unfoldable pub get_scope : Pass Scope
get_scope st = ok (st.scope, st)

unfoldable pub put_scope : Scope → Pass (Unit {0})
put_scope s st = ok (tt, record st { scope = s })

unfoldable pub get_context : Pass (CheckContext Statement Element)
get_context st = ok (st.context, st)

unfoldable pub note_cpu : Text → Pass (Unit {0})
note_cpu message st = ok (tt, record st { context = note_cpu_required st.context message })

unfoldable pub note_gpu : Text → Pass (Unit {0})
note_gpu message st = ok (tt, record st { context = note_gpu_required st.context message })

unfoldable pub require_gpu : Pass (Unit {0})
require_gpu st = ok (tt, record st { context = set_gpu_required st.context })

-- `GetTemporaryName`, without the name, which the passes that follow use
unfoldable pub take_temporary_name : Pass (Unit {0})
take_temporary_name st = ok (tt, record st { context = (get_unique_id st.context).1 })

unfoldable pub require_vector_of : Ty → Pass (Unit {0})
require_vector_of ty st = widen (require_vector st.context ty st.scope) >>= λ (cc, s).
    ok (tt, record { context = cc; scope = s })

-- What changes the context alone
unfoldable pub change :
    (CheckContext Statement Element → CheckContext Statement Element) → Pass (Unit {0})
change g st = ok (tt, record st { context = g st.context })

unfoldable pub attempt :
    (CheckContext Statement Element → Outcome NoError (CheckContext Statement Element))
    → Pass (Unit {0})
attempt g st = widen (g st.context) >>= λ cc. ok (tt, record st { context = cc })

-- What changes the scope alone
unfoldable pub rescope : (Scope → Outcome NoError Scope) → Pass (Unit {0})
rescope g st = widen (g st.scope) >>= λ s. ok (tt, record st { scope = s })

-- The levels around the innermost one
abbrev pub parents : Scope → Scope
parents [] = []
parents (_ ∷ parent) = parent

-- A level of the scope for the time of a call
unfoldable pub within_scope : Pass (Unit {0}) → Pass (Unit {0})
within_scope m st = m (record st { scope = new_scope st.scope }) >>= λ (_, st').
    ok (tt, record st' { scope = parents st'.scope })

-- `format_nat` as for `require_type`
module _ (format_nat : ℕ → Text) where
  unfoldable pub require : Ty → Pass (Unit {0})
  require ty st = widen (require_type format_nat st.context ty st.scope) >>= λ cc.
      ok (tt, record st { context = cc })
