-- ===== src/Ast/Scope/Variables.antt =====
-- `SetVariable` of src/ast/scope.go and the look-ups behind it.
use eyot.Prelude.{
  ◌≡◌, ◌⊎◌, inl, inr, refl, ap, ◌∙◌, Bool, true, false, Option, none, some, ◌∷◌, Text, text_eq,
  lookup, insert, lookup-insert, if◌then◌else◌, ok, panic, Bool-cases, arith,
}
use eyot.Ast.Scope.{
  VariableBinding, Frame, Scope, set_location, lookup_up, lookup_variable_type, rebind, new_binding,
  set_variable,
}
use eyot.Ast.Types.{Ty, FunctionLocation, location, is_callable}

abbrev here_or_above : Option VariableBinding → Option VariableBinding → Option VariableBinding
here_or_above here above = elim here [ some v ↦ some v | none ↦ above ]

here_or_above-if :
    (t : Bool) (b : VariableBinding) (o p : Option VariableBinding)
    → here_or_above (if t then some b else o) p ≡ (if t then some b else here_or_above o p)
here_or_above-if true b o p = refl
here_or_above-if false b o p = refl

-- What a look-up finds after a binding was put under a name on the innermost level.
lookup_up-insert :
    (f f' : Frame) (parent : Scope) (ident j : Text) (b : VariableBinding)
    → f'.variable_bindings ≡ insert ident b f.variable_bindings
    → lookup_variable_type (f' ∷ parent) j
      ≡ (if text_eq ident j then some b else lookup_variable_type (f ∷ parent) j)
unfolding lookup_variable_type lookup_up
lookup_up-insert f f' parent ident j b e =
    ap (λ o. here_or_above o (lookup_variable_type parent j))
      (ap (lookup j) e ∙ lookup-insert ident j b f.variable_bindings)
    ∙ here_or_above-if (text_eq ident j) b (lookup j f.variable_bindings)
        (lookup_variable_type parent j)

abbrev fresh : Ty → Bool → VariableBinding
fresh ty assignable = record { variable_type = ty; assignable = assignable }

-- The locations of two callables: one is for the CPU and the other for the GPU.
abbrev pub opposite : FunctionLocation → FunctionLocation → Bool
opposite FunctionLocation.cpu FunctionLocation.gpu = true
opposite FunctionLocation.gpu FunctionLocation.cpu = true
opposite _ _ = false

-- The binding that a name gets, by the one that it has. A callable over its counterpart for the other
-- processor keeps the old type, which may then run anywhere, and the old assignability; anything else
-- is put in place of what is there.
pub data Binds (ty : Ty) (assignable : Bool)
    : Option VariableBinding → VariableBinding → Type 0 where
  no_callable :
      {old : Option VariableBinding}
      → is_callable ty ≡ false
      → Binds ty assignable old (fresh ty assignable)
  first : Binds ty assignable none (fresh ty assignable)
  replaces :
      {old : VariableBinding}
      → is_callable ty ≡ true
      → is_callable old.variable_type ≡ true
      → opposite (location old.variable_type) (location ty) ≡ false
      → Binds ty assignable (some old) (fresh ty assignable)
  joins :
      {old : VariableBinding}
      → is_callable ty ≡ true
      → is_callable old.variable_type ≡ true
      → opposite (location old.variable_type) (location ty) ≡ true
      → Binds ty assignable
          (some old)
          (record old { variable_type = set_location FunctionLocation.anywhere old.variable_type })

-- A callable is put over what cannot be called.
abbrev pub Clashes : Ty → Option VariableBinding → Type 0
Clashes ty none = ⊥
Clashes ty (some old) = (is_callable ty ≡ true) × (is_callable old.variable_type ≡ false)

abbrev shared : VariableBinding → VariableBinding
shared old = record old { variable_type = set_location FunctionLocation.anywhere old.variable_type }

new_binding-callable :
    (old : VariableBinding) (ty : Ty) (assignable : Bool) (l m : FunctionLocation)
    → is_callable ty ≡ true
    → is_callable old.variable_type ≡ true
    → location old.variable_type ≡ l
    → location ty ≡ m
    → (b : VariableBinding) × (new_binding (some old) ty assignable ≡ ok b)
      × Binds ty assignable (some old) b
unfolding new_binding rebind
new_binding-callable old ty assignable FunctionLocation.cpu FunctionLocation.cpu h k e e' =
    (fresh ty assignable, rw (h, k, e, e') refl, replaces h k (rw (e, e') refl))
new_binding-callable old ty assignable FunctionLocation.cpu FunctionLocation.gpu h k e e' =
    (shared old, rw (h, k, e, e') refl, joins h k (rw (e, e') refl))
new_binding-callable old ty assignable FunctionLocation.cpu FunctionLocation.anywhere h k e e' =
    (fresh ty assignable, rw (h, k, e, e') refl, replaces h k (rw (e, e') refl))
new_binding-callable old ty assignable FunctionLocation.gpu FunctionLocation.cpu h k e e' =
    (shared old, rw (h, k, e, e') refl, joins h k (rw (e, e') refl))
new_binding-callable old ty assignable FunctionLocation.gpu FunctionLocation.gpu h k e e' =
    (fresh ty assignable, rw (h, k, e, e') refl, replaces h k (rw (e, e') refl))
new_binding-callable old ty assignable FunctionLocation.gpu FunctionLocation.anywhere h k e e' =
    (fresh ty assignable, rw (h, k, e, e') refl, replaces h k (rw (e, e') refl))
new_binding-callable old ty assignable FunctionLocation.anywhere m h k e e' =
    (fresh ty assignable, rw (h, k, e) refl, replaces h k (rw e refl))

new_binding-Binds :
    (old : Option VariableBinding) (ty : Ty) (assignable : Bool)
    → ((new_binding old ty assignable ≡ panic) × Clashes ty old)
      ⊎ ((b : VariableBinding) × (new_binding old ty assignable ≡ ok b) × Binds ty assignable old b)
unfolding new_binding rebind
new_binding-Binds none ty assignable = inr (fresh ty assignable, ground arith, first)
new_binding-Binds (some old) ty assignable = elim (Bool-cases (is_callable ty)) [
  | inr h ↦ inr (fresh ty assignable, rw h refl, no_callable h)
  | inl h ↦ elim (Bool-cases (is_callable old.variable_type)) [
    | inl k ↦ inr (new_binding-callable old ty assignable _ _ h k refl refl)
    | inr k ↦ inl (rw (h, k) refl, (h, k))
  ]
]

-- `SetVariable` panics exactly where it puts a callable over what cannot be called. Elsewhere the name
-- gets the binding that `Binds` says on the innermost level, and every other name is found as before.
pub set_variable-lookup :
    (f : Frame) (parent : Scope) (ident j : Text) (ty : Ty) (assignable : Bool)
    → ((set_variable (f ∷ parent) ident ty assignable ≡ panic)
        × Clashes ty (lookup ident f.variable_bindings))
      ⊎ ((s : Scope) × (b : VariableBinding) × (set_variable (f ∷ parent) ident ty assignable
            ≡ ok s)
          × Binds ty assignable (lookup ident f.variable_bindings) b
          × (lookup_variable_type s j
              ≡ (if text_eq ident j then some b else lookup_variable_type (f ∷ parent) j)))
unfolding set_variable
set_variable-lookup f parent ident j ty assignable =
    elim (new_binding-Binds (lookup ident f.variable_bindings) ty assignable) [
      | inl (e, clash) ↦ inl (rw e refl, clash)
      | inr (b, e, binds) ↦
          let f' = record f { variable_bindings = insert ident b f.variable_bindings } in
          inr (f' ∷ parent, b, rw e refl, binds, lookup_up-insert f f' parent ident j b refl)
    ]
