-- ===== src/Ast/Check/LValues.antt =====
-- src/ast/lvalues.go: what is assigned to, in the pass KPassSetTypes.
use eyot.Prelude.{
  ℕ, suc, Bool, true, false, not, ◌&&◌, Option, none, some, ◌++◌, codes, Text, ◌==◌, if◌then◌else◌,
  Outcome, ok, panic, ◌>>=◌, NoError,
}
use eyot.Token.Printed.{Format}
use eyot.Ast.Ids.{struct_key}
use eyot.Ast.Structs.{StructDefinition, StructField, get_field}
use eyot.Ast.Types.{
  Ty, Types, nil, cons, TypeSelector, types, struct_id, plain, make_pointer, count_types,
  first_type, unwrapped,
}
use eyot.Ast.Types.Printed.{type_string}
use eyot.Ast.Scope.{
  Scope, VariableBinding, blank_type, lookup_variable_type, lookup_struct_definition, set_variable,
  cannot_be_defined_at_this_level,
}
use eyot.Ast.Syntax.{
  LValue, LValues, no_lvalues, lvalue, identifier, self, deref, accessor, index, multiple,
}
use eyot.Ast.Check.Pass.{Pass, pure, ◌>>>=◌, ◌>>>◌, demand, fail, guarded, get_scope}
use eyot.Ast.Check.Nodes.{Typed, has_selector, pointed_at}
use eyot.Ast.Check.Expressions.{check, cons_type, tuple_of}

-- What `UpdateScope` comes to: the scope, and the error that it returns.
abbrev pub Updated : Type 0
Updated = Outcome NoError (Scope × Option Text)

abbrev pub count_lvalues : LValues → ℕ
count_lvalues no_lvalues = 0
count_lvalues (lvalue l ls) = suc (count_lvalues ls)

abbrev pub updated : Scope → Updated
updated s = ok (s, none)

unfoldable mutual
  pub update_scope : LValue → Ty → Bool → Scope → Updated
  update_scope (identifier name) ty assignable s =
      if cannot_be_defined_at_this_level s name
      then ok (
        s,
        some (
            codes "'"
            ++ (name ++ codes "' has already been defined in this scope and cannot be redefined")),
      )
      else (set_variable s name ty assignable >>= updated)
  update_scope self ty assignable s =
      set_variable s (codes "__self__") (make_pointer ty) assignable >>= updated
  update_scope (deref l) ty assignable s =
      ok (s, some (codes "Accessor LValue should not be written to scope"))
  update_scope (accessor l name) ty assignable s =
      ok (s, some (codes "Accessor LValue should not be written to scope"))
  update_scope (index l e) ty assignable s =
      ok (s, some (codes "Index LValue should not be written to scope"))
  update_scope (multiple ls) ty assignable s =
      let each = update_all ls (types ty) assignable s in
      if not (has_selector TypeSelector.tuple ty)
      then ok (s, some (codes "type assigned to multiple lvalues must b ea tuple"))
      else if not (count_lvalues ls == count_types (types ty))
      then ok (s, some (codes "Wrong number of expressions on LHS of multiple assign"))
      else each

  -- The loop over the types, which ends at the first error
  pub update_all : LValues → Types → Bool → Scope → Updated
  update_all ls nil assignable s = ok (s, none)
  update_all no_lvalues (cons ty tys) assignable s = panic
  update_all (lvalue l ls) (cons ty tys) assignable s =
      update_scope l ty assignable s >>= λ (s', error). elim error [
        | none ↦ update_all ls tys assignable s'
        | some e ↦ ok (s', some e)
      ]

-- What `CheckAssignable` answers, and what `Type` comes to after it.
pub record Assigned : Type 0 where
  pub assignable : Bool
  pub type : Typed

abbrev pub refused : Assigned
refused = record { assignable = false; type = ok blank_type }

abbrev refuse : Text → Pass Assigned
refuse message = fail message >>> pure refused

abbrev is_self : LValue → Bool
is_self self = true
is_self _ = false

unfoldable pub assigned_variable : Text → Option VariableBinding → Pass Assigned
assigned_variable message (some b) =
    pure (record { assignable = b.assignable; type = ok b.variable_type })
assigned_variable message none = refuse message

-- The object itself is not assignable, whatever the binding says.
unfoldable pub assigned_self : Option VariableBinding → Pass Assigned
assigned_self (some b) = pure (record { assignable = false; type = ok b.variable_type })
assigned_self none = refuse (codes "SelfLValue.Type Could not find type")

unfoldable pub assigned_field : Text → Bool → Option StructField → Pass Assigned
assigned_field name assignable (some field) =
    pure (record { assignable = assignable; type = ok field.type })
assigned_field name assignable none = refuse (codes "Could not find field named " ++ name)

unfoldable pub assigned_member : Ty → Text → Bool → Option StructDefinition → Pass Assigned
unfolding assigned_field
assigned_member ty name assignable (some sd) = assigned_field name assignable (get_field sd name)
assigned_member ty name assignable none =
    refuse (codes "Could not find struct of type " ++ struct_key (struct_id ty))

unfoldable pub check_deref : Assigned → Pass Assigned
check_deref a = demand a.type >>>= λ ty.
    (if has_selector TypeSelector.pointer ty
      then pure tt
      else fail (codes "DerefLValue is not dereferencing a pointer"))
    >>> pure (record { assignable = a.assignable; type = a.type >>= pointed_at })

-- The type without the pointer that stands before an index
abbrev pub behind_pointer : Ty → Typed
behind_pointer ty = if has_selector TypeSelector.pointer ty then first_type (types ty) else ok ty

-- `type_text` and `lvalue_text` are what the `%v` of package fmt writes of types and of what is
-- assigned to.
module _ (f : Format) (type_text : Ty → Text) (lvalue_text : LValue → Text) where
  unfoldable pub check_accessor : Bool → Text → Typed → Pass Assigned
  unfolding assigned_member
  check_accessor assignable name t = demand t >>>= λ inner. demand (unwrapped inner) >>>= λ it.
      if has_selector TypeSelector.struct it
      then (get_scope >>>= λ s.
          assigned_member it name assignable (lookup_struct_definition s (struct_id it)))
      else (demand (type_string f it) >>>= λ text.
          refuse (codes "Cannot assign to a field of a non-struct type: " ++ text))

  unfoldable pub check_indexed : LValue → Assigned → Pass Assigned
  check_indexed l a = demand a.type >>>= λ ty. demand (behind_pointer ty) >>>= λ ity.
      if has_selector TypeSelector.vector ity
      then (demand (first_type (types ity)) >>>= λ element.
          pure (record { assignable = a.assignable; type = ok element }))
      else if has_selector TypeSelector.string ity
      then pure (record { assignable = a.assignable; type = ok (plain TypeSelector.character nil) })
      else (fail (
            codes "Can only index lvalue vectors ("
            ++ (type_text ity ++ (codes ", " ++ (lvalue_text l ++ codes ")"))))
          >>> pure (record { assignable = a.assignable; type = ok blank_type }))

  unfoldable mutual
    unfolding check assigned_variable assigned_self check_deref check_accessor check_indexed

    pub check_assignable : LValue → Pass Assigned
    check_assignable (identifier name) = get_scope >>>= λ s.
        assigned_variable
          (codes "IdentifierLValue.Type Could not find type for '"
            ++ (name ++ (codes "': " ++ lvalue_text (identifier name))))
          (lookup_variable_type s name)
    check_assignable self =
        get_scope >>>= λ s. assigned_self (lookup_variable_type s (codes "__self__"))
    check_assignable (deref l) = check_assignable l >>>= check_deref
    check_assignable (accessor l name) = check_assignable l >>>= λ a.
        guarded refused (check_accessor (if is_self l then true else a.assignable) name a.type)
    check_assignable (index l e) =
        check f type_text e >>> check_assignable l >>>= λ a. guarded refused (check_indexed l a)
    check_assignable (multiple ls) = check_list ls >>>= λ (assignable, ts).
        pure (record { assignable = assignable; type = tuple_of ts })

    -- All of them, whatever they answer
    pub check_list : LValues → Pass (Bool × Outcome NoError Types)
    check_list no_lvalues = pure (true, ok nil)
    check_list (lvalue l ls) = check_assignable l >>>= λ a. check_list ls >>>= λ (assignable, ts).
        pure (a.assignable && assignable, cons_type a.type ts)
