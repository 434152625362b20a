-- ===== src/Ast/Check/Require/Once.antt =====
-- `RequireType` and `RequireVector` of src/ast/check.go, called more than once.
use eyot.Prelude.{
  ℕ, ◌≡◌, refl, ap, ◌∙◌, true, false, Option, none, some, List, [], ◌∷◌, ◌++◌, Text, text_eq,
  text_eq_iff, lookup, insert, lookup-insert, arith, if◌then◌else◌, Outcome, ok, ◌>>=◌, NoError,
  Post, returns, panics, Post-bind, Post-weaken, Post-any, Post-self, Bool-cases, inl, inr,
}
use eyot.Ast.Types.{Ty, nil, cons, selector, struct_id, make_void}
use eyot.Ast.Types.Names.{tuple_identifier, raw_identifier, vector_add_name}
use eyot.Ast.Structs.{StructDefinition}
use eyot.Ast.Scope.{Scope, add_c_function, lookup_struct_definition}
use eyot.Ast.Check.Context.{CheckContext, RequiredStruct, note_cpu_required}
use eyot.Ast.Check.Require.{
  is_set_types, is_aggregate, is_tuple, is_required, named_struct, tuple_struct, module_id_of,
  require_struct, require_named, note_missing, require_aggregate, note_wide_float, require_type,
  require_unless_known, require_vector,
}

-- No two structs have the same type id.
abbrev pub AreApart : List RequiredStruct → Type 0
AreApart [] = Unit
AreApart (rs ∷ structs) = (is_required rs.type_id structs ≡ false) × AreApart structs

is_required-append :
    (id : Text) (structs : List RequiredStruct) (rs : RequiredStruct)
    → is_required id (structs ++ (rs ∷ []))
      ≡ (if is_required id structs then true else text_eq rs.type_id id)
unfolding is_required
is_required-append id [] rs = ground arith
is_required-append id (r ∷ structs) rs = ground (arith, is_required-append id structs rs)

AreApart-append :
    (structs : List RequiredStruct) (rs : RequiredStruct)
    → is_required rs.type_id structs ≡ false
    → AreApart structs
    → AreApart (structs ++ (rs ∷ []))
unfolding is_required
AreApart-append [] rs new apart = (refl, tt)
AreApart-append (r ∷ structs) rs new (h, apart) = (
  is_required-append r.type_id structs rs
      ∙ ground (arith, text_eq_iff r.type_id rs.type_id, text_eq_iff rs.type_id r.type_id),
  AreApart-append structs rs ground (arith, text_eq_iff r.type_id rs.type_id) apart,
)

same_id :
    (m : Outcome NoError Text) (id tyid : Text) (structs : List RequiredStruct)
    → m ≡ ok id
    → m ≡ ok tyid
    → is_required id structs ≡ true
    → is_required tyid structs ≡ true
same_id m id tyid structs e e' h = ground arith

module _ {S E : Type 0} where
  abbrev Once : Text → CheckContext S E → Type 0
  Once tyid c = AreApart c.structs × (is_required tyid c.structs ≡ true)

  require_struct-Once :
      (c : CheckContext S E) (rs : RequiredStruct)
      → is_required rs.type_id c.structs ≡ false
      → AreApart c.structs
      → Once rs.type_id (require_struct c rs)
  require_struct-Once c rs new apart = (
    AreApart-append c.structs rs new apart,
    is_required-append rs.type_id c.structs rs ∙ ground (arith, text_eq_iff rs.type_id rs.type_id),
  )

  require_named-Once :
      (c : CheckContext S E) (tyid : Text) (ty : Ty) (o : Option StructDefinition)
      → is_required tyid c.structs ≡ false
      → AreApart c.structs
      → Once tyid (require_named c tyid ty o)
  unfolding require_named
  require_named-Once c tyid ty (some sd) new apart =
      require_struct-Once c (named_struct tyid ty sd) new apart
  require_named-Once c tyid ty none new apart =
      require_struct-Once (note_missing c ty)
        (named_struct tyid ty (record { fields = []; functions = [] })) new apart

  require_aggregate-Once :
      (format_nat : ℕ → Text) (c : CheckContext S E) (tyid : Text) (ty : Ty) (scope : Scope)
      → AreApart c.structs
      → Post (Once tyid) (require_aggregate format_nat c tyid ty scope)
  unfolding require_aggregate tuple_struct
  require_aggregate-Once format_nat c tyid ty scope apart =
      elim (Bool-cases (is_required tyid c.structs)) [
        | inl old ↦ rw old (returns (apart, old))
        | inr new ↦ rw new (elim (Bool-cases (is_tuple (selector ty))) [
          | inl tuple ↦ rw tuple (
              Post-bind (Post-any (module_id_of c)) λ mid _.
                returns (require_struct-Once c (tuple_struct format_nat tyid mid ty) new apart))
          | inr other ↦ rw other (
              returns (
                require_named-Once c tyid ty (lookup_struct_definition scope (struct_id ty)) new
                  apart))
        ])
      ]

  note_wide_float-structs :
      (c : CheckContext S E) (ty : Ty) → (note_wide_float c ty).structs ≡ c.structs
  unfolding note_cpu_required
  note_wide_float-structs c ty = ground arith

  -- `RequireType` keeps the structs' type ids distinct, and after it the tuple or struct type that
  -- it was called with is required.
  pub require_type-Once :
      (format_nat : ℕ → Text) (c : CheckContext S E) (ty : Ty) (scope : Scope)
      → AreApart c.structs
      → Post
          (λ c'.
            AreApart c'.structs
            × ((tyid : Text)
                → is_aggregate (selector ty) ≡ true
                → tuple_identifier ty ≡ ok tyid
                → is_required tyid c'.structs ≡ true))
          (require_type format_nat c ty scope)
  unfolding require_type
  require_type-Once format_nat c ty scope apart = elim (Bool-cases (is_set_types c.pass)) [
    | inr other_pass ↦ rw other_pass panics
    | inl right_pass ↦ rw right_pass (elim (Bool-cases (is_aggregate (selector ty))) [
      | inr simple ↦
          rw simple
            (returns (rw (note_wide_float-structs c ty) apart, λ tyid h e. absurd (ground arith)))
      | inl aggregate ↦ rw aggregate (
          Post-bind (Post-self (tuple_identifier ty)) λ id named.
            Post-weaken
              (λ c' once. (once.0, λ tyid h e. same_id _ id tyid c'.structs named e once.1))
              (require_aggregate-Once format_nat (note_wide_float c ty) id ty scope
                (rw (note_wide_float-structs c ty) apart)))
    ])
  ]

  require_vector-known :
      (c : CheckContext S E) (id : Text) (ty v : Ty) (scope : Scope)
      → raw_identifier ty ≡ ok id
      → lookup id c.vectors ≡ some v
      → require_vector c ty scope ≡ ok (c, scope)
  unfolding require_vector require_unless_known
  require_vector-known c id ty v scope e known =
      ap (λ m. m >>= λ i. require_unless_known c i ty scope (lookup i c.vectors)) e
      ∙ ap (require_unless_known c id ty scope) known

  require_unless_known-again :
      (c : CheckContext S E) (id : Text) (ty : Ty) (scope : Scope) (o : Option Ty)
      → raw_identifier ty ≡ ok id
      → lookup id c.vectors ≡ o
      → Post (λ p. require_vector (p.0) ty (p.1) ≡ ok p) (require_unless_known c id ty scope o)
  unfolding require_unless_known
  require_unless_known-again c id ty scope (some v) e known =
      returns (require_vector-known c id ty v scope e known)
  require_unless_known-again c id ty scope none e new =
      Post-bind (Post-any (vector_add_name ty)) λ name _.
        Post-bind (Post-any (add_c_function scope name make_void (cons ty nil))) λ scope' _.
          returns (
            require_vector-known (record c { vectors = insert id ty c.vectors }) id ty ty scope' e
              (lookup-insert id id ty c.vectors ∙ ground (arith, text_eq_iff id id)))

  -- Requiring the same vector again changes nothing, neither the context nor the scope.
  pub require_vector-again :
      (c : CheckContext S E) (ty : Ty) (scope : Scope)
      → Post (λ p. require_vector (p.0) ty (p.1) ≡ ok p) (require_vector c ty scope)
  unfolding require_vector
  require_vector-again c ty scope =
      Post-bind (Post-self (raw_identifier ty))
        λ id e. require_unless_known-again c id ty scope (lookup id c.vectors) e refl
