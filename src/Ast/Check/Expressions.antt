-- ===== src/Ast/Check/Expressions.antt =====
-- src/ast/expressions.go, closure.go and worker-expressions.go: `Check` of every node that the parser
-- builds, in the pass KPassSetTypes.
use eyot.Prelude.{
  Bool, none, some, List, [], ◌∷◌, ◌++◌, codes, Text, if◌then◌else◌, Outcome, ok, panic, ◌>>=◌,
  NoError,
}
use eyot.Token.Printed.{Format}
use eyot.Ast.Structs.{struct_type}
use eyot.Ast.Types.{Ty, Types, nil, cons, TypeSelector, plain, make_vector}
use eyot.Ast.Scope.{blank_type}
use eyot.Ast.Syntax.{
  Expression, Expressions, no_expressions, entry, nil_entry, Pairs, no_pairs, pair, null_literal,
  self_terminal, cast, boolean, character, integer, string, gpu_builtin, identifier, float,
  struct_literal, tuple, access, binary, unary, index, call, new, dereference, vector_literal,
  range, closure, create_worker, receive_worker, create_pipeline,
}
use eyot.Ast.Check.Pass.{Pass, pure, ◌>>>=◌, ◌>>>◌, demand, fail, guarded, note_cpu, require}
use eyot.Ast.Check.Nodes.{
  Typed, Node, own, print_type, float_type, fresh_types, pointer_to, pointed_at, received_type,
  closure_type, has_selector,
}
use eyot.Ast.Check.Operators.{boolean_type, integer_type}
use eyot.Ast.Check.Parts.{
  is_print, finish, check_variable, check_builtin, check_binary, check_unary, check_access,
  check_index, require_method, check_called, check_elements, assert_type, check_closure,
  blank_worker, check_worker, check_pipeline, nothing,
}

abbrev pub blank_node : Node
blank_node = own (ok blank_type)

-- The type of a tuple from what its parts come to
abbrev pub tuple_of : Outcome NoError Types → Typed
tuple_of ts = ts >>= λ tys. ok (plain TypeSelector.tuple tys)

abbrev pub cons_type : Typed → Outcome NoError Types → Outcome NoError Types
cons_type t ts = t >>= λ ty. ts >>= λ tys. ok (cons ty tys)

module _ (f : Format) (type_text : Ty → Text) where
  -- The type of the initialiser is looked at where its check leaves the log clean.
  unfoldable pub check_new : Typed → Pass Node
  check_new t =
      guarded (own (t >>= pointer_to))
        (demand t >>>= λ ty. require f.int ty >>> pure (own (t >>= pointer_to)))

  unfoldable pub check_receive : Bool → Typed → Pass Node
  unfolding received_type
  check_receive all t = guarded (own (t >>= received_type all)) (
      demand t >>>= λ ty.
      (if has_selector TypeSelector.worker ty
        then nothing
        else fail (codes "Expected a pipe after 'receive'"))
      >>> pure (own (t >>= received_type all)))

  unfoldable pub check_tuple : Outcome NoError Types → Pass Node
  check_tuple ts = guarded (own (tuple_of ts)) (demand (tuple_of ts) >>>= finish f type_text)

  unfoldable mutual
    unfolding check_variable check_builtin check_binary check_unary check_access check_index
        require_method check_called check_elements assert_type check_closure check_worker
        check_pipeline is_print check_new check_receive check_tuple fresh_types

    pub check : Expression → Pass Node
    check null_literal = pure (own (ok (plain TypeSelector.null nil)))
    check (cast ty e) = check e >>> guarded (own (ok ty)) (finish f type_text ty)
    check self_terminal =
        check_variable f type_text (codes "SelfTerminal: Could not find a type for self")
          (codes "__self__")
    check (boolean b) = finish f type_text boolean_type
    check (character c) = finish f type_text (plain TypeSelector.character nil)
    check (integer n) = finish f type_text integer_type
    check (string s) = finish f type_text (plain TypeSelector.string nil)
    check (gpu_builtin name) = check_builtin f type_text name
    check (identifier name (some r)) = pure (own (ok r.cached_type))
    check (identifier name none) =
        check_variable f type_text (codes "Failed to find variable type " ++ name) name
    check (float l z r w) = finish f type_text (float_type w)
    check (struct_literal id ps) =
        check_pairs ps >>> guarded (own (ok (struct_type id))) (finish f type_text (struct_type id))
    check (tuple es) = check_parts es >>>= check_tuple
    check (access e name) = check e >>>= λ n.
        guarded (record { type = ok blank_type; accessed = some n.type })
          (check_access f type_text n.type name)
    check (binary op l r) = check l >>>= λ n.
        check r >>>= λ m. guarded blank_node (check_binary f type_text op n.type m.type)
    check (unary op e) = check e >>>= λ n. guarded blank_node (check_unary f type_text op n.type)
    check (index e i) = check e >>>= λ n.
        guarded blank_node
          (check i >>>= λ m. guarded blank_node (check_index f type_text n.type m.type))
    check (call e es) =
        let called = check e in
        (if is_print e then finish f type_text print_type else called) >>>= λ n.
        guarded blank_node (
          require_method f type_text n.accessed
          >>> guarded blank_node
              (check_arguments es >>> guarded blank_node (check_called f type_text n.type)))
    check (new e) = note_cpu (codes "new expression") >>> check e >>>= λ n. check_new n.type
    check (dereference e) = check e >>>= λ n. pure (own (n.type >>= pointed_at))
    check (vector_literal ty es) = note_cpu (codes "vector literal") >>> check_all es >>>= λ ts.
        check_elements f type_text ty ts >>> pure (own (ok (make_vector ty)))
    check (range c s t) = check c >>>= λ n. check s >>>= λ m. check t >>>= λ k.
        assert_type f type_text TypeSelector.integer n.type
        >>> assert_type f type_text TypeSelector.integer m.type
        >>> assert_type f type_text TypeSelector.integer k.type
        >>> pure (own (ok (make_vector integer_type)))
    check (closure e es) = check e >>>= λ n.
        guarded (own (n.type >>= closure_type es)) (check_closure f type_text es n.type)
    check (create_worker e d) = note_cpu (codes "create worker") >>> check e >>>= λ n.
        guarded (own (ok blank_worker)) (check_worker f type_text d n.type)
    check (receive_worker e all) =
        note_cpu (codes "receive from worker") >>> check e >>>= λ n. check_receive all n.type
    check (create_pipeline l r) = note_cpu (codes "create pipeline") >>> check l >>>= λ n.
        check r >>>= λ m. guarded (own (ok blank_worker)) (check_pipeline f type_text n.type m.type)

    -- The values of a struct literal, up to the first that leaves an error
    pub check_pairs : Pairs → Pass (Unit {0})
    check_pairs no_pairs = nothing
    check_pairs (pair name e ps) = check e >>> guarded tt (check_pairs ps)

    -- The parts of a tuple; those behind an error are left as they are.
    pub check_parts : Expressions → Pass (Outcome NoError Types)
    check_parts no_expressions = pure (ok nil)
    check_parts (entry e es) = check e >>>= λ n.
        guarded (cons_type n.type (fresh_types es))
          (check_parts es >>>= λ ts. pure (cons_type n.type ts))
    check_parts (nil_entry es) = demand panic

    -- The arguments of a call
    pub check_arguments : Expressions → Pass (Unit {0})
    check_arguments no_expressions = nothing
    check_arguments (entry e es) = check e >>> guarded tt (check_arguments es)
    check_arguments (nil_entry es) = demand panic

    -- The initialisers of a vector, all of them
    pub check_all : Expressions → Pass (List Typed)
    check_all no_expressions = pure []
    check_all (entry e es) = check e >>>= λ n. check_all es >>>= λ ts. pure (n.type ∷ ts)
    check_all (nil_entry es) = demand panic
