-- ===== src/Lib.antt =====
-- The compiler of the Eyot language (the Go code below src/): from the text of a module to its tree,
-- the records that the checks keep, and the names and lines of the generated C.
--
-- The tokeniser (src/token) turns a text into tokens for the parser, which builds modules of
-- functions and structs (src/ast). Four passes check each module: they look names up in nested
-- scopes, compare types, and note in a context what the program needs: functions by signature,
-- structs, vectors and string literals. The program (src/program) merges the contexts, and the C
-- writer (src/output) prints the result.
--
-- Files, and the code that each is about:
--   Prelude, Prelude/*    shared lists, maps and tests; `Outcome` is what a call comes to, a value,
--                         an error that is returned or a panic, and `Post P m` says `P` of a value
--                         that `m` returns
--   Token/Kinds           src/token/tokens.go: TokenType, Token
--   Token/State           src/token/tokeniser.go: the tokeniser and its moves, getNextRune and backup;
--                         Gather has gather and eat2, Advance and Reads say where they end
--   Token/Junk            white space and comments; Whitespace has eatWhitespace, Stop eatJunk, which
--                         Comments is about too
--   Token/Tables          the tables of Tokenise
--   Token/Lexeme          convertNumber, currentSurround and getNextInner
--   Token/Loop            getNext and Tokenise
--   Token/Printed         TokenType as numbers, and Token.String
--   Ast/Ids               src/ast/ids.go, and FunctionId of src/ast/functions.go
--   Ast/Types             src/ast/types.go: Type, Equal, CanAssignTo; Names has writeId, Printed String
--   Ast/Values            src/ast/types.go: EstimateCSize and DefaultValueExpression
--   Ast/Functions         src/ast/functions.go: signatures, FunctionSet, FunctionGroup
--   Ast/Structs           src/ast/structs.go, src/ast/module.go, FunctionDefinition
--   Ast/Scope             src/ast/scope.go
--   Ast/Check             src/ast/check.go: Context has CheckContext, Pool the string pool with
--                         GetStringPool of src/program/program.go, Require RequireType and
--                         RequireVector
--   Ast/Syntax            the nodes of src/ast/expressions.go, statements.go, lvalues.go, closure.go,
--                         worker-expressions.go and tles.go, with the fields that the parser sets
--   Ast/Check/Pass        a call of Check as a function of the context and the scope; Rules, Steps,
--                         Sequence and Brackets are a logic for such calls
--   Ast/Check/Nodes, Ast/Check/Operators, Ast/Check/Parts, Ast/Check/Expressions
--                         Type and Check of src/ast/expressions.go, closure.go and
--                         worker-expressions.go; Supplied is about partial applications
--   Ast/Check/Operands, Ast/Check/Typing
--                         rules of the types; Sound has Check against them
--   Ast/Check/LValues, Ast/Check/Statements
--                         src/ast/lvalues.go and statements.go
--   Ast/Check/Definitions Check of src/ast/functions.go, structs.go, tles.go and module.go, and
--                         CheckStatementBlockEndsWithReturn, which Returns is about
--   Ast/Check/Nesting     what the checks open and close: Undone, Scopes, Statements, Definitions
--   Errors                src/errors/errors.go
--   Parser/State          src/parser/parser.go: Parser, its stack of positions, Token and GetToken;
--                         Moves says what Token does
--   Parser/Calls          what the grammar's functions share; Semicolons is about EatSemicolons
--   Parser/Types          WholeType and Type; Starts, Written, Parts and RoundTrip are about what is
--                         read back, Settled and Total about what every call comes to, Workers
--                         about `worker() T`
--   Parser/Literals       ResolvedId, literals, PrimaryExpression and ExpressionList
--   Parser/Operators      PostfixExpression to AllocationExpression; Precedence is about the levels
--                         of binary operators
--   Parser/Prefixed       PrefixedExpression, Expression and TupleExpression; Receive is about the
--                         error of `receive`
--   Parser/LValues, Parser/Statements, Parser/Definitions
--                         lvalues, statements and blocks, parameters, functions and structs
--   Parser/Module         NewParser, imports and Module, and `grammar`, the recursion of the whole
--   Output/TextWriter     src/output/textwriter/textwriter.go
--   Output/Namespacing    src/output/cwriter/namespacing.go
--   Tests                 concrete runs
--
-- A Go string is the list of its code points and a slice a list; a map is an association list, and
-- an operation that writes through a pointer returns the new record. An int that counts is a
-- natural number, and an int64 value of a token is its bit pattern, so arithmetic on it is modulo
-- 2^64. What package fmt does with numbers is a parameter. The parser tries the kinds of token of a
-- Go map in a fixed order, since no token has two of them. A call of the parser is a function of its
-- state that returns, panics, or stops where the fuel of the model is used up; its stack of positions
-- is a list with the current one first, and a scope that has ended is not kept in the tree. The
-- provider of imported modules is a parameter that may log errors.
--
-- A loop over the text runs on fuel of one more than the length of the text, since each round reads
-- a rune, and returns nothing where the fuel runs out; gather, eat2, eatWhitespace and eatJunk are
-- the results of such loops, taken out by a proof that the fuel does not run out; the loop of
-- Tokenise has two calls of getNext for a rune and three more, since a call that reads nothing
-- hands on a token that waits. Equal and CanAssignTo recur on parts of their types and have the sum
-- of the depths as fuel. CanPassToGpu, EstimateCSize and DefaultValueExpression follow the names of
-- structs and do not end on a struct that holds itself, so they have their fuel as an argument. A
-- loop of the parser has one round more than there are tokens, since a round takes a token, and the
-- recursion of the grammar has its depth as fuel: for types, one more than the number of tokens
-- ahead is enough.
--
-- Of the four passes over the tree, KPassSetTypes is modelled. A call of Check is a function of the
-- context and of the scope that the node stands in, and hands on the type that Type comes to, which
-- may be a panic, in place of the type that the node keeps. The pass starts from the tree as it is
-- parsed, inserts and removes nothing, and leaves the levels of the scope that it filled to the
-- passes that follow. A level that the parser fills, with parameters or with the object of a struct,
-- is filled where its function or struct is checked. What the `%v` of package fmt writes of types
-- and of what is assigned to is a parameter; it stands in messages only.
--
-- Not modelled: the passes KPassSetTleTypes, KPassMutate and KPassCheckTypes over the tree, the
-- merge of the contexts into the program, and the C writer but for its names and lines, which the
-- library does not reach yet; the command line, the runners and the reading of modules, which are
-- input and output; the printing of scopes for messages; and the runtime and the standard library,
-- which are not Go.
pub mod Prelude
pub mod Token
pub mod Errors
pub mod Parser
pub mod Output
pub mod Ast
pub mod Tests
