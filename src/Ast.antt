-- ===== src/Ast.antt =====
-- crates/compiler-core/src/ast.rs: the syntax tree. A list or an option of what a type itself stands
-- for is a type of its own (`Exprs`, `MaybeExpr`, `Statements`, `Cases`), and so is a node with its
-- position. An i64 and an f64 are their patterns below 2 ^ 64.
use rapira.Prelude.{ℕ, String, Bool, Option, List, [], suc}

-- A node with its position
pub record Spannable (T : Type 0) : Type 0 where
  pub node : T
  pub position_start : ℕ
  pub position_end : ℕ

pub data BinaryOperator : Type 0 where
  power multiply divide integer_divide remainder add subtract : BinaryOperator
  greater less greater_or_equal less_or_equal equal not_equal and or dot : BinaryOperator

pub data UnaryOperator : Type 0 where
  negate plus not_ length : UnaryOperator

pub data Literal : Type 0 where
  null : Literal
  boolean : Bool → Literal
  integer : ℕ → Literal
  real : ℕ → Literal
  text : String → Literal

mutual
  pub data Expr : Type 0 where
    literal : Literal → Expr
    name : String → Expr
    -- collection, index
    subscript : SpannedExpr → SpannedExpr → Expr
    -- collection, from, to
    slice : SpannedExpr → MaybeExpr → MaybeExpr → Expr
    tuple_construct : Exprs → Expr
    function_call : SpannedExpr → Exprs → Expr
    binary_op : BinaryOperator → SpannedExpr → SpannedExpr → Expr
    unary_op : UnaryOperator → SpannedExpr → Expr

  -- node, position_start, position_end
  pub data SpannedExpr : Type 0 where
    at : Expr → ℕ → ℕ → SpannedExpr

  pub data MaybeExpr : Type 0 where
    absent : MaybeExpr
    present : SpannedExpr → MaybeExpr

  pub data Exprs : Type 0 where
    nil : Exprs
    cons : SpannedExpr → Exprs → Exprs

unfoldable pub count_exprs : Exprs → ℕ
count_exprs nil = 0
count_exprs (cons e es) = suc (count_exprs es)

pub data LValue : Type 0 where
  name : String → LValue
  subscript : SpannedExpr → SpannedExpr → LValue
  slice : SpannedExpr → MaybeExpr → MaybeExpr → LValue
  field : SpannedExpr → String → LValue

pub data LoopHeader : Type 0 where
  while : SpannedExpr → LoopHeader
  repeat : SpannedExpr → LoopHeader
  -- variable, from, to, step
  for : String → MaybeExpr → MaybeExpr → MaybeExpr → LoopHeader

mutual
  pub data Statement : Type 0 where
    empty : Statement
    assignment : Spannable LValue → SpannedExpr → Statement
    declaration : Spannable LValue → SpannedExpr → Statement
    procedure_call : SpannedExpr → Exprs → Statement
    conditional : SpannedExpr → Statements → MaybeBody → Statement
    -- ValueMatch, the one form of a selection: expression, cases, else_body
    selection : SpannedExpr → Cases → MaybeBody → Statement
    loop : LoopHeader → Statements → Statement
    -- no_newline, values
    output : Bool → Exprs → Statement
    -- text_mode, variables
    input : Bool → List (Spannable LValue) → Statement
    exit_loop : Statement
    return_from_procedure : Statement
    return_from_function : SpannedExpr → Statement
    import_ : String → List String → Statement

  pub data SpannedStatement : Type 0 where
    at : Statement → ℕ → ℕ → SpannedStatement

  pub data Statements : Type 0 where
    nil : Statements
    cons : SpannedStatement → Statements → Statements

  pub data MaybeBody : Type 0 where
    absent : MaybeBody
    present : Statements → MaybeBody

  -- Each case has the values of its pattern and its body.
  pub data Cases : Type 0 where
    no_cases : Cases
    case : Exprs → Statements → Cases → Cases

-- A type with the fields of each variant: a HashMap, whose names differ.
pub record TypeDefinition : Type 0 where
  pub name : String
  pub variants : List (String × List String)

-- чужие, свои
pub record NameDeclarations : Type 0 where
  pub foreign_names : List String
  pub own_names : List String

abbrev pub empty_names : NameDeclarations
empty_names = record { foreign_names = []; own_names = [] }

-- `variables_need_saving` is a set.
pub record FunctionDefinition : Type 0 where
  pub name : Option String
  pub parameters : List String
  pub name_declarations : NameDeclarations
  pub body : Statements
  pub variables_need_saving : List String
