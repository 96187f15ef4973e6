-- ===== src/Module.antt =====
-- crates/compiler-core/src/module.rs: the unit of compilation. A path and a mangled name are texts.
use rapira.Prelude.{String, List}
use rapira.Ast.{Spannable, FunctionDefinition, TypeDefinition, Statements}

pub record Module : Type 0 where
  pub name : String
  pub path : String
  pub functions : List (Spannable FunctionDefinition)
  pub types : List (Spannable TypeDefinition)
  pub toplevel : Statements
  -- imported module to the names that are taken from it
  pub imports_info : List (String × List String)
  pub imported_functions : List (Spannable FunctionDefinition)
  pub imported_types : List (Spannable TypeDefinition)
  -- imported name to the module that defines it
  pub resolved_imports : List (String × String)
