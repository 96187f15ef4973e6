-- ===== src/Codegen/Definitions.antt =====
-- crates/compiler-core/src/codegen/bcgen.rs: the code of a function, of a module's top level and of a
-- type, and `generate`, which puts the modules together into one file.
use Prim.Native.Nat.{Ordering}
use Prim.Native.String.{compare}
use rapira.Prelude.{
  ℕ, suc, ◌%◌, ◌^◌, String, Bool, true, false, Option, none, some, List, [], ◌∷◌, ◌++◌, length,
  lookup, insert,
}
use rapira.Outcome.{Outcome, ok}
use rapira.Ast.{
  Spannable, FunctionDefinition, TypeDefinition, Statements, nil, cons, at, return_from_function,
}
use rapira.Bytecode.{label, begin, null, end, call, drop}
use rapira.Bytefile.{Bytefile, add_string, add_variant_schema, add_public_symbol, label_offset}
use rapira.Bytefile.{new as new_file}
use rapira.Bytefile.Code.{add_instructions}
use rapira.Bytefile.Serial.{encode}
use rapira.Module.{Module}
use rapira.Codegen.{
  Context, function, Env, BcGen, Emit, pure, ◌>>=◌, ◌>>◌, this, with_env, expect, allocate_argument,
  as_i32,
}
use rapira.Codegen.Context.{global}
use rapira.Codegen.Expressions.{Code}
use rapira.Codegen.Statements.{emit_statements, count_locals}
use rapira.Codegen.Text.{as_bytes, qualified_label}

abbrev pub new_env : Env
new_env = record {
  local_counter = 0;
  arg_counter = 0;
  label_counter = 0;
  global_counter = 0;
  locals = [];
  args = [];
  globals = [];
  loop_end_labels = [];
  context = global;
}

abbrev pub new : BcGen
new = record {
  bytefile = new_file;
  env = new_env;
  current_module = "";
  call_targets = [];
  variant_constructors = [];
  field_indices = [];
}

unfoldable pub allocate_arguments : List String → Emit (Unit {0})
allocate_arguments [] = pure tt
allocate_arguments (parameter ∷ parameters) =
    allocate_argument parameter >>= λ slot. allocate_arguments parameters

-- Whether one of the statements, not of those inside them, gives a value back
unfoldable pub has_return : Statements → Bool
has_return nil = false
has_return (cons (at (return_from_function value) s e) rest) = true
has_return (cons _ rest) = has_return rest

abbrev pub return_null : Bool → Code
return_null true = []
return_null false = null ∷ end ∷ []

abbrev pub clear_frame : Context → Env → Env
clear_frame context env = record env {
  context = context;
  locals = [];
  local_counter = 0;
  args = [];
  arg_counter = 0;
}

abbrev pub set_context : Context → Emit (Unit {0})
set_context context = do gen ← this; with_env (record gen.env { context = context })

unfoldable pub function_code : String → ℕ → ℕ → Statements → Code → Code
unfolding has_return
function_code name parameters locals body code =
    label name ∷ begin (as_i32 parameters) (as_i32 locals) ∷ code ++ return_null (has_return body)

-- What follows the clearing of the frame; the generator is the one before it.
unfoldable pub emit_framed : BcGen → FunctionDefinition → Emit Code
unfolding allocate_arguments function_code
emit_framed gen func_def = do
  allocate_arguments func_def.parameters
  name ← expect func_def.name
  code ← emit_statements func_def.body
  set_context global
  pure (
      function_code (qualified_label gen.current_module name) (length func_def.parameters)
        (count_locals gen.variant_constructors func_def.body) func_def.body code)

unfoldable pub emit_function_def : Spannable FunctionDefinition → Emit Code
unfolding emit_framed
emit_function_def func_def = do
  gen ← this
  with_env (clear_frame function gen.env)
  emit_framed gen func_def.node

abbrev pub top_level_code : String → Code → Code
top_level_code name code = label name ∷ begin 0 0 ∷ code ++ null ∷ end ∷ []

-- What follows the clearing of the frame; the generator is the one before it.
unfoldable pub emit_top_level : BcGen → Statements → Emit Code
emit_top_level gen top_level = do
  code ← emit_statements top_level
  pure (top_level_code (qualified_label gen.current_module "<init>") code)

unfoldable pub emit_top_level_def : Statements → Emit Code
unfolding emit_top_level
emit_top_level_def top_level = do
  gen ← this
  with_env (clear_frame global gen.env)
  emit_top_level gen top_level

-- `variants.sort_by(|(left, _), (right, _)| left.cmp(right))`
unfoldable pub insert_variant :
    String × List String → List (String × List String) → List (String × List String)
insert_variant variant_ [] = variant_ ∷ []
insert_variant variant_ (other ∷ rest) =
    let behind = insert_variant variant_ rest in
    elim (compare other.0 variant_.0) [ Ordering.gt ↦ variant_ ∷ other ∷ rest | _ ↦ other ∷ behind ]

unfoldable pub sort_variants : List (String × List String) → List (String × List String)
unfolding insert_variant
sort_variants [] = []
sort_variants (variant_ ∷ variants) = insert_variant variant_ (sort_variants variants)

-- `fields.iter().map(|field| self.bytefile.add_string(field.clone()))`
unfoldable pub add_strings : List String → Bytefile → List ℕ × Bytefile
add_strings [] bf = ([], bf)
add_strings (s ∷ strings) bf =
    let added = add_string (as_bytes s) bf in
    let rest = add_strings strings added.1 in (added.0 ∷ rest.0, rest.1)

-- `entry(field).or_insert(index)` for each field, from this index on
unfoldable pub number_fields : ℕ → List String → List (String × ℕ) → List (String × ℕ)
number_fields index [] indices = indices
number_fields index (f ∷ fields) indices =
    number_fields (suc index) fields
      (elim (lookup f indices) [ some old ↦ indices | none ↦ insert f (as_i32 index) indices ])

-- One round of the loop of `emit_type_def`
unfoldable pub emit_variant : String → ℕ → String × List String → BcGen → BcGen
unfolding add_strings number_fields
emit_variant type_name tag (variant_name, fields) gen =
    let named = add_string (as_bytes type_name) gen.bytefile in
    let added = add_strings fields named.1 in
    let placed =
      add_variant_schema
        (record { name_offset = named.0; tag = tag % 2 ^ 16; field_offsets = added.0 }) added.1 in
    record gen {
      bytefile = placed.1;
      variant_constructors =
          insert variant_name (record { schema = placed.0; fields = fields })
            gen.variant_constructors;
      field_indices = number_fields 0 fields gen.field_indices;
    }

unfoldable pub emit_variants : String → ℕ → List (String × List String) → BcGen → BcGen
unfolding emit_variant
emit_variants type_name tag [] gen = gen
emit_variants type_name tag (v ∷ variants) gen =
    emit_variants type_name (suc tag) variants (emit_variant type_name tag v gen)

unfoldable pub emit_type_def : Spannable TypeDefinition → BcGen → BcGen
unfolding sort_variants emit_variants
emit_type_def type_def gen =
    emit_variants type_def.node.name 0 (sort_variants type_def.node.variants) gen

unfoldable pub emit_types : List (Spannable TypeDefinition) → BcGen → BcGen
unfolding emit_type_def
emit_types [] gen = gen
emit_types (t ∷ types) gen = emit_types types (emit_type_def t gen)

-- The functions of the module as call targets, and then those that it imports
abbrev pub add_target : String → String → ℕ → Emit (Unit {0})
add_target module_ name arity gen = some (
  tt,
  record gen { call_targets = insert name (qualified_label module_ name, arity) gen.call_targets },
)

unfoldable pub add_targets : String → List (Spannable FunctionDefinition) → Emit (Unit {0})
add_targets module_ [] = pure tt
add_targets module_ (f ∷ functions) = do
  name ← expect f.node.name
  add_target module_ name (length f.node.parameters)
  add_targets module_ functions

unfoldable pub add_imported :
    List (String × String) → List (Spannable FunctionDefinition) → Emit (Unit {0})
add_imported resolved [] = pure tt
add_imported resolved (f ∷ functions) = do
  name ← expect f.node.name
  defining_module ← expect (lookup name resolved)
  add_target defining_module name (length f.node.parameters)
  add_imported resolved functions

unfoldable pub configure_module : Module → Emit (Unit {0})
unfolding add_targets add_imported
configure_module module_ = do
  gen ← this
  _ ← λ old. some (
    tt,
    record old {
      current_module = module_.name;
      call_targets = [];
      env = record old.env {
        locals = [];
        args = [];
        globals = [];
        local_counter = 0;
        arg_counter = 0;
        context = global;
      };
    },
  )
  add_targets module_.name module_.functions
  add_imported module_.resolved_imports module_.imported_functions

-- The functions of a module: their labels, and their code
unfoldable pub emit_functions :
    String → List (Spannable FunctionDefinition) → Emit (List String × Code)
unfolding emit_function_def
emit_functions module_ [] = pure ([], [])
emit_functions module_ (f ∷ functions) = do
  name ← expect f.node.name
  code ← emit_function_def f
  (names, rest) ← emit_functions module_ functions
  pure (qualified_label module_ name ∷ names, code ++ rest)

unfoldable pub emit_module : Module → Emit (List String × Code)
unfolding configure_module emit_types emit_top_level_def emit_functions
emit_module module_ = do
  configure_module module_
  _ ← λ gen. some (tt, emit_types module_.types gen)
  init ← emit_top_level_def module_.toplevel
  (names, code) ← emit_functions module_.name module_.functions
  pure (names, init ++ code)

-- The labels of the modules' initialisers, those of the functions, and the code
unfoldable pub emit_modules : List Module → Emit (List String × List String × Code)
unfolding emit_module
emit_modules [] = pure ([], [], [])
emit_modules (module_ ∷ modules) = do
  (names, code) ← emit_module module_
  (inits, names', code') ← emit_modules modules
  pure (qualified_label module_.name "<init>" ∷ inits, names ++ names', code ++ code')

-- The calls of the initialisers in `main`
unfoldable pub init_calls : List String → Code
init_calls [] = []
init_calls (init ∷ inits) = call (record { name = init; offset = none }) 0 ∷ drop ∷ init_calls inits

abbrev pub main_code : List String → Code
main_code inits = label "main" ∷ begin 0 0 ∷ init_calls inits ++ null ∷ end ∷ []

-- `unwrap` of a result
abbrev pub unwrap : {E A : Type 0} → Outcome E A → Option A
unwrap (ok a) = some a
unwrap _ = none

unfoldable pub then_file : Option Bytefile → (Bytefile → Option Bytefile) → Option Bytefile
then_file none f = none
then_file (some bf) f = f bf

-- `add_string`, then `add_public_symbol`
abbrev pub add_symbol : String → ℕ → Bytefile → Option Bytefile
add_symbol symbol offset bf =
    unwrap (add_public_symbol (as_bytes symbol) offset (add_string (as_bytes symbol) bf).1)

unfoldable pub export_functions : List String → Bytefile → Option Bytefile
unfolding then_file
export_functions [] bf = some bf
export_functions (symbol ∷ symbols) bf = elim (label_offset symbol bf) [
  | none ↦ none
  | some offset ↦ then_file (add_symbol symbol (offset % 2 ^ 32) bf) (export_functions symbols)
]

-- The file with the code, its entry point and its symbols
unfoldable pub link : Code → List String → Bytefile → Option Bytefile
unfolding export_functions
link code symbols bf = then_file (unwrap (add_instructions code bf)) (λ placed.
    elim (label_offset "main" placed) [
      | none ↦ none
      | some offset ↦
          let main = offset % 2 ^ 32 in
          then_file (add_symbol "main" main (record placed { main_offset = main }))
            (export_functions symbols)
    ])

unfoldable pub last_path : List Module → Option String
last_path [] = none
last_path (m ∷ []) = some m.path
last_path (m ∷ n ∷ modules) = last_path (n ∷ modules)

-- The path of the last module, and the bytes of the file
unfoldable pub generate : List Module → Emit (String × List ℕ)
unfolding last_path emit_modules init_calls link
generate modules = do
  output_path ← expect (last_path modules)
  _ ← λ gen. some (
    tt,
    record gen {
      bytefile = new_file;
      env = record gen.env { global_counter = 0 };
      variant_constructors = [];
      field_indices = [];
    },
  )
  (inits, names, code) ← emit_modules modules
  gen ← this
  bf ← expect (
      link (code ++ main_code inits) names
        (record gen.bytefile { global_area_size = gen.env.global_counter % 2 ^ 32 }))
  _ ← λ old. some (tt, record old { bytefile = bf })
  pure (output_path, encode bf)
