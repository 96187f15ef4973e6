-- ===== src/Tests.antt =====
-- The theorems at concrete inputs: a file with an entry point and a variant schema, a program of two
-- instructions, and a program with a label.
pub mod Machines
pub mod Calls
pub mod Compiled
mod Runs
mod Balanced
use rapira.Prelude.{
  ℕ, ◌+◌, ◌^◌, ◌<◌, ◌≤◌, ◌≡◌, ◌≢◌, refl, true, false, some, none, List, [], ◌∷◌, ◌++◌, map, arith,
  length,
}
use rapira.Prelude.Int.{ℤ, pos, negsuc, ◌+ℤ◌, ◌*ℤ◌}
use rapira.Outcome.{ok, panic}
use rapira.Numeric.{
  to_le_bytes, from_le_bytes, from_le_bytes-to_le_bytes, to_le_bytes-from_le_bytes,
}
use rapira.Bytecode.{Instruction, Label, const, jmp, label, end}
use rapira.Bytefile.{
  Bytefile, VariantSchema, new, add_string, add_variant_schema, add_code, add_public_symbol,
  lookup_label, label_offset, get_string_at_offset, find_string_offset, find_string_from,
  position_of_null, bytes_eq, put_string, get_current_global_offset,
}
use rapira.Bytefile.Serial
use rapira.Bytefile.Serial.{parse, find_main, is_main}
use rapira.Bytefile.RoundTrip.{IsWritable, SymbolsInside, parse-encode, parse_panic}
use rapira.Bytefile.Size.{length-encode}
use rapira.Bytefile.Parsed.{IsLinked, parse-IsLinked}
use rapira.Bytefile.Strings.{
  AllNoNull, NoNull, table_of, offset_of, find_string_offset-offset_of,
  get_string_at_offset-add_string, get_string_at_offset-add_string_old,
}
use rapira.Bytefile.Consistent.{
  with_string, with_schema, with_code, with_symbol, started, IsConsistent, IsConsistent-kept,
  put_string_breaks,
}
use rapira.Bytefile.Code.{
  add_instructions, place_labels, place_one, insert_label, resolve, resolve_label, add_instruction,
  add_each,
}
use rapira.Bytefile.Code.Linked.{AllLinked, add_instructions-AllLinked}
use rapira.Bytefile.Code.Placed.{label_offset-add_instructions}
use rapira.Decoder
use rapira.Decoder.{Decoder, fetch, decode}
use rapira.Decoder.Encode.{encode}
use rapira.Decoder.Reads.{Ahead, advance}
use rapira.Decoder.ReadAs.{forget_names}
use rapira.Decoder.RoundTrip.{fetch-encode}
use rapira.Decoder.Disassemble.{encode_all, disassemble_from, disassemble, disassemble-encode_all}
use rapira.Decoder.Safety.{IsSound, Good, decode_lem}
use rapira.Decoder.Fuel.{disassemble_fuel}
use rapira.Object.{new_boxed, unbox, new_bool, get_bool, is_smi, as_ptr}
use rapira.Object.Boxing.{IsI32, boxing_lem}
use rapira.Vm.FloorDivision.{smi_modulo, smi_floor_divide, IsFloorRemainder, smi_floor_division_lem}

-- "main" and its terminator
abbrev main_text : List ℕ
main_text = 109 ∷ 97 ∷ 105 ∷ 110 ∷ []

abbrev main_table : List ℕ
main_table = 109 ∷ 97 ∷ 105 ∷ 110 ∷ 0 ∷ []

-- CONST 7; END
abbrev program : List Instruction
program = const 7 ∷ end ∷ []

abbrev program_bytes : List ℕ
program_bytes = 16 ∷ 7 ∷ 0 ∷ 0 ∷ 0 ∷ 22 ∷ []

abbrev schema : VariantSchema
schema = record { name_offset = 0; tag = 3; field_offsets = 4 ∷ [] }

abbrev pub file : Bytefile
file = record {
  stringtab_size = 5;
  global_area_size = 0;
  main_offset = 0;
  labels = [];
  public_symbols_number = 1;
  public_symbols = (0, 0) ∷ [];
  variant_schemas = schema ∷ [];
  string_table = main_table;
  code_section = program_bytes;
}

main_NoNull : NoNull main_text
main_NoNull = (
  λ e. omega (arith, e),
  (λ e. omega (arith, e), (λ e. omega (arith, e), (λ e. omega (arith, e), tt))),
)

from_le_bytes-to_le_bytes_example : from_le_bytes (to_le_bytes 2 513) ≡ 513
from_le_bytes-to_le_bytes_example = from_le_bytes-to_le_bytes 2 513 (omega arith)

length-encode_example : length (Serial.encode file) ≡ get_current_global_offset file
length-encode_example = length-encode file

boxing_example :
    (unbox (new_boxed (negsuc 6)) ≡ negsuc 6)
    × IsI32 (unbox 12884901888)
    × ((is_smi (new_boxed (negsuc 6)) ≡ true)
        × (get_bool (new_boxed (negsuc 6)) ≡ none)
        × (as_ptr (new_boxed (negsuc 6)) ≡ none))
    × ((get_bool (new_bool true) ≡ some true)
        × (is_smi (new_bool true) ≡ false)
        × (as_ptr (new_bool true) ≡ none))
boxing_example = boxing_lem (negsuc 6) 12884901888 true (omega arith, omega arith) (omega arith)

smi_floor_division_example :
    (negsuc 6 ≡ pos 2 *ℤ smi_floor_divide (negsuc 6) (pos 2) +ℤ smi_modulo (negsuc 6) (pos 2))
    × IsFloorRemainder (pos 2) (smi_modulo (negsuc 6) (pos 2))
smi_floor_division_example = smi_floor_division_lem (negsuc 6) (pos 2) (λ e. cc)

find_string_offset_example :
    find_string_offset main_text file ≡ offset_of main_text (main_text ∷ []) 0
find_string_offset_example =
    find_string_offset-offset_of file (main_text ∷ []) main_text refl (main_NoNull, tt)
      (omega arith)

add_string_example :
    get_string_at_offset (add_string main_text new).0 (add_string main_text new).1 ≡ ok main_table
unfolding new
add_string_example = get_string_at_offset-add_string main_text new main_NoNull refl

add_string_old_example : get_string_at_offset 0 (add_string main_text file).1 ≡ ok main_table
unfolding get_string_at_offset position_of_null
add_string_old_example = get_string_at_offset-add_string_old main_text main_table 0 file refl

-- Of a new file: its first string, code, a schema, and the string as a public symbol
abbrev built : Bytefile
built = (add_variant_schema schema (add_code program_bytes (add_string main_text new).1)).1

IsConsistent-kept_example :
    IsConsistent new
    × IsConsistent (record built { public_symbols_number = 1; public_symbols = (0, 5) ∷ [] })
unfolding add_public_symbol find_string_offset position_of_null bytes_eq add_string add_code
    add_variant_schema new
IsConsistent-kept_example =
    IsConsistent-kept new (record built { public_symbols_number = 1; public_symbols = (0, 5) ∷ [] })
      (record { strings = refl; symbols = refl })
      (with_symbol main_text 5
        (with_schema schema (with_code program_bytes (with_string main_text started (omega arith))))
        (omega arith) refl)

put_string_breaks_example : ¬ IsConsistent (put_string main_text file)
put_string_breaks_example =
    put_string_breaks main_text file (λ e. cc) (omega arith)
      (record { strings = refl; symbols = refl })

file_IsWritable : IsWritable file
file_IsWritable = record {
  strings = refl;
  strings_fit = omega arith;
  globals_fit = omega arith;
  symbols = refl;
  symbols_number_fits = omega arith;
  symbols_fit = (omega arith, omega arith, tt);
  schemas_number_fits = omega arith;
  schemas_fit = (omega arith, omega arith, omega arith, (omega arith, tt), tt);
}

parse-encode_example :
    parse (Serial.encode file) ≡ ok (record file { main_offset = 0; labels = [] })
unfolding find_main is_main bytes_eq
parse-encode_example =
    parse-encode file 0 file_IsWritable refl (omega arith) (omega arith, omega arith, tt)

abbrev bad_file : Bytefile
bad_file = record file { public_symbols = (9, 0) ∷ [] }

bad_file-IsWritable : IsWritable bad_file
bad_file-IsWritable = record {
  strings = refl;
  strings_fit = omega arith;
  globals_fit = omega arith;
  symbols = refl;
  symbols_number_fits = omega arith;
  symbols_fit = (omega arith, omega arith, tt);
  schemas_number_fits = omega arith;
  schemas_fit = file_IsWritable.schemas_fit;
}

parse_panic_example : parse (Serial.encode bad_file) ≡ panic
parse_panic_example = parse_panic bad_file 9 0 [] bad_file-IsWritable refl (omega arith)

parse-IsLinked_example : IsLinked file
unfolding find_main is_main bytes_eq
parse-IsLinked_example =
    parse-IsLinked (Serial.encode file) file
      (parse-encode file 0 file_IsWritable refl (omega arith) (omega arith, omega arith, tt))

abbrev pub decoder : Decoder
decoder = record { bf = file; ip = 0; code_section_len = 6 }

decoder_IsSound : IsSound decoder
decoder_IsSound = record { fits = refl; bounded = omega arith; within = omega arith }

decode_example : Good decoder (decode 0x10 decoder) × Good decoder (fetch decoder)
decode_example = decode_lem 0x10 decoder decoder_IsSound

disassemble_fuel_example : disassemble_from 7 decoder ≡ disassemble_from 6 decoder
disassemble_fuel_example = disassemble_fuel 6 decoder decoder_IsSound (omega arith)

fetch-encode_example : fetch decoder ≡ (ok (const 7), advance 5 decoder)
unfolding encode to_le_bytes
fetch-encode_example =
    fetch-encode (const 7) (16 ∷ 7 ∷ 0 ∷ 0 ∷ 0 ∷ []) (22 ∷ []) decoder (omega arith) refl
      (record { fits = refl; bounded = omega arith; within = refl; rest = refl })

disassemble_example : disassemble file ≡ ok program
unfolding encode_all encode to_le_bytes
disassemble_example =
    disassemble-encode_all file [] program_bytes program (omega arith, (tt, tt)) refl refl refl
      (omega arith)

-- A jump over an END, to a label behind it
abbrev jump : Instruction
jump = jmp (record { name = "done"; offset = none })

abbrev jump_program : List Instruction
jump_program = jump ∷ end ∷ label "done" ∷ end ∷ []

abbrev jump_file : Bytefile
jump_file = record file {
  code_section = program_bytes ++ 21 ∷ 12 ∷ 0 ∷ 0 ∷ 0 ∷ 22 ∷ 22 ∷ [];
  labels = ("done", 12) ∷ [];
}

add_instructions_example :
    (js : List Instruction) × (bs : List ℕ) × AllLinked jump_file.labels jump_program js
    × (encode_all js ≡ ok bs)
    × (jump_file ≡ record file { code_section = program_bytes ++ bs; labels = jump_file.labels })
unfolding add_instructions place_labels place_one insert_label resolve resolve_label add_instruction
    add_each lookup_label encode to_le_bytes
add_instructions_example = add_instructions-AllLinked jump_program file jump_file refl

label_offset_example : label_offset "done" jump_file ≡ some (6 + 6)
unfolding add_instructions place_labels place_one insert_label resolve resolve_label add_instruction
    add_each lookup_label encode_all encode to_le_bytes
label_offset_example =
    label_offset-add_instructions (jump ∷ end ∷ []) (end ∷ []) "done"
      (21 ∷ 12 ∷ 0 ∷ 0 ∷ 0 ∷ 22 ∷ []) file jump_file refl refl
