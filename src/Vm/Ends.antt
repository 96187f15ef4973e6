-- ===== src/Vm/Ends.antt =====
-- crates/vm-interp/src/interpreter.rs: the offset that a run reports with its error.
use rapira.Prelude.{◌+◌, length, ◌≡◌, arith}
use rapira.Bytefile.{variant_schemas_size, get_current_global_offset}
use rapira.Bytefile.Consistent.{IsConsistent}
use rapira.Bytefile.Serial.{encode}
use rapira.Bytefile.Size.{length-encode}
use rapira.Runtime.{Runtime}
use rapira.Vm.{Machine}
use rapira.Vm.Run.{error_offset}

module _ {R : Runtime} where
  -- The offset that `run` reports for an error is short of the place in the encoded file by the eight
  -- bytes of the marker and the count of the schemas, and by the schemas, where the file's counts are
  -- those of its tables.
  pub error_offset_short :
      (m : Machine R)
      → IsConsistent m.decoder.bf
      → error_offset m
          + 8
          + variant_schemas_size m.decoder.bf.variant_schemas
          + length m.decoder.bf.code_section
        ≡ length (encode m.decoder.bf) + m.decoder.ip
  unfolding get_current_global_offset
  error_offset_short m c = omega (arith, length-encode m.decoder.bf, c.strings, c.symbols)
