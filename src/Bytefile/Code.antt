-- ===== src/Bytefile/Code.antt =====
-- crates/vm-core/src/bytefile.rs: `add_instructions`, which places the labels of a sequence of
-- instructions, puts their offsets into the jumps and calls, and appends the encoding to the code.
-- Where it fails the caller drops the file, so that a failure gives the error alone.
pub mod Labels
pub mod Placed
pub mod Linked
use rapira.Prelude.{
  ℕ, ◌+◌, ◌%◌, ◌^◌, String, Option, none, some, List, [], ◌∷◌, ◌++◌, map, leb, if◌then◌else◌,
  length,
}
use rapira.Outcome.{Outcome, ok, err, ◌>>=◌}
use rapira.Bytecode.{Label, Instruction, label, jmp, cjmp, call, closure}
use rapira.Decoder.{DecoderError, reading_more_then_code_section, unknown_label}
use rapira.Decoder.Encode.{encode}
use rapira.Bytefile.{Bytefile, lookup_label}

-- The bytes that the first pass reckons for an instruction that is no label.
unfoldable pub reckoned_size : Instruction → Outcome DecoderError ℕ
reckoned_size (jmp dest) = ok 5
reckoned_size (cjmp dest kind) = ok 5
reckoned_size (call dest n) = ok 9
reckoned_size (closure dest arity) = ok 9
reckoned_size i = do bytes ← encode i; ok (length bytes)

-- `self.labels.insert(name, offset)`, an error if the name was there
unfoldable pub insert_label :
    String → ℕ → List (String × ℕ) → Outcome DecoderError (List (String × ℕ))
unfolding lookup_label
insert_label name offset labels = elim (lookup_label name labels) [
  | some old ↦ err (unknown_label name)
  | none ↦ ok ((name, offset) ∷ labels)
]

-- `i32::try_from(offset)`
unfoldable pub checked_offset : ℕ → Outcome DecoderError ℕ
checked_offset offset =
    if leb (2 ^ 31) offset then err reading_more_then_code_section else ok offset

-- One round of the first pass, at `offset`: the offset behind the instruction, and the labels.
unfoldable pub place_one :
    ℕ → Instruction → List (String × ℕ) → Outcome DecoderError (ℕ × List (String × ℕ))
unfolding reckoned_size insert_label checked_offset
place_one offset (label name) labels = do
  at ← checked_offset offset
  labels' ← insert_label name at labels
  ok (offset, labels')
place_one offset i labels = do size ← reckoned_size i; ok (offset + size, labels)

unfoldable pub place_labels :
    ℕ → List Instruction → List (String × ℕ) → Outcome DecoderError (List (String × ℕ))
unfolding place_one
place_labels offset [] labels = ok labels
place_labels offset (i ∷ rest) labels = do
  (offset', labels') ← place_one offset i labels
  place_labels offset' rest labels'

unfoldable pub resolve_label : List (String × ℕ) → Label → Label
unfolding lookup_label
resolve_label labels dest = elim (lookup_label dest.name labels) [
  | some offset ↦ record dest { offset = some (offset % 2 ^ 32) }
  | none ↦ dest
]

-- The second pass, at one instruction.
unfoldable pub resolve : List (String × ℕ) → Instruction → Instruction
unfolding resolve_label
resolve labels (jmp dest) = jmp (resolve_label labels dest)
resolve labels (cjmp dest kind) = cjmp (resolve_label labels dest) kind
resolve labels (call dest n) = call (resolve_label labels dest) n
resolve labels (closure dest arity) = closure (resolve_label labels dest) arity
resolve labels i = i

unfoldable pub add_instruction : Instruction → Bytefile → Outcome DecoderError Bytefile
add_instruction i bf = do
  encoded ← encode i
  ok (record bf { code_section = bf.code_section ++ encoded })

-- The third pass.
unfoldable pub add_each : List Instruction → Bytefile → Outcome DecoderError Bytefile
unfolding add_instruction
add_each [] bf = ok bf
add_each (i ∷ rest) bf = do bf' ← add_instruction i bf; add_each rest bf'

unfoldable pub add_instructions : List Instruction → Bytefile → Outcome DecoderError Bytefile
unfolding place_labels resolve add_each
add_instructions instructions bf = do
  labels ← place_labels (length bf.code_section) instructions bf.labels
  add_each (map (resolve labels) instructions) (record bf { labels = labels })
