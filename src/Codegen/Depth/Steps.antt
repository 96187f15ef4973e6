-- ===== src/Codegen/Depth/Steps.antt =====
-- crates/compiler-core/src/codegen/bcgen.rs: no step of the environment changes the constructors of the
-- generator.
use Prim.Native.Char.{code as char_code}
use Prim.Native.String.append
use Prim.Native.String.{◌++◌ as append}
use rapira.Prelude.{
  Bool, true, false, not, ◌||◌, ◌&&◌, ◌==◌, arith, ℕ, String, List, [], ◌∷◌, ◌≡◌, refl, All,
}
use rapira.Bytecode.{Label}
use rapira.Codegen.{
  Context, function, BcGen, allocate_in, allocate_variable, deallocate_in, deallocate_variable,
  fresh_label, push_loop_end, pop_label, pop_loop_end,
}
use rapira.Codegen.Context.{global}
use rapira.Codegen.Depth.{LoopsEnter, IsEntry, starts_with}
use rapira.Codegen.Text.{indexed, show}
use rapira.Codegen.Logic.{Gives, Post}

-- One of the two texts has another character where both have one.
abbrev pub differs : String → String → Bool
differs String.[] prefix = false
differs (String.◌∷◌ c w) String.[] = false
differs (String.◌∷◌ c w) (String.◌∷◌ d prefix) =
    not (char_code c == char_code d) || differs w prefix

differs_here :
    (same start other : Bool)
    → (other ≡ true → start ≡ false)
    → (not same || other) ≡ true
    → (same && start) ≡ false
differs_here true start other h e = h e
differs_here false start other h e = refl

starts_with-append :
    (w prefix rest : String) → differs w prefix ≡ true → starts_with w (append prefix rest) ≡ false
starts_with-append String.[] prefix rest e = cc
starts_with-append (String.◌∷◌ c w) String.[] rest e = cc
starts_with-append (String.◌∷◌ c w) (String.◌∷◌ d prefix) rest e = rw (append.cons d prefix rest) (
    differs_here (char_code c == char_code d) _ (differs w prefix)
      (starts_with-append w prefix rest) e)

starts_with_self : (w rest : String) → starts_with w (append w rest) ≡ true
starts_with_self String.[] rest = refl
starts_with_self (String.◌∷◌ c w) rest =
    rw (append.cons c w rest, starts_with_self w rest) (grind arith)

begins_lem : (rest : String) → ¬ IsEntry (append "if_begin" rest)
begins_lem rest e = let h = starts_with_self "if_begin" rest in cc (e, h)

module _ (fields : ℕ → ℕ) where
  abbrev S : BcGen → Type 0
  S = LoopsEnter fields

  allocate_in-Post :
      (c : Context) (v : String) (gen : BcGen) → S gen → Post (λ _. Unit) S (allocate_in c v gen)
  unfolding allocate_in
  allocate_in-Post function v gen s = (tt, s)
  allocate_in-Post global v gen s = (tt, s)

  pub allocate_variable-Agrees : (v : String) → Gives S (allocate_variable v) (λ _. Unit) S
  unfolding allocate_variable
  allocate_variable-Agrees v = record { from = λ gen s. allocate_in-Post gen.env.context v gen s }

  deallocate_in-Post :
      (c : Context) (v : String) (gen : BcGen) → S gen → Post (λ _. Unit) S (deallocate_in c v gen)
  unfolding deallocate_in
  deallocate_in-Post function v gen s = (tt, s)
  deallocate_in-Post global v gen s = (tt, s)

  pub deallocate_variable-Agrees : (v : String) → Gives S (deallocate_variable v) (λ _. Unit) S
  unfolding deallocate_variable
  deallocate_variable-Agrees v = record {
    from = λ gen s. deallocate_in-Post gen.env.context v gen s;
  }

  -- A fresh label of a prefix by which it is one to jump to
  pub fresh_label-Agrees :
      (prefix : String)
      → differs "if_begin" prefix ≡ true
      → Gives S (fresh_label prefix) (λ l. IsEntry l.name) S
  unfolding fresh_label indexed
  fresh_label-Agrees prefix h = record {
    from = λ gen s. (starts_with-append "if_begin" prefix _ h, s);
  }

  -- The label behind a condition
  pub begin_label-Agrees : Gives S (fresh_label "if_begin") (λ l. ¬ IsEntry l.name) S
  unfolding fresh_label indexed
  begin_label-Agrees = record {
    from = λ gen s. (begins_lem (append "_" (show gen.env.label_counter)), s);
  }

  pub push_loop_end-Agrees : (l : Label) → IsEntry l.name → Gives S (push_loop_end l) (λ _. Unit) S
  unfolding push_loop_end
  push_loop_end-Agrees l h = record { from = λ gen s. (tt, (s.0, (h, s.1))) }

  pop_label-Post :
      (labels : List Label) (gen : BcGen)
      → All (λ l. IsEntry l.name) labels
      → S gen
      → Post (λ _. Unit) S (pop_label labels gen)
  pop_label-Post [] gen h s = tt
  pop_label-Post (l ∷ labels) gen h s = (tt, (s.0, h.1))

  pub pop_loop_end-Agrees : Gives S pop_loop_end (λ _. Unit) S
  unfolding pop_loop_end
  pop_loop_end-Agrees = record { from = λ gen s. pop_label-Post gen.env.loop_end_labels gen s.1 s }
