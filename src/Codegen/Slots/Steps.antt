-- ===== src/Codegen/Slots/Steps.antt =====
-- crates/compiler-core/src/codegen/bcgen.rs: the variables that the generator allocates and finds lie
-- below the limits.
use mathlib.Core.Path.{subst⁻¹}
use rapira.Prelude.{
  ℕ, suc, refl, ap, ◌≤◌, ◌<◌, String, Option, none, some, List, ◌∷◌, arith, WhenSome, lookup-Values,
  remove-Values,
}
use rapira.Bytecode.{ValueRel, Label}
use rapira.Codegen.{
  Context, function, BcGen, VariantInfo, Slot, allocate_in, allocate_variable, deallocate_in,
  deallocate_variable, slot_in, or_else, find_variable, fresh_label, push_loop_end, pop_label,
  pop_loop_end,
}
use rapira.Codegen.Context.{global}
use rapira.Codegen.Logic.{Gives, Post}
use rapira.Codegen.Slots.{Limits, SlotFits, Fits, limit, Below}

module _ (top : Limits) (constructors : List (String × VariantInfo)) (ends : List Label)
    (n : ℕ) where
  allocate_in-Post :
      (context : Context) (name : String)
      → n < limit context top
      → (gen : BcGen) → Fits top context constructors ends n gen
      → Post
          (SlotFits top)
          (Fits top context constructors ends (suc n))
          (allocate_in context name gen)
  unfolding allocate_in
  allocate_in-Post function name h gen fits = (
    omega (arith, fits.allocated),
    record {
      same_context = fits.same_context;
      same_constructors = fits.same_constructors;
      same_ends = fits.same_ends;
      allocated = omega (arith, fits.allocated);
      locals_fit = (omega (arith, fits.allocated), fits.locals_fit);
      args_fit = fits.args_fit;
      globals_fit = fits.globals_fit;
    },
  )
  allocate_in-Post global name h gen fits = (
    omega (arith, fits.allocated),
    record {
      same_context = fits.same_context;
      same_constructors = fits.same_constructors;
      same_ends = fits.same_ends;
      allocated = omega (arith, fits.allocated);
      locals_fit = fits.locals_fit;
      args_fit = fits.args_fit;
      globals_fit = (omega (arith, fits.allocated), fits.globals_fit);
    },
  )

  module _ (context : Context) where
    abbrev Here : BcGen → Type 0
    Here = Fits top context constructors ends n

    pub allocate_variable-Gives :
        (name : String)
        → n < limit context top
        → Gives Here
            (allocate_variable name)
            (SlotFits top)
            (Fits top context constructors ends (suc n))
    unfolding allocate_variable
    allocate_variable-Gives name h = record {
      from = λ gen fits.
          subst⁻¹
            (λ c.
              Post (SlotFits top) (Fits top context constructors ends (suc n))
                (allocate_in c name gen))
            fits.same_context (allocate_in-Post context name h gen fits);
    }

    deallocate_in-Post :
        (c : Context) (name : String) (gen : BcGen)
        → Here gen
        → Post (λ _. Unit) Here (deallocate_in c name gen)
    unfolding deallocate_in
    deallocate_in-Post function name gen fits = (
      tt,
      record {
        same_context = fits.same_context;
        same_constructors = fits.same_constructors;
        same_ends = fits.same_ends;
        allocated = fits.allocated;
        locals_fit = remove-Values _ name gen.env.locals fits.locals_fit;
        args_fit = fits.args_fit;
        globals_fit = fits.globals_fit;
      },
    )
    deallocate_in-Post global name gen fits = (
      tt,
      record {
        same_context = fits.same_context;
        same_constructors = fits.same_constructors;
        same_ends = fits.same_ends;
        allocated = fits.allocated;
        locals_fit = fits.locals_fit;
        args_fit = fits.args_fit;
        globals_fit = remove-Values _ name gen.env.globals fits.globals_fit;
      },
    )

    pub deallocate_variable-Gives :
        (name : String) → Gives Here (deallocate_variable name) (λ _. Unit) Here
    unfolding deallocate_variable
    deallocate_variable-Gives name = record {
      from = λ gen fits. deallocate_in-Post gen.env.context name gen fits;
    }

    pub fresh_label-Gives : (prefix : String) → Gives Here (fresh_label prefix) (λ _. Unit) Here
    unfolding fresh_label
    fresh_label-Gives prefix = record {
      from = λ gen fits. (
        tt,
        record {
          same_context = fits.same_context;
          same_constructors = fits.same_constructors;
          same_ends = fits.same_ends;
          allocated = fits.allocated;
          locals_fit = fits.locals_fit;
          args_fit = fits.args_fit;
          globals_fit = fits.globals_fit;
        },
      );
    }

    pub push_loop_end-Gives :
        (l : Label)
        → Gives Here (push_loop_end l) (λ _. Unit) (Fits top context constructors (l ∷ ends) n)
    unfolding push_loop_end
    push_loop_end-Gives l = record {
      from = λ gen fits. (
        tt,
        record {
          same_context = fits.same_context;
          same_constructors = fits.same_constructors;
          same_ends = ap (λ labels. l ∷ labels) fits.same_ends;
          allocated = fits.allocated;
          locals_fit = fits.locals_fit;
          args_fit = fits.args_fit;
          globals_fit = fits.globals_fit;
        },
      );
    }

    pub pop_loop_end-Gives :
        (l : Label)
        → Gives (Fits top context constructors (l ∷ ends) n) pop_loop_end (λ _. Unit) Here
    unfolding pop_loop_end
    pop_loop_end-Gives l = record {
      from = λ gen fits.
          subst⁻¹ (λ labels. Post (λ _. Unit) Here (pop_label labels gen)) fits.same_ends
            (
              tt,
              record {
                same_context = fits.same_context;
                same_constructors = fits.same_constructors;
                same_ends = refl;
                allocated = fits.allocated;
                locals_fit = fits.locals_fit;
                args_fit = fits.args_fit;
                globals_fit = fits.globals_fit;
              },
            );
    }

    pub find_variable-WhenSome :
        (name : String) (gen : BcGen)
        → Here gen
        → WhenSome (SlotFits top) (find_variable name gen.env)
    unfolding find_variable or_else
    find_variable-WhenSome name gen fits =
        either _ _ (at ValueRel.local _ (lookup-Values _ name gen.env.locals fits.locals_fit)) (
          either _ _ (at ValueRel.arg _ (lookup-Values _ name gen.env.args fits.args_fit))
            (at ValueRel.global _ (lookup-Values _ name gen.env.globals fits.globals_fit)))
      where
        at :
            (rel : ValueRel) (o : Option ℕ)
            → WhenSome (Below top rel) o
            → WhenSome (SlotFits top) (slot_in rel o)
        at rel none p = tt
        at rel (some id) p = p

        either :
            (a b : Option Slot)
            → WhenSome (SlotFits top) a
            → WhenSome (SlotFits top) b
            → WhenSome (SlotFits top) (or_else a b)
        either none b p q = q
        either (some slot) b p q = p

-- More may have been allocated than was.
pub Fits-mono :
    (top : Limits) (context : Context) (constructors : List (String × VariantInfo))
    (ends : List Label) (n m : ℕ)
    → n ≤ m
    → (gen : BcGen) → Fits top context constructors ends n gen
    → Fits top context constructors ends m gen
Fits-mono top context constructors ends n m h gen fits = record {
  same_context = fits.same_context;
  same_constructors = fits.same_constructors;
  same_ends = fits.same_ends;
  allocated = omega (arith, fits.allocated);
  locals_fit = fits.locals_fit;
  args_fit = fits.args_fit;
  globals_fit = fits.globals_fit;
}
