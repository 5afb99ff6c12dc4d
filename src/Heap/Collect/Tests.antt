-- ===== src/Heap/Collect/Tests.antt =====
-- The collector of src/mb_heap.c (erts/example/mini_beam_esp32) on a heap with a tuple, a list cell
-- in it, and a cell that nothing points at.
use os_ii.Prelude.{
  ℕ, zero, suc, ◌+◌, ◌<◌, ◌≡◌, inl, inr, refl, sym, arith, List, [], ◌∷◌, replicate, All,
}
use mathlib.Core.Path.{subst}
use os_ii.Term.{Term, make_tuple_hdr, make_boxed, make_cons, is_immediate}
use os_ii.Heap.{Heap, space_a, space_b, make_tuple}
use os_ii.Heap.Objects.{Kind, tuple, cell, At, at, Sound, plain, boxed, pair, Shaped, WellFormed}
use os_ii.Heap.Build.{Built, make_tuple-WellFormed}
use os_ii.Heap.Collect.Result.{Collected, gc_lem}

-- The garbage, the cell `[1]`, the tuple `{[1], 2}`.
abbrev filled_words : List Term
filled_words = 0x3F ∷ 0x4F ∷ 0x1F ∷ 0xB ∷ 0x80 ∷ 0x21 ∷ 0x2F ∷ replicate 121 0

abbrev filled : Heap
filled = record {
  space_a = filled_words;
  space_b = replicate 128 0;
  from = space_a;
  to = space_b;
  hp = 7;
  capacity = 128;
  gc_count = 0;
}

abbrev kinds : List Kind
kinds = cell ∷ cell ∷ tuple 1 ∷ []

moved_to :
    (off base : ℕ) (k k' : Kind)
    → (off ≡ base) × (k ≡ k')
    → Shaped kinds filled_words base k'
    → Shaped kinds filled_words off k
moved_to off base k k' (e, same) s =
    subst (λ n. Shaped kinds filled_words n k) (sym e)
      (subst (Shaped kinds filled_words base) (sym same) s)

cell-Shaped :
    (off : ℕ)
    → Sound kinds (at filled_words (off + 0))
    → Sound kinds (at filled_words (off + 1))
    → Shaped kinds filled_words off cell
cell-Shaped off s s' zero lt = s
cell-Shaped off s s' (suc zero) lt = s'
cell-Shaped off s s' (suc (suc x)) lt = absurd (omega arith)

tuple-Shaped : Shaped kinds filled_words 4 (tuple 1)
unfolding make_tuple_hdr is_immediate make_cons
tuple-Shaped = (refl, element)
  where
    element : (x : ℕ) → 0 < x → x < 3 → Sound kinds (at filled_words (4 + x))
    element zero pos lt = absurd (omega arith)
    element (suc zero) pos lt = pair 2 (inr (inl (refl, refl))) refl
    element (suc (suc zero)) pos lt = plain refl
    element (suc (suc (suc x))) pos lt = absurd (omega arith)

filled-Shaped : (off : ℕ) (k : Kind) → At kinds 0 off k → Shaped kinds filled_words off k
unfolding is_immediate
filled-Shaped off k (inl h) = moved_to off 0 k cell h (cell-Shaped 0 (plain refl) (plain refl))
filled-Shaped off k (inr (inl h)) =
    moved_to off 2 k cell h (cell-Shaped 2 (plain refl) (plain refl))
filled-Shaped off k (inr (inr (inl h))) = moved_to off 4 k (tuple 1) h tuple-Shaped
filled-Shaped off k (inr (inr (inr h))) = absurd h

filled-WellFormed : WellFormed filled kinds
filled-WellFormed = record {
  points = inl (refl, refl);
  words_a = refl;
  words_b = refl;
  whole = refl;
  filled = refl;
  room = omega arith;
  shaped = filled-Shaped;
}

root-Sound : All (Sound kinds) (0x42 ∷ 0x1F ∷ [])
unfolding make_boxed is_immediate
root-Sound = (boxed 4 1 (inr (inr (inl (refl, refl)))) refl, (plain refl, tt))

gc_lem_example : Collected filled kinds (0x42 ∷ 0x1F ∷ [])
gc_lem_example = gc_lem filled kinds (0x42 ∷ 0x1F ∷ []) filled-WellFormed root-Sound

make_tuple-WellFormed_example : Built filled kinds (tuple 1) (make_tuple filled (0x42 ∷ 0x1F ∷ []))
make_tuple-WellFormed_example =
    make_tuple-WellFormed filled kinds 0x42 (0x1F ∷ []) filled-WellFormed root-Sound
