-- ===== src/Heap/Collect/Observe.antt =====
-- What can be seen of a root before and after the collector of src/mb_heap.c
-- (erts/example/mini_beam_esp32).
use os_ii.Prelude.{
  ℕ, suc, ◌+◌, ◌≤◌, ◌≡◌, ◌⊎◌, inl, inr, refl, sym, ◌∙◌, ap, arith, false, true, ltb, ltb→lt,
  if◌then◌else◌, Bool, List, [], ◌∷◌, Option, none, some,
}
use os_ii.Term.{Term}
use os_ii.Heap.{heap_words}
use os_ii.Heap.Objects.{Kind, tuple, cell, total, At, At-inside, at, Shaped}
use os_ii.Heap.Paths.{
  look, child, follow, look_word, child_word, look_tuple, child_tuple, look_cell, child_cell,
}
use os_ii.Heap.Collect.State.{State}
use os_ii.Heap.Collect.Forward.{Copied, kept, to_tuple, to_pair, AllCopied}
use os_ii.Heap.Collect.Invariant.{Invariant}
use os_ii.Heap.Collect.Final.{word-Copied, header_copied}

-- Every path from the terms `ts` in `ws` leads to what it leads to from the terms `ts'` in `ws'`.
abbrev pub AllSeen : List Term → List Term → List Term → List Term → Type 0
AllSeen ws ws' [] [] = Unit
AllSeen ws ws' (t ∷ ts) (t' ∷ ts') =
    ((path : List ℕ) → follow ws' t' path ≡ follow ws t path) × AllSeen ws ws' ts ts'
AllSeen ws ws' [] (t' ∷ ts') = ⊥
AllSeen ws ws' (t ∷ ts) [] = ⊥

module _ (ks : List Kind) (before : List Term) (W : ℕ → Kind → Type 0) (s : State)
    (room : total ks ≤ heap_words)
    (shaped : (off : ℕ) (k : Kind) → At ks 0 off k → Shaped ks before off k)
    (v : Invariant ks before W s.hp s) where
  look_same : (t t' : Term) → Copied ks s.old t t' → look s.new t' ≡ look before t
  look_same t t' (kept nb nc e) =
      ap (look s.new) e ∙ look_word s.new t nb nc ∙ sym (look_word before t nb nc)
  look_same t t' (to_tuple off n h e m e') =
      let low = At-inside ks 0 off (tuple n) h in
      let low' = At-inside s.layout 0 (at s.old (off + 1)) (tuple n) (v.placed off (tuple n) h m) in
      ap (look s.new) e'
      ∙ look_tuple s.new (at s.old (off + 1)) (suc n) (omega (arith, low', v.filled, v.budget))
          (omega (arith, low)) (header_copied ks before W s room shaped v off n h m)
      ∙ sym (
          ap (look before) e
          ∙ look_tuple before off (suc n) (omega (arith, low)) (omega (arith, low))
              (shaped off (tuple n) h).0)
  look_same t t' (to_pair off h e m e') =
      let low = At-inside ks 0 off cell h in
      let low' = At-inside s.layout 0 (at s.old (off + 1)) cell (v.placed off cell h m) in
      ap (look s.new) e'
      ∙ look_cell s.new (at s.old (off + 1)) (omega (arith, low', v.filled, v.budget))
      ∙ sym (ap (look before) e ∙ look_cell before off (omega (arith, low)))

  -- The elements of a copy are the copies of the elements.
  abbrev Alike : Option Term → Option Term → Type 0
  Alike o o' =
      ((o ≡ none) × (o' ≡ none))
      ⊎ ((u u' : Term) × (o ≡ some u) × (o' ≡ some u') × Copied ks s.old u u')

  Alike-if :
      (b : Bool) (u u' : Term) (o o' : Option Term)
      → o ≡ (if b then some u else none)
      → o' ≡ (if b then some u' else none)
      → (b ≡ true → Copied ks s.old u u')
      → Alike o o'
  Alike-if true u u' o o' e e' c = inr (u, u', e, e', c refl)
  Alike-if false u u' o o' e e' c = inl (e, e')

  child-Alike :
      (t t' : Term) (i : ℕ) → Copied ks s.old t t' → Alike (child before t i) (child s.new t' i)
  child-Alike t t' i (kept nb nc e) =
      inl (child_word before t i nb nc, ap (λ w. child s.new w i) e ∙ child_word s.new t i nb nc)
  child-Alike t t' i (to_tuple off n h e m e') =
      let low = At-inside ks 0 off (tuple n) h in
      let low' = At-inside s.layout 0 (at s.old (off + 1)) (tuple n) (v.placed off (tuple n) h m) in
      Alike-if (ltb i (suc n)) (at before (off + (1 + i))) (at s.new (at s.old (off + 1) + (1 + i)))
        _ _
        (ap (λ w. child before w i) e
          ∙ child_tuple before off (suc n) (omega (arith, low)) (omega (arith, low))
              (shaped off (tuple n) h).0 i)
        (ap (λ w. child s.new w i) e'
          ∙ child_tuple s.new (at s.old (off + 1)) (suc n) (omega (arith, low', v.filled, v.budget))
              (omega (arith, low)) (header_copied ks before W s room shaped v off n h m) i)
        (λ lt.
          word-Copied ks before W s room shaped v off (tuple n) h m (1 + i)
            (omega (arith, ltb→lt i (suc n) lt)))
  child-Alike t t' i (to_pair off h e m e') =
      let low = At-inside ks 0 off cell h in
      let low' = At-inside s.layout 0 (at s.old (off + 1)) cell (v.placed off cell h m) in
      Alike-if (ltb i 2) (at before (off + i)) (at s.new (at s.old (off + 1) + i)) _ _
        (ap (λ w. child before w i) e ∙ child_cell before off (omega (arith, low)) i)
        (ap (λ w. child s.new w i) e'
          ∙ child_cell s.new (at s.old (off + 1)) (omega (arith, low', v.filled, v.budget)) i)
        (λ lt.
          word-Copied ks before W s room shaped v off cell h m i (omega (arith, ltb→lt i 2 lt)))

  follow_same :
      (t t' : Term) (path : List ℕ)
      → Copied ks s.old t t'
      → follow s.new t' path ≡ follow before t path
  unfolding follow
  follow_same t t' [] c = ap some (look_same t t' c)
  follow_same t t' (i ∷ path) c = elim (child-Alike t t' i c) [
    | inl (e, e') ↦ rw (e, follow) (rw (e', follow) refl)
    | inr (u, u', e, e', c') ↦ rw (e, follow) (rw (e', follow) (follow_same u u' path c'))
  ]

  pub AllCopied-AllSeen :
      (ts ts' : List Term) → AllCopied ks s.old ts ts' → AllSeen before s.new ts ts'
  AllCopied-AllSeen [] [] c = tt
  AllCopied-AllSeen (t ∷ ts) (t' ∷ ts') c =
      ((λ path. follow_same t t' path c.0), AllCopied-AllSeen ts ts' c.1)
  AllCopied-AllSeen [] (t' ∷ ts') c = absurd c
  AllCopied-AllSeen (t ∷ ts) [] c = absurd c
