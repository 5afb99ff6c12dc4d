-- ===== src/Heap/Collect/MoveKeeps.antt =====
-- The copying of one object by the collector of src/mb_heap.c (erts/example/mini_beam_esp32).
use os_ii.Prelude.{
  ℕ, ◌+◌, ◌≤◌, ◌<◌, ◌≡◌, ◌≢◌, ◌⊎◌, inl, inr, sym, ◌∙◌, ap, arith, List, [], ◌∷◌, ◌++◌, length,
}
use mathlib.Core.Path.{subst}
use os_ii.Term.{Term, moved_marker}
use os_ii.Heap.{heap_words}
use os_ii.Heap.Objects.{
  Kind, size, le-size, total, total-append, At, At-inside, At-apart, At-append, At-last,
  At-append-cases, at,
}
use os_ii.Heap.Collect.State.{
  State, length-blit, blit_below, blit_at, length-forward, forward_marker, forward_offset,
  forward_other, move,
}
use os_ii.Heap.Collect.Forward.{Moved, Copied, Later, Copied-Later, pending-forward}
use os_ii.Heap.Collect.Invariant.{Invariant}

module _ (ks : List Kind) (before : List Term) (W : ℕ → Kind → Type 0) (c : ℕ) (s : State)
    (room : total ks ≤ heap_words) (v : Invariant ks before W c s) (i : ℕ) (k : Kind)
    (h : At ks 0 i k) (unmoved : at s.old i ≢ moved_marker) where
  -- The state after the copying.
  abbrev pub after : State
  after = move s i (size k) (s.layout ++ k ∷ [])

  pub inside : i + size k ≤ length s.old
  inside = omega (arith, At-inside ks 0 i k h, v.size_old)

  pub space : s.hp + size k ≤ length s.new
  space = omega (
    arith,
    v.size_new,
    v.budget,
    pending-forward ks 0 i k s.old s.hp h unmoved (omega (arith, v.size_old)),
  )

  pub marked : Moved after.old i
  marked = forward_marker s.old i s.hp (omega (arith, inside, le-size k))

  pub gone_to : at after.old (i + 1) ≡ s.hp
  gone_to = forward_offset s.old i s.hp (omega (arith, inside, le-size k))

  -- The words of the other objects are as they were.
  others :
      (j : ℕ) (l : Kind)
      → At ks 0 j l
      → ((i ≡ j) × (k ≡ l))
        ⊎ (i ≢ j) × ((x : ℕ) → x < size l → at after.old (j + x) ≡ at s.old (j + x))
  others j l g = elim (At-apart ks 0 i j k l h g) [
    | inl same ↦ inl same
    | inr (inl low) ↦ inr (
      (λ e. absurd (omega (arith, le-size k))),
      λ x lt.
          forward_other s.old i s.hp (j + x) (λ e. absurd (omega (arith, le-size k)))
            (λ e. absurd (omega (arith, le-size k))),
    )
    | inr (inr high) ↦ inr (
      (λ e. absurd (omega (arith, le-size l))),
      λ x lt.
          forward_other s.old i s.hp (j + x) (λ e. absurd (omega arith))
            (λ e. absurd (omega arith)),
    )
  ]

  -- A copied object is this one, or it had been copied before to the same place.
  copied_cases :
      (j : ℕ) (l : Kind)
      → At ks 0 j l
      → Moved after.old j
      → ((i ≡ j) × (k ≡ l)) ⊎ (Moved s.old j × (at after.old (j + 1) ≡ at s.old (j + 1)))
  copied_cases j l g m = elim (others j l g) [
    | inl same ↦ inl same
    | inr (ne, f) ↦
        let z : j + 0 ≡ j = omega arith in
        let two = le-size l in
        inr (
          ap (at s.old) (sym z) ∙ sym (f 0 (omega arith)) ∙ ap (at after.old) z ∙ m,
          f 1 (omega arith),
        )
  ]

  pub after-Later : Later ks s.old after.old
  after-Later j l g m = elim (others j l g) [
    | inl (e, same) ↦ absurd (unmoved (ap (at s.old) e ∙ m))
    | inr (ne, f) ↦
        let z : j + 0 ≡ j = omega arith in
        let two = le-size l in
        (ap (at after.old) (sym z) ∙ f 0 (omega arith) ∙ ap (at s.old) z ∙ m, f 1 (omega arith))
  ]

  intact :
      (j : ℕ) (l : Kind)
      → At ks 0 j l
      → at after.old j ≢ moved_marker
      → (x : ℕ) → x < size l
      → at after.old (j + x) ≡ at before (j + x)
  intact j l g ne x lt = elim (others j l g) [
    | inl (e, same) ↦ absurd (ne (ap (at after.old) (sym e) ∙ marked))
    | inr (ne', f) ↦
        let z : j + 0 ≡ j = omega arith in
        f x lt
        ∙ v.intact j l g
            (λ m. ne (ap (at after.old) (sym z) ∙ f 0 (omega arith) ∙ ap (at s.old) z ∙ m)) x lt
  ]

  layout_end : At after.layout 0 s.hp k
  layout_end =
      let e : 0 + total s.layout ≡ s.hp = omega (arith, v.filled) in
      subst (λ n. At after.layout 0 n k) e (At-last s.layout 0 k)

  placed :
      (j : ℕ) (l : Kind)
      → At ks 0 j l
      → Moved after.old j
      → At after.layout 0 (at after.old (j + 1)) l
  placed j l g m = elim (copied_cases j l g m) [
    | inl (e, same) ↦
        subst (λ n. At after.layout 0 n l) (sym gone_to ∙ ap (λ n. at after.old (n + 1)) e)
          (subst (λ q. At after.layout 0 s.hp q) same layout_end)
    | inr (m', e) ↦
        subst (λ n. At after.layout 0 n l) (sym e)
          (At-append s.layout (k ∷ []) 0 (at s.old (j + 1)) l (v.placed j l g m'))
  ]

  -- The object copied now is behind the words scanned, and those copied before are below it.
  words_of :
      (j : ℕ) (l : Kind)
      → At ks 0 j l
      → Moved after.old j
      → (x : ℕ) → x < size l
      → (c ≤ at after.old (j + 1) + x)
          × (at after.new (at after.old (j + 1) + x) ≡ at before (j + x))
        ⊎ (Moved s.old j
            × (at after.old (j + 1) ≡ at s.old (j + 1))
            × (at after.new (at s.old (j + 1) + x) ≡ at s.new (at s.old (j + 1) + x)))
  words_of j l g m x lt = elim (copied_cases j l g m) [
    | inl (e, same) ↦
        let to : at after.old (j + 1) ≡ s.hp = ap (λ n. at after.old (n + 1)) (sym e) ∙ gone_to in
        let lt' : x < size k = omega (arith, ap size same) in
        inl (
          omega (arith, to, v.below),
          ap (λ n. at after.new (n + x)) to
              ∙ blit_at (size k) s.old i s.new s.hp x lt' space
              ∙ v.intact i k h unmoved x lt'
              ∙ ap (λ n. at before (n + x)) e,
        )
    | inr (m', e) ↦ inr (
      m',
      e,
      blit_below (size k) s.old i s.new s.hp (at s.old (j + 1) + x)
          (omega (arith, At-inside s.layout 0 (at s.old (j + 1)) l (v.placed j l g m'), v.filled)),
    )
  ]

  translated :
      (j : ℕ) (l : Kind)
      → At ks 0 j l
      → Moved after.old j
      → (x : ℕ) → x < size l
      → at after.old (j + 1) + x < c
      → Copied ks after.old (at before (j + x)) (at after.new (at after.old (j + 1) + x))
  translated j l g m x lt low = elim (words_of j l g m x lt) [
    | inl (high, e) ↦ absurd (omega arith)
    | inr (m', e, w) ↦
        subst (λ n. Copied ks after.old (at before (j + x)) (at after.new (n + x))) (sym e)
          (subst (λ w. Copied ks after.old (at before (j + x)) w) (sym w)
            (Copied-Later ks s.old after.old _ _ after-Later
              (v.translated j l g m' x lt (omega arith))))
  ]

  verbatim :
      (j : ℕ) (l : Kind)
      → At ks 0 j l
      → Moved after.old j
      → (x : ℕ) → x < size l
      → c ≤ at after.old (j + 1) + x
      → at after.new (at after.old (j + 1) + x) ≡ at before (j + x)
  verbatim j l g m x lt high = elim (words_of j l g m x lt) [
    | inl (_, e) ↦ e
    | inr (m', e, w) ↦ ap (λ n. at after.new (n + x)) e ∙ w ∙ v.verbatim j l g m' x lt (omega arith)
  ]

  origin :
      (n : ℕ) (l : Kind)
      → At after.layout 0 n l
      → (j : ℕ) × At ks 0 j l × Moved after.old j × (at after.old (j + 1) ≡ n)
  origin n l g = elim (At-append-cases s.layout 0 n l k g) [
    | inl there ↦
        let (j, g', m, e) = v.origin n l there in
        let (m', e') = after-Later j l g' m in (j, g', m', e' ∙ e)
    | inr (e, same) ↦
        (i, subst (λ q. At ks 0 i q) (sym same) h, marked, gone_to ∙ omega (arith, v.filled))
  ]

  wanted : W i k → (j : ℕ) (l : Kind) → At ks 0 j l → Moved after.old j → W j l
  wanted want j l g m = elim (copied_cases j l g m) [
    | inl (e, same) ↦ subst (λ n. W n l) e (subst (W i) same want)
    | inr (m', e) ↦ v.wanted j l g m'
  ]

  pub after-Invariant : W i k → Invariant ks before W c after
  after-Invariant want = record {
    below = omega (arith, v.below);
    size_new = length-blit (size k) s.old i s.new s.hp ∙ v.size_new;
    size_old = length-forward s.old i s.hp ∙ v.size_old;
    budget = omega (
      arith,
      v.budget,
      pending-forward ks 0 i k s.old s.hp h unmoved (omega (arith, v.size_old)),
    );
    filled = omega (arith, v.filled, total-append s.layout (k ∷ []));
    intact = intact;
    placed = placed;
    translated = translated;
    verbatim = verbatim;
    origin = origin;
    wanted = wanted want;
  }
