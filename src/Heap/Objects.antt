-- ===== src/Heap/Objects.antt =====
-- The objects of a heap of include/mb_heap.h (erts/example/mini_beam_esp32): tuples of at least one
-- element and cons cells, one after the other from the first word on.
use os_ii.Prelude.{
  ℕ, ◌+◌, ◌≤◌, ◌<◌, ◌≡◌, ◌⊎◌, inl, inr, refl, sym, ◌∙◌, ap, arith, true, List, [], ◌∷◌, ◌++◌,
  length, get_or, suc,
}
use native.Mathlib.Decide.{dec_lt}
use os_ii.Term.{Term, make_tuple_hdr, make_boxed, make_cons, is_immediate}
use os_ii.Heap.{Heap, space_a, space_b, words, heap_words}

-- `tuple n` has `n + 1` elements.
pub data Kind : Type 0 where
  tuple : ℕ → Kind
  cell : Kind

abbrev pub size : Kind → ℕ
size (tuple n) = n + 2
size cell = 2

pub le-size : (k : Kind) → 2 ≤ size k
le-size (tuple n) = omega arith
le-size cell = omega arith

abbrev pub total : List Kind → ℕ
total [] = 0
total (k ∷ ks) = size k + total ks

-- The objects `ks` stand from the word `base` on, and the one at `off` is a `k`.
abbrev pub At : List Kind → ℕ → ℕ → Kind → Type 0
At [] base off k = ⊥
At (k' ∷ ks) base off k = ((off ≡ base) × (k ≡ k')) ⊎ At ks (base + size k') off k

pub At-inside :
    (ks : List Kind) (base off : ℕ) (k : Kind)
    → At ks base off k
    → (base ≤ off) × (off + size k ≤ base + total ks)
At-inside [] base off k h = absurd h
At-inside (k' ∷ ks) base off k (inl (e, same)) = omega (arith, ap size same)
At-inside (k' ∷ ks) base off k (inr h) = omega (arith, At-inside ks (base + size k') off k h)

-- Two objects are the same one or have no word in common.
pub At-apart :
    (ks : List Kind) (base i j : ℕ) (k l : Kind)
    → At ks base i k
    → At ks base j l
    → ((i ≡ j) × (k ≡ l)) ⊎ ((i + size k ≤ j) ⊎ (j + size l ≤ i))
At-apart [] base i j k l h g = absurd h
At-apart (x ∷ ks) base i j k l (inl (e, same)) (inl (e', same')) =
    inl (e ∙ sym e', same ∙ sym same')
At-apart (x ∷ ks) base i j k l (inl (e, same)) (inr g) =
    inr (inl (omega (arith, ap size same, At-inside ks (base + size x) j l g)))
At-apart (x ∷ ks) base i j k l (inr h) (inl (e, same)) =
    inr (inr (omega (arith, ap size same, At-inside ks (base + size x) i k h)))
At-apart (x ∷ ks) base i j k l (inr h) (inr g) = At-apart ks (base + size x) i j k l h g

-- Every word is an object's.
pub At-covers :
    (ks : List Kind) (base p : ℕ)
    → base ≤ p
    → p < base + total ks
    → (off : ℕ) × (k : Kind) × At ks base off k × (off ≤ p) × (p < off + size k)
At-covers [] base p low high = absurd (omega arith)
At-covers (k ∷ ks) base p low high = elim (dec_lt p (base + size k)) [
  | yes lt ↦ (base, k, inl (refl, refl), low, lt)
  | no ge ↦
      let (off, l, h, low', high') = At-covers ks (base + size k) p (omega arith) (omega arith) in
      (off, l, inr h, low', high')
]

pub total-append : (ks ls : List Kind) → total (ks ++ ls) ≡ total ks + total ls
total-append [] ls = omega arith
total-append (k ∷ ks) ls = omega (arith, total-append ks ls)

pub At-append :
    (ks ls : List Kind) (base off : ℕ) (k : Kind) → At ks base off k → At (ks ++ ls) base off k
At-append [] ls base off k h = absurd h
At-append (k' ∷ ks) ls base off k (inl h) = inl h
At-append (k' ∷ ks) ls base off k (inr h) = inr (At-append ks ls (base + size k') off k h)

pub At-last : (ks : List Kind) (base : ℕ) (k : Kind) → At (ks ++ k ∷ []) base (base + total ks) k
At-last [] base k = inl (omega arith, refl)
At-last (k' ∷ ks) base k =
    let there : base + (size k' + total ks) ≡ base + size k' + total ks = omega arith in
    rw there (inr (At-last ks (base + size k') k))

pub At-append-cases :
    (ks : List Kind) (base off : ℕ) (k l : Kind)
    → At (ks ++ l ∷ []) base off k
    → At ks base off k ⊎ ((off ≡ base + total ks) × (k ≡ l))
At-append-cases [] base off k l (inl (e, same)) = inr (omega arith, same)
At-append-cases [] base off k l (inr h) = absurd h
At-append-cases (k' ∷ ks) base off k l (inl h) = inl (inl h)
At-append-cases (k' ∷ ks) base off k l (inr h) =
    elim (At-append-cases ks (base + size k') off k l h) [
      | inl there ↦ inl (inr there)
      | inr (e, same) ↦ inr (omega arith, same)
    ]

-- A word of an array; a read outside is never made of a well-formed heap.
abbrev pub at : List Term → ℕ → Term
at ws i = get_or ws i 0

abbrev pub In : Term → List Term → Type 0
In t [] = ⊥
In t (u ∷ us) = (t ≡ u) ⊎ In t us

-- A term that may stand on a heap with the objects `ks`: an immediate one, the 0 of a slot that was
-- never filled, or a pointer to an object of its kind.
pub data Sound (ks : List Kind) (t : Term) : Type 0 where
  plain : is_immediate t ≡ true → Sound ks t
  empty : t ≡ 0 → Sound ks t
  boxed : (off n : ℕ) → At ks 0 off (tuple n) → t ≡ make_boxed off → Sound ks t
  pair : (off : ℕ) → At ks 0 off cell → t ≡ make_cons off → Sound ks t

-- The pointer to an object of the kind at `i`.
abbrev pub Points : Term → ℕ → Kind → Type 0
Points t i (tuple n) = t ≡ make_boxed i
Points t i cell = t ≡ make_cons i

-- The objects of `ws` that can be reached from the terms `ts`.
pub data Live (ks : List Kind) (ws ts : List Term) : ℕ → Kind → Type 0 where
  root : (t : Term) (i : ℕ) (k : Kind) → In t ts → At ks 0 i k → Points t i k → Live ks ws ts i k
  element :
      (i j x : ℕ) (k l : Kind)
      → Live ks ws ts i k
      → At ks 0 i k
      → x < size k
      → At ks 0 j l
      → Points (at ws (i + x)) j l
      → Live ks ws ts j l

-- The words of an array from `off` on are an object.
abbrev pub Shaped : List Kind → List Term → ℕ → Kind → Type 0
Shaped ks ws off (tuple n) =
    (at ws off ≡ make_tuple_hdr (suc n))
    × ((x : ℕ) → 0 < x → x < n + 2 → Sound ks (at ws (off + x)))
Shaped ks ws off cell = (x : ℕ) → x < 2 → Sound ks (at ws (off + x))

-- What the operations of a heap keep: both arrays are of their size, `from` and `to` point at one
-- each, and the words below `hp` are the objects `ks`.
pub record WellFormed (heap : Heap) (ks : List Kind) : Type 0 where
  pub points :
      ((heap.from ≡ space_a) × (heap.to ≡ space_b)) ⊎ ((heap.from ≡ space_b) × (heap.to ≡ space_a))
  pub words_a : length heap.space_a ≡ heap_words
  pub words_b : length heap.space_b ≡ heap_words
  pub whole : heap.capacity ≡ heap_words
  pub filled : total ks ≡ heap.hp
  pub room : heap.hp ≤ heap_words
  pub shaped : (off : ℕ) (k : Kind) → At ks 0 off k → Shaped ks (words heap heap.from) off k
