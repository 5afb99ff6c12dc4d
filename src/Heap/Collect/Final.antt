-- ===== src/Heap/Collect/Final.antt =====
-- The new space when the collector of src/mb_heap.c (erts/example/mini_beam_esp32) has scanned all
-- of it.
use os_ii.Prelude.{
  ℕ, suc, ◌+◌, ◌≤◌, ◌<◌, ◌≡◌, ◌⊎◌, inl, inr, refl, sym, ◌∙◌, ap, arith, false, List, [], ◌∷◌, All,
}
use mathlib.Core.Path.{subst}
use os_ii.Term.{Term, make_tuple_hdr, is_boxed, is_cons}
use os_ii.Term.Bounds.{pointer_round_trip}
use os_ii.Heap.{heap_words}
use os_ii.Heap.Objects.{
  Kind, tuple, cell, size, total, At, At-inside, at, Sound, plain, empty, boxed, pair, Shaped,
}
use os_ii.Heap.Collect.State.{State}
use os_ii.Heap.Collect.Forward.{Moved, Copied, kept, to_tuple, to_pair, AllCopied}
use os_ii.Heap.Collect.Invariant.{Invariant}
use os_ii.Heap.Collect.Terms.{hdr-plain}

Copied-same :
    (ks : List Kind) (old : List Term) (t t' : Term)
    → total ks ≤ heap_words
    → is_boxed t ≡ false
    → is_cons t ≡ false
    → Copied ks old t t'
    → t' ≡ t
Copied-same ks old t t' room nb nc (kept _ _ e) = e
Copied-same ks old t t' room nb nc (to_tuple off n h e m e') =
    let trip = pointer_round_trip off (omega (arith, At-inside ks 0 off (tuple n) h)) in
    cc (sym nb ∙ ap is_boxed e ∙ trip.1)
Copied-same ks old t t' room nb nc (to_pair off h e m e') =
    let trip = pointer_round_trip off (omega (arith, At-inside ks 0 off cell h)) in
    cc (sym nc ∙ ap is_cons e ∙ trip.5)

module _ (ks : List Kind) (before : List Term) (W : ℕ → Kind → Type 0) (s : State)
    (room : total ks ≤ heap_words)
    (shaped : (off : ℕ) (k : Kind) → At ks 0 off k → Shaped ks before off k)
    (v : Invariant ks before W s.hp s) where
  -- The copy of an object, word by word.
  pub word-Copied :
      (i : ℕ) (k : Kind)
      → At ks 0 i k
      → Moved s.old i
      → (x : ℕ) → x < size k
      → Copied ks s.old (at before (i + x)) (at s.new (at s.old (i + 1) + x))
  word-Copied i k h m x lt =
      v.translated i k h m x lt
        (omega (arith, At-inside s.layout 0 (at s.old (i + 1)) k (v.placed i k h m), v.filled))

  pub header_copied :
      (i n : ℕ)
      → At ks 0 i (tuple n)
      → Moved s.old i
      → at s.new (at s.old (i + 1)) ≡ make_tuple_hdr (suc n)
  header_copied i n h m =
      let from : i + 0 ≡ i = omega arith in
      let to : at s.old (i + 1) + 0 ≡ at s.old (i + 1) = omega arith in
      let hdr : at before (i + 0) ≡ make_tuple_hdr (suc n) =
        ap (at before) from ∙ (shaped i (tuple n) h).0 in
      let (nb, nc) = hdr-plain (at before (i + 0)) (suc n) hdr in
      ap (at s.new) (sym to)
      ∙ Copied-same ks s.old _ _ room nb nc (word-Copied i (tuple n) h m 0 (omega arith))
      ∙ hdr

  pub Copied-Sound : (t t' : Term) → Sound ks t → Copied ks s.old t t' → Sound s.layout t'
  Copied-Sound t t' (plain p) (kept _ _ e) = plain (rw e p)
  Copied-Sound t t' (empty z) (kept _ _ e) = empty (e ∙ z)
  Copied-Sound t t' (boxed off n h e') (kept nb _ e) =
      let trip = pointer_round_trip off (omega (arith, At-inside ks 0 off (tuple n) h)) in
      cc (sym nb ∙ ap is_boxed e' ∙ trip.1)
  Copied-Sound t t' (pair off h e') (kept _ nc e) =
      let trip = pointer_round_trip off (omega (arith, At-inside ks 0 off cell h)) in
      cc (sym nc ∙ ap is_cons e' ∙ trip.5)
  Copied-Sound t t' sound (to_tuple off n h e m e') =
      boxed (at s.old (off + 1)) n (v.placed off (tuple n) h m) e'
  Copied-Sound t t' sound (to_pair off h e m e') =
      pair (at s.old (off + 1)) (v.placed off cell h m) e'

  word-Sound :
      (i : ℕ) (k : Kind) (x : ℕ)
      → Shaped ks before i k
      → 0 < x ⊎ (k ≡ cell)
      → x < size k
      → Sound ks (at before (i + x))
  word-Sound i (tuple n) x s' (inl pos) lt = s'.1 x pos lt
  word-Sound i (tuple n) x s' (inr e) lt = cc
  word-Sound i cell x s' _ lt = s' x lt

  object-Shaped :
      (i : ℕ) (k : Kind) → At ks 0 i k → Moved s.old i → Shaped s.layout s.new (at s.old (i + 1)) k
  object-Shaped i (tuple n) h m = (
    header_copied i n h m,
    λ x pos lt.
        Copied-Sound _ _ (word-Sound i (tuple n) x (shaped i (tuple n) h) (inl pos) lt)
          (word-Copied i (tuple n) h m x lt),
  )
  object-Shaped i cell h m = λ x lt.
      Copied-Sound _ _ (word-Sound i cell x (shaped i cell h) (inr refl) lt)
        (word-Copied i cell h m x lt)

  pub final-Shaped : (off : ℕ) (k : Kind) → At s.layout 0 off k → Shaped s.layout s.new off k
  final-Shaped off k h =
      let (i, h', m, e) = v.origin off k h in
      subst (λ n. Shaped s.layout s.new n k) e (object-Shaped i k h' m)

  pub AllCopied-Sound :
      (ts ts' : List Term)
      → All (Sound ks) ts
      → AllCopied ks s.old ts ts'
      → All (Sound s.layout) ts'
  AllCopied-Sound [] [] sound c = tt
  AllCopied-Sound (t ∷ ts) (t' ∷ ts') sound c =
      (Copied-Sound t t' sound.0 c.0, AllCopied-Sound ts ts' sound.1 c.1)
  AllCopied-Sound [] (t' ∷ ts') sound c = absurd c
  AllCopied-Sound (t ∷ ts) [] sound c = absurd c
