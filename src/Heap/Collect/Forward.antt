-- ===== src/Heap/Collect/Forward.antt =====
-- Terms of the old space of the collector of src/mb_heap.c (erts/example/mini_beam_esp32) and the
-- terms that they become.
use os_ii.Prelude.{
  ℕ, ◌+◌, ◌≤◌, ◌≡◌, ◌≢◌, inl, inr, refl, sym, ◌∙◌, ap, arith, false, ◌==◌, if◌then◌else◌, List, [],
  ◌∷◌, length,
}
use os_ii.Term.{
  Term, moved_marker, make_tuple_hdr, make_boxed, make_cons, is_boxed, is_cons, is_immediate,
}
use os_ii.Heap.{heap_words}
use os_ii.Heap.Objects.{
  Kind, tuple, cell, size, le-size, total, At, At-inside, at, Sound, plain, empty, boxed, pair,
  Shaped,
}
use os_ii.Heap.Collect.State.{forward, forward_marker, forward_other}

-- The object at `i` has been copied.
abbrev pub Moved : List Term → ℕ → Type 0
Moved old i = at old i ≡ moved_marker

-- `t'` is what `t` is copied to: the same word, or the pointer to where its object has gone.
pub data Copied (ks : List Kind) (old : List Term) (t t' : Term) : Type 0 where
  kept : is_boxed t ≡ false → is_cons t ≡ false → t' ≡ t → Copied ks old t t'
  to_tuple :
      (off n : ℕ)
      → At ks 0 off (tuple n)
      → t ≡ make_boxed off
      → Moved old off
      → t' ≡ make_boxed (at old (off + 1))
      → Copied ks old t t'
  to_pair :
      (off : ℕ)
      → At ks 0 off cell
      → t ≡ make_cons off
      → Moved old off
      → t' ≡ make_cons (at old (off + 1))
      → Copied ks old t t'

-- What has gone somewhere stays there.
abbrev pub Later : List Kind → List Term → List Term → Type 0
Later ks old old' =
    (i : ℕ) (k : Kind)
    → At ks 0 i k
    → Moved old i
    → Moved old' i × (at old' (i + 1) ≡ at old (i + 1))

pub Later-trans : (ks : List Kind) (a b c : List Term) → Later ks a b → Later ks b c → Later ks a c
Later-trans ks a b c f g i k h m =
    let (m', e) = f i k h m in let (m'', e') = g i k h m' in (m'', e' ∙ e)

pub Copied-Later :
    (ks : List Kind) (old old' : List Term) (t t' : Term)
    → Later ks old old'
    → Copied ks old t t'
    → Copied ks old' t t'
Copied-Later ks old old' t t' f (kept nb nc e) = kept nb nc e
Copied-Later ks old old' t t' f (to_tuple off n h e m e') =
    let (m', same) = f off (tuple n) h m in to_tuple off n h e m' (e' ∙ ap make_boxed (sym same))
Copied-Later ks old old' t t' f (to_pair off h e m e') =
    let (m', same) = f off cell h m in to_pair off h e m' (e' ∙ ap make_cons (sym same))

-- The same of one term after the other.
abbrev pub AllCopied : List Kind → List Term → List Term → List Term → Type 0
AllCopied ks old [] [] = Unit
AllCopied ks old (t ∷ ts) (t' ∷ ts') = Copied ks old t t' × AllCopied ks old ts ts'
AllCopied ks old [] (t' ∷ ts') = ⊥
AllCopied ks old (t ∷ ts) [] = ⊥

pub AllCopied-Later :
    (ks : List Kind) (old old' ts ts' : List Term)
    → Later ks old old'
    → AllCopied ks old ts ts'
    → AllCopied ks old' ts ts'
AllCopied-Later ks old old' [] [] f h = tt
AllCopied-Later ks old old' (t ∷ ts) (t' ∷ ts') f h =
    (Copied-Later ks old old' t t' f h.0, AllCopied-Later ks old old' ts ts' f h.1)
AllCopied-Later ks old old' [] (t' ∷ ts') f h = h
AllCopied-Later ks old old' (t ∷ ts) [] f h = h

-- The words of the objects from `base` on that have not been copied.
abbrev pub pending : List Kind → ℕ → List Term → ℕ
pending [] base old = 0
pending (k ∷ ks) base old =
    (if at old base == moved_marker then 0 else size k) + pending ks (base + size k) old

pub pending_same :
    (ks : List Kind) (base : ℕ) (old old' : List Term)
    → ((j : ℕ) → base ≤ j → at old' j ≡ at old j)
    → pending ks base old' ≡ pending ks base old
pending_same [] base old old' f = refl
pending_same (k ∷ ks) base old old' f =
    ap (λ (w : ℕ). (if w == moved_marker then 0 else size k) + pending ks (base + size k) old')
      (f base (omega arith))
    ∙ ap (λ (n : ℕ). (if at old base == moved_marker then 0 else size k) + n)
        (pending_same ks (base + size k) old old' (λ j le. f j (omega (arith, le-size k))))

-- A copied object is no longer waited for.
pub pending-forward :
    (ks : List Kind) (base i : ℕ) (k : Kind) (old : List Term) (n : ℕ)
    → At ks base i k
    → at old i ≢ moved_marker
    → base + total ks ≤ length old
    → pending ks base (forward old i n) + size k ≡ pending ks base old
pending-forward [] base i k old n h ne room = absurd h
pending-forward (k' ∷ ks) base i k old n (inl (e, same)) ne room =
    let two = le-size k' in
    let here : at (forward old i n) base ≡ moved_marker =
      ap (at (forward old i n)) (sym e) ∙ forward_marker old i n (omega arith) in
    let there : at old base ≢ moved_marker = λ m. ne (ap (at old) e ∙ m) in
    let rest =
      pending_same ks (base + size k') old (forward old i n)
        (λ j le. forward_other old i n j (λ x. absurd (omega arith)) (λ x. absurd (omega arith))) in
    ground (arith, here, there, rest, ap size same)
pending-forward (k' ∷ ks) base i k old n (inr h) ne room =
    let two = le-size k' in
    let (above, _) = At-inside ks (base + size k') i k h in
    let here = forward_other old i n base (λ x. absurd (omega arith)) (λ x. absurd (omega arith)) in
    let rest = pending-forward ks (base + size k') i k old n h ne (omega arith) in
    ground (arith, here, rest)

-- No word of a heap is the mark of a copied object.
pub Sound-ne-marker :
    (ks : List Kind) (t : Term) → total ks ≤ heap_words → Sound ks t → t ≢ moved_marker
unfolding is_immediate make_boxed make_cons
Sound-ne-marker ks t room (plain p) e = ground arith
Sound-ne-marker ks t room (empty z) e = omega arith
Sound-ne-marker ks t room (boxed off n h b) e =
    absurd (omega (arith, At-inside ks 0 off (tuple n) h))
Sound-ne-marker ks t room (pair off h b) e = absurd (omega (arith, At-inside ks 0 off cell h))

pub Shaped-unmoved :
    (ks : List Kind) (ws : List Term) (off : ℕ) (k : Kind)
    → total ks ≤ heap_words
    → Shaped ks ws off k
    → at ws off ≢ moved_marker
unfolding make_tuple_hdr
Shaped-unmoved ks ws off (tuple n) room s e = absurd (omega (arith, s.0))
Shaped-unmoved ks ws off cell room s e =
    let here : off + 0 ≡ off = omega arith in
    Sound-ne-marker ks (at ws (off + 0)) room (s 0 (omega arith)) (ap (at ws) here ∙ e)

-- Before the collection all words are waited for.
pub pending_all :
    (ks : List Kind) (base : ℕ) (old : List Term)
    → ((i : ℕ) (k : Kind) → At ks base i k → at old i ≢ moved_marker)
    → pending ks base old ≡ total ks
pending_all [] base old f = refl
pending_all (k ∷ ks) base old f = ground (
  arith,
  f base k (inl (refl, refl)),
  pending_all ks (base + size k) old (λ i l h. f i l (inr h)),
)
