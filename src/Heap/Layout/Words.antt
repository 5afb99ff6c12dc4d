-- ===== src/Heap/Layout/Words.antt =====
-- The writes of src/mb_heap.c (erts/example/mini_beam_esp32) as writes of an array.
use os_ii.Prelude.{
  ℕ, zero, suc, ◌+◌, ◌≤◌, ◌<◌, ◌≡◌, ◌≢◌, refl, sym, ◌∙◌, ap, arith, lt→ltb, List, [], ◌∷◌, length,
  get_elem?, set, length-set, get_elem?-set_self, get_elem?-set_ne,
}
use os_ii.Run.{Run, done, fault, ◌>>=◌}
use os_ii.Term.{Term}
use os_ii.Heap.{Heap, Space, null, space_a, space_b, words, with_words, write, write_elems}

pub bind_assoc :
    {A B C : Type 0} (r : Run A) (f : A → Run B) (g : B → Run C)
    → (r >>= λ a. f a >>= g) ≡ (r >>= f >>= g)
bind_assoc (done a) f g = refl
bind_assoc fault f g = refl
bind_assoc Run.out_of_fuel f g = refl

pub bind_done : {A : Type 0} (r : Run A) → (r >>= λ a. done a) ≡ r
bind_done (done a) = refl
bind_done fault = refl
bind_done Run.out_of_fuel = refl

pub write_twice :
    {A B C : Type 0} (r : Run A) (f : A → Run B) (g : B → Run C)
    → (r >>= λ a. f a >>= g) ≡ (r >>= λ a. f a >>= λ b. done b) >>= g
write_twice (done a) f g = ap (λ x. x >>= g) (sym (bind_done (f a)))
write_twice fault f g = refl
write_twice Run.out_of_fuel f g = refl

-- An array with the words `xs` written from `off` on.
abbrev pub set_all : List Term → ℕ → List Term → List Term
set_all ws off [] = ws
set_all ws off (x ∷ xs) = set_all (set ws off x) (off + 1) xs

pub length-set_all :
    (ws : List Term) (off : ℕ) (xs : List Term) → length (set_all ws off xs) ≡ length ws
length-set_all ws off [] = refl
length-set_all ws off (x ∷ xs) = length-set_all (set ws off x) (off + 1) xs ∙ length-set ws off x

-- The words below are left alone.
pub set_all_below :
    (ws : List Term) (off : ℕ) (xs : List Term) (i : ℕ)
    → i < off
    → get_elem? (set_all ws off xs) i ≡ get_elem? ws i
set_all_below ws off [] i lt = refl
set_all_below ws off (x ∷ xs) i lt =
    set_all_below (set ws off x) (off + 1) xs i (omega arith)
    ∙ get_elem?-set_ne ws off i x (λ e. absurd (omega arith))

-- The words that are written are there.
pub set_all_at :
    (ws : List Term) (off : ℕ) (xs : List Term) (i : ℕ)
    → i < length xs
    → off + length xs ≤ length ws
    → get_elem? (set_all ws off xs) (off + i) ≡ get_elem? xs i
set_all_at ws off [] i lt room = absurd (omega arith)
set_all_at ws off (x ∷ xs) zero lt room =
    let here : off + 0 ≡ off = omega arith in
    rw here (
      set_all_below (set ws off x) (off + 1) xs off (omega arith)
      ∙ get_elem?-set_self ws off x (omega arith))
set_all_at ws off (x ∷ xs) (suc i) lt room =
    let there : off + suc i ≡ off + 1 + i = omega arith in
    rw there
      (set_all_at (set ws off x) (off + 1) xs i (omega arith) (omega (arith, length-set ws off x)))

pub words-with_words :
    (heap : Heap) (p : Space) (ws : List Term) → p ≢ null → words (with_words heap p ws) p ≡ ws
words-with_words heap null ws ne = absurd (ne refl)
words-with_words heap space_a ws ne = refl
words-with_words heap space_b ws ne = refl

pub with_words_twice :
    (heap : Heap) (p : Space) (ws ws' : List Term)
    → with_words (with_words heap p ws) p ws' ≡ with_words heap p ws'
with_words_twice heap null ws ws' = refl
with_words_twice heap space_a ws ws' = refl
with_words_twice heap space_b ws ws' = refl

pub with_words_same : (heap : Heap) (p : Space) → with_words heap p (words heap p) ≡ heap
with_words_same heap null = refl
with_words_same heap space_a = refl
with_words_same heap space_b = refl

-- The registers of the allocator are not the array.
pub with_words_registers :
    (heap : Heap) (p : Space) (ws : List Term)
    → let h = with_words heap p ws in
      (h.from ≡ heap.from) × (h.hp ≡ heap.hp) × (h.to ≡ heap.to) × (h.capacity ≡ heap.capacity)
with_words_registers heap null ws = (refl, refl, refl, refl)
with_words_registers heap space_a ws = (refl, refl, refl, refl)
with_words_registers heap space_b ws = (refl, refl, refl, refl)

pub with_words_sizes :
    (heap : Heap) (p : Space) (ws : List Term)
    → length ws ≡ length (words heap p)
    → let h = with_words heap p ws in
      (length h.space_a ≡ length heap.space_a) × (length h.space_b ≡ length heap.space_b)
with_words_sizes heap null ws e = (refl, refl)
with_words_sizes heap space_a ws e = (e, refl)
with_words_sizes heap space_b ws e = (refl, e)

pub write_lem :
    (heap : Heap) (p : Space) (off : ℕ) (w : Term)
    → off < length (words heap p)
    → write heap p off w ≡ done (with_words heap p (set (words heap p) off w))
unfolding write
write_lem heap p off w lt = rw (lt→ltb off (length (words heap p)) lt) refl

pub write_elems_lem :
    (heap : Heap) (p : Space) (off : ℕ) (xs : List Term)
    → heap.from ≡ p
    → p ≢ null
    → off + length xs ≤ length (words heap p)
    → write_elems heap off xs ≡ done (with_words heap p (set_all (words heap p) off xs))
unfolding write_elems
write_elems_lem heap p off [] e ne room = ap done (sym (with_words_same heap p))
write_elems_lem heap p off (x ∷ xs) e ne room =
    let ws = words heap p in
    let h1 = with_words heap p (set ws off x) in
    let e1 : h1.from ≡ p = (with_words_registers heap p (set ws off x)).0 ∙ e in
    let w1 : words h1 p ≡ set ws off x = words-with_words heap p (set ws off x) ne in
    let first : write heap heap.from off x ≡ done h1 =
      ap (λ q. write heap q off x) e ∙ write_lem heap p off x (omega arith) in
    let rest =
      write_elems_lem h1 p (off + 1) xs e1 ne
        (omega (arith, ap (λ (l : List Term). length l) w1, length-set ws off x)) in
    ap (λ r. r >>= λ h. write_elems h (off + 1) xs) first
    ∙ rest
    ∙ ap (λ l. done (with_words h1 p (set_all l (off + 1) xs))) w1
    ∙ ap done (with_words_twice heap p (set ws off x) (set_all (set ws off x) (off + 1) xs))
