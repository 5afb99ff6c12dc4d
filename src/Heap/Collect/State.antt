-- ===== src/Heap/Collect/State.antt =====
-- The two arrays of a heap while the collector of src/mb_heap.c (erts/example/mini_beam_esp32) runs.
use os_ii.Prelude.{
  ℕ, zero, suc, ◌+◌, ◌≤◌, ◌<◌, ◌≡◌, ◌≢◌, refl, ◌∙◌, arith, Bool, if◌then◌else◌, List, length, set,
  length-set, get_or-set_self, get_or-set_ne,
}
use os_ii.Term.{Term, moved_marker}
use os_ii.Heap.{Heap, Space, space_a, space_b}
use os_ii.Heap.Objects.{Kind, at}

-- `new` is the array that `from` points at, `old` the one it pointed at before. `layout` are the
-- objects in `new`, which the code does not keep.
pub record State : Type 0 where
  pub new : List Term
  pub old : List Term
  pub hp : ℕ
  pub layout : List Kind

-- The heap, by whether `new` is the first array.
abbrev pub heap_of : Bool → ℕ → ℕ → State → Heap
heap_of b capacity gc_count s = record {
  space_a = if b then s.new else s.old;
  space_b = if b then s.old else s.new;
  from = if b then space_a else space_b;
  to = if b then space_b else space_a;
  hp = s.hp;
  capacity = capacity;
  gc_count = gc_count;
}

abbrev pub old_of : Bool → Space
old_of b = if b then space_b else space_a

-- `memcpy` of `n` words.
abbrev pub blit : ℕ → List Term → ℕ → List Term → ℕ → List Term
blit zero old src new dst = new
blit (suc n) old src new dst = blit n old (src + 1) (set new dst (at old src)) (dst + 1)

pub length-blit :
    (n : ℕ) (old : List Term) (src : ℕ) (new : List Term) (dst : ℕ)
    → length (blit n old src new dst) ≡ length new
length-blit zero old src new dst = refl
length-blit (suc n) old src new dst =
    length-blit n old (src + 1) (set new dst (at old src)) (dst + 1)
    ∙ length-set new dst (at old src)

pub blit_below :
    (n : ℕ) (old : List Term) (src : ℕ) (new : List Term) (dst j : ℕ)
    → j < dst
    → at (blit n old src new dst) j ≡ at new j
blit_below zero old src new dst j lt = refl
blit_below (suc n) old src new dst j lt =
    blit_below n old (src + 1) (set new dst (at old src)) (dst + 1) j (omega arith)
    ∙ get_or-set_ne new dst j (at old src) 0 (λ e. absurd (omega arith))

pub blit_at :
    (n : ℕ) (old : List Term) (src : ℕ) (new : List Term) (dst x : ℕ)
    → x < n
    → dst + n ≤ length new
    → at (blit n old src new dst) (dst + x) ≡ at old (src + x)
blit_at zero old src new dst x lt room = absurd (omega arith)
blit_at (suc n) old src new dst zero lt room =
    let d : dst + 0 ≡ dst = omega arith in
    let e : src + 0 ≡ src = omega arith in
    rw (d, e)
      (blit_below n old (src + 1) (set new dst (at old src)) (dst + 1) dst (omega arith)
        ∙ get_or-set_self new dst (at old src) 0 (omega arith))
blit_at (suc n) old src new dst (suc x) lt room =
    let d : dst + suc x ≡ dst + 1 + x = omega arith in
    let e : src + suc x ≡ src + 1 + x = omega arith in
    rw (d, e)
      (blit_at n old (src + 1) (set new dst (at old src)) (dst + 1) x (omega arith)
        (omega (arith, length-set new dst (at old src))))

-- `old` with the forwarding pointer `n` in place of the object at `i`.
abbrev pub forward : List Term → ℕ → ℕ → List Term
forward old i n = set (set old i moved_marker) (i + 1) n

pub length-forward : (old : List Term) (i n : ℕ) → length (forward old i n) ≡ length old
length-forward old i n =
    length-set (set old i moved_marker) (i + 1) n ∙ length-set old i moved_marker

pub forward_marker :
    (old : List Term) (i n : ℕ) → i < length old → at (forward old i n) i ≡ moved_marker
forward_marker old i n lt =
    get_or-set_ne (set old i moved_marker) (i + 1) i n 0 (λ e. absurd (omega arith))
    ∙ get_or-set_self old i moved_marker 0 lt

pub forward_offset :
    (old : List Term) (i n : ℕ) → i + 1 < length old → at (forward old i n) (i + 1) ≡ n
forward_offset old i n lt =
    get_or-set_self (set old i moved_marker) (i + 1) n 0
      (omega (arith, length-set old i moved_marker))

pub forward_other :
    (old : List Term) (i n j : ℕ) → i ≢ j → i + 1 ≢ j → at (forward old i n) j ≡ at old j
forward_other old i n j ne ne' =
    get_or-set_ne (set old i moved_marker) (i + 1) j n 0 ne'
    ∙ get_or-set_ne old i j moved_marker 0 ne

-- The object at `i`, of `size` words, is copied behind the others.
abbrev pub move : State → ℕ → ℕ → List Kind → State
move s i size layout = record {
  new = blit size s.old i s.new s.hp;
  old = forward s.old i s.hp;
  hp = s.hp + size;
  layout = layout;
}
