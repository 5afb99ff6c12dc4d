-- ===== src/Heap/Paths.antt =====
-- What a program can see of a term of include/mb_heap.h (erts/example/mini_beam_esp32): what it is,
-- and its elements, and theirs.
use os_ii.Prelude.{
  ℕ, ◌+◌, ◌<◌, ◌^◌, ◌≡◌, refl, ltb, false, if◌then◌else◌, List, [], ◌∷◌, Option, none, some,
}
use os_ii.Term.{
  Term, make_boxed, make_cons, make_tuple_hdr, is_boxed, is_cons, get_boxed, get_cons,
  get_tuple_arity,
}
use os_ii.Term.Bounds.{pointer_round_trip, tuple_hdr_round_trip}
use os_ii.Heap.Objects.{at}

-- A term without its place on the heap.
pub data Seen : Type 0 where
  word : Term → Seen
  tuple_of : ℕ → Seen
  list_cell : Seen

unfoldable pub look : List Term → Term → Seen
look ws t =
    if is_boxed t
    then tuple_of (get_tuple_arity (at ws (get_boxed t)))
    else if is_cons t
    then list_cell
    else word t

-- The element `i` of a tuple, or the head and the tail of a cell.
unfoldable pub child : List Term → Term → ℕ → Option Term
child ws t i =
    if is_boxed t
    then if ltb i (get_tuple_arity (at ws (get_boxed t)))
      then some (at ws (get_boxed t + (1 + i)))
      else none
    else if is_cons t
    then if ltb i 2 then some (at ws (get_cons t + i)) else none
    else none

-- What stands at the end of a path, if it leads somewhere.
unfoldable pub follow : List Term → Term → List ℕ → Option Seen
follow ws t [] = some (look ws t)
follow ws t (i ∷ path) = elim (child ws t i) [ none ↦ none | some u ↦ follow ws u path ]

pub look_word :
    (ws : List Term) (t : Term) → is_boxed t ≡ false → is_cons t ≡ false → look ws t ≡ word t
unfolding look
look_word ws t nb nc = rw (nb, nc)

pub child_word :
    (ws : List Term) (t : Term) (i : ℕ)
    → is_boxed t ≡ false
    → is_cons t ≡ false
    → child ws t i ≡ none
unfolding child
child_word ws t i nb nc = rw (nb, nc)

module _ (ws : List Term) (off n : ℕ) (low : off < 2 ^ 28) (few : n < 2 ^ 26)
    (header : at ws off ≡ make_tuple_hdr n) where
  pub look_tuple : look ws (make_boxed off) ≡ tuple_of n
  unfolding look
  look_tuple =
      let trip = pointer_round_trip off low in
      rw (trip.1) (rw (trip.0) (rw header (rw ((tuple_hdr_round_trip n few).1) refl)))

  pub child_tuple :
      (i : ℕ)
      → child ws (make_boxed off) i ≡ (if ltb i n then some (at ws (off + (1 + i))) else none)
  unfolding child
  child_tuple i =
      let trip = pointer_round_trip off low in
      rw (trip.1) (rw (trip.0) (rw header (rw ((tuple_hdr_round_trip n few).1) refl)))

module _ (ws : List Term) (off : ℕ) (low : off < 2 ^ 28) where
  pub look_cell : look ws (make_cons off) ≡ list_cell
  unfolding look
  look_cell = let trip = pointer_round_trip off low in rw (trip.6) (rw (trip.5) refl)

  pub child_cell :
      (i : ℕ) → child ws (make_cons off) i ≡ (if ltb i 2 then some (at ws (off + i)) else none)
  unfolding child
  child_cell i =
      let trip = pointer_round_trip off low in rw (trip.6) (rw (trip.5) (rw (trip.4) refl))
