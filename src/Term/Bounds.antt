-- ===== src/Term/Bounds.antt =====
-- The encodings of mb_term.h: what they keep, where they wrap, and that the tags are apart.
use os_ii.Prelude.{ℕ, ◌%◌, ◌^◌, ◌<◌, ◌≡◌, arith, true, false, ℤ, pos, negsuc, ◌≤ℤ◌, u32_mod, to_u32}
use os_ii.Term.{
  smallint_min, smallint_max, tag, is_smallint, is_atom, is_pid, is_boxed, is_cons, is_immediate,
  make_smallint, get_smallint, make_atom, get_atom, make_pid, get_pid, make_boxed, get_boxed,
  make_cons, get_cons, make_tuple_hdr, get_tuple_arity, is_tuple_hdr,
}

-- An integer of the 28-bit range comes back from its encoding as a small integer.
pub get_smallint-make_smallint :
    (v : ℤ) → smallint_min ≤ℤ v → v ≤ℤ smallint_max → get_smallint (make_smallint v) ≡ v
unfolding get_smallint make_smallint
get_smallint-make_smallint (pos n) lo hi = ground arith
get_smallint-make_smallint (negsuc n) lo hi = ground arith

-- Whatever the integer, its encoding is a 32-bit word with the small integer's tag, and what is
-- read back is in the 28-bit range and differs from the integer by a multiple of 2 ^ 28.
pub make_smallint_wraps :
    (v : ℤ)
    → (make_smallint v < u32_mod)
      × (is_smallint (make_smallint v) ≡ true)
      × (smallint_min ≤ℤ get_smallint (make_smallint v))
      × (get_smallint (make_smallint v) ≤ℤ smallint_max)
      × (to_u32 (get_smallint (make_smallint v)) % 2 ^ 28 ≡ to_u32 v % 2 ^ 28)
unfolding get_smallint make_smallint is_smallint
make_smallint_wraps (pos n) = ground arith
make_smallint_wraps (negsuc n) = ground arith

-- A heap offset below 2 ^ 28 comes back from its encoding as a tuple or as a cons cell, and the two
-- encodings are told apart from one another and from the immediate terms by their tags.
pub pointer_round_trip :
    (off : ℕ)
    → off < 2 ^ 28
    → (get_boxed (make_boxed off) ≡ off)
      × (is_boxed (make_boxed off) ≡ true)
      × (is_cons (make_boxed off) ≡ false)
      × (is_immediate (make_boxed off) ≡ false)
      × (get_cons (make_cons off) ≡ off)
      × (is_cons (make_cons off) ≡ true)
      × (is_boxed (make_cons off) ≡ false)
      × (is_immediate (make_cons off) ≡ false)
unfolding get_boxed make_boxed is_boxed is_cons is_immediate get_cons make_cons
pointer_round_trip off h = ground arith

-- A pid and an atom index below 2 ^ 28 come back from their encodings, which are immediate terms.
immediate_round_trip :
    (n : ℕ)
    → n < 2 ^ 28
    → (get_pid (make_pid n) ≡ n)
      × (is_pid (make_pid n) ≡ true)
      × (is_immediate (make_pid n) ≡ true)
      × (get_atom (make_atom n) ≡ n)
      × (is_atom (make_atom n) ≡ true)
      × (is_immediate (make_atom n) ≡ true)
unfolding get_pid make_pid is_pid get_atom make_atom is_atom is_immediate
immediate_round_trip n h = ground arith

-- A tuple header has none of the terms' tags.
pub is_tuple_hdr-tag : (w : ℕ) → is_tuple_hdr w ≡ true → tag w ≡ 0
unfolding is_tuple_hdr tag
is_tuple_hdr-tag w h = ground arith

-- The arity below 2 ^ 26 of a tuple comes back from its header, which is recognised as one.
pub tuple_hdr_round_trip :
    (arity : ℕ)
    → arity < 2 ^ 26
    → (is_tuple_hdr (make_tuple_hdr arity) ≡ true)
      × (get_tuple_arity (make_tuple_hdr arity) ≡ arity)
unfolding is_tuple_hdr make_tuple_hdr get_tuple_arity
tuple_hdr_round_trip arity h = ground arith
