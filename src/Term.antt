-- ===== src/Term.antt =====
-- erts/example/mini_beam_esp32/include/mb_term.h: tagged 32-bit terms. A term is a number below
-- 2 ^ 32; `t & 0xF` is `t % 16`, and `(x << 4) | tag` is `x * 16 + tag`, cut to 32 bits.
pub mod Bounds
mod Examples
use os_ii.Prelude.{
  ℕ, ◌+◌, ◌*◌, ◌/◌, ◌%◌, ◌==◌, Bool, ◌||◌, ℤ, pos, negsuc, u32_mod, to_u32, to_i32,
  shift_right_four,
}

abbrev pub Term : Type 0
Term = ℕ

abbrev pub tag_smallint : ℕ
tag_smallint = 0xF

abbrev pub tag_atom : ℕ
tag_atom = 0xB

abbrev pub tag_pid : ℕ
tag_pid = 0x3

abbrev pub tag_boxed : ℕ
tag_boxed = 0x2

abbrev pub tag_cons : ℕ
tag_cons = 0x1

unfoldable pub tag : Term → ℕ
tag t = t % 16

unfoldable pub is_smallint : Term → Bool
unfolding tag
is_smallint t = tag t == tag_smallint

unfoldable pub is_atom : Term → Bool
unfolding tag
is_atom t = tag t == tag_atom

unfoldable pub is_pid : Term → Bool
unfolding tag
is_pid t = tag t == tag_pid

unfoldable pub is_boxed : Term → Bool
unfolding tag
is_boxed t = tag t == tag_boxed

unfoldable pub is_cons : Term → Bool
unfolding tag
is_cons t = tag t == tag_cons

unfoldable pub is_immediate : Term → Bool
unfolding is_smallint is_atom is_pid
is_immediate t = is_smallint t || is_atom t || is_pid t

abbrev pub smallint_min : ℤ
smallint_min = negsuc 134217727

abbrev pub smallint_max : ℤ
smallint_max = pos 134217727

-- `(int32_t)(v) << 4` keeps the low 32 bits.
unfoldable pub make_smallint : ℤ → Term
make_smallint v = to_u32 v * 16 % u32_mod + tag_smallint

unfoldable pub get_smallint : Term → ℤ
get_smallint t = shift_right_four (to_i32 t)

unfoldable pub make_atom : ℕ → Term
make_atom idx = idx * 16 % u32_mod + tag_atom

unfoldable pub get_atom : Term → ℕ
get_atom t = t / 16

unfoldable pub make_pid : ℕ → Term
make_pid p = p * 16 % u32_mod + tag_pid

unfoldable pub get_pid : Term → ℕ
get_pid t = t / 16

unfoldable pub make_boxed : ℕ → Term
make_boxed off = off * 16 % u32_mod + tag_boxed

unfoldable pub get_boxed : Term → ℕ
get_boxed t = t / 16

unfoldable pub make_cons : ℕ → Term
make_cons off = off * 16 % u32_mod + tag_cons

unfoldable pub get_cons : Term → ℕ
get_cons t = t / 16

-- The first word of a tuple on the heap.
unfoldable pub make_tuple_hdr : ℕ → ℕ
make_tuple_hdr arity = arity * 64 % u32_mod

unfoldable pub get_tuple_arity : ℕ → ℕ
get_tuple_arity hdr = hdr / 64

unfoldable pub is_tuple_hdr : ℕ → Bool
is_tuple_hdr w = (w % 64) == 0

abbrev pub max_tuple_arity : ℕ
max_tuple_arity = 16

-- The word that the collector leaves in place of an object that it has copied.
abbrev pub moved_marker : ℕ
moved_marker = 0xDEAD_0002

unfoldable pub is_moved : ℕ → Bool
is_moved w = w == moved_marker
