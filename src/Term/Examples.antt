-- ===== src/Term/Examples.antt =====
-- The theorems on terms at concrete words.
use os_ii.Prelude.{◌%◌, ◌^◌, ◌<◌, ◌≡◌, refl, arith, true, false, pos, negsuc, ◌≤ℤ◌, u32_mod, to_u32}
use os_ii.Term.{
  smallint_min, smallint_max, is_smallint, is_boxed, is_cons, is_immediate, make_smallint,
  get_smallint, make_boxed, get_boxed, make_cons, get_cons,
}
use os_ii.Term.Bounds.{get_smallint-make_smallint, make_smallint_wraps, pointer_round_trip}

smallint_wraps_at_max : get_smallint (make_smallint (pos 134217728)) ≡ negsuc 134217727
unfolding get_smallint make_smallint
smallint_wraps_at_max = refl

get_smallint-make_smallint_example : get_smallint (make_smallint (negsuc 41)) ≡ negsuc 41
get_smallint-make_smallint_example =
    get_smallint-make_smallint (negsuc 41) (omega arith) (omega arith)

make_smallint_wraps_example :
    (make_smallint (pos 134217728) < u32_mod)
    × (is_smallint (make_smallint (pos 134217728)) ≡ true)
    × (smallint_min ≤ℤ get_smallint (make_smallint (pos 134217728)))
    × (get_smallint (make_smallint (pos 134217728)) ≤ℤ smallint_max)
    × (to_u32 (get_smallint (make_smallint (pos 134217728))) % 2 ^ 28
        ≡ to_u32 (pos 134217728) % 2 ^ 28)
make_smallint_wraps_example = make_smallint_wraps (pos 134217728)

pointer_round_trip_example :
    (get_boxed (make_boxed 255) ≡ 255)
    × (is_boxed (make_boxed 255) ≡ true)
    × (is_cons (make_boxed 255) ≡ false)
    × (is_immediate (make_boxed 255) ≡ false)
    × (get_cons (make_cons 255) ≡ 255)
    × (is_cons (make_cons 255) ≡ true)
    × (is_boxed (make_cons 255) ≡ false)
    × (is_immediate (make_cons 255) ≡ false)
pointer_round_trip_example = pointer_round_trip 255 (omega arith)
