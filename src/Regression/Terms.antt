-- ===== src/Regression/Terms.antt =====
-- The tests of the tags of terms in src/main_regression_host.c (erts/example/mini_beam_esp32).
use os_ii.Prelude.{ℕ, ◌+◌, true, false, List, [], ◌∷◌, ℤ, pos, negsuc}
use os_ii.Term.{
  make_smallint, get_smallint, is_smallint, is_atom, is_pid, is_boxed, is_cons, smallint_min,
  smallint_max, make_atom, get_atom, make_pid, get_pid, make_boxed, get_boxed, make_cons, get_cons,
  make_tuple_hdr, is_tuple_hdr, get_tuple_arity,
}
use os_ii.Regression.Check.{check_int, check_num, check_bool}

-- One round of the loop over the values.
unfoldable pub check_smallint : ℤ → ℕ
check_smallint v =
    let t = make_smallint v in
    check_bool true (is_smallint t)
    + check_bool false (is_atom t)
    + check_bool false (is_pid t)
    + check_bool false (is_boxed t)
    + check_bool false (is_cons t)
    + check_int v (get_smallint t)

unfoldable pub check_smallints : List ℤ → ℕ
check_smallints [] = 0
check_smallints (v ∷ vs) = check_smallint v + check_smallints vs

unfoldable pub test_smallint_roundtrip : ℕ
test_smallint_roundtrip = check_smallints (
    pos 0
    ∷ pos 1
    ∷ negsuc 0
    ∷ pos 42
    ∷ negsuc 41
    ∷ pos 127
    ∷ negsuc 127
    ∷ pos 100000
    ∷ negsuc 99999
    ∷ smallint_max
    ∷ smallint_min
    ∷ [])

-- `MB_NIL`, `MB_TRUE` and `MB_FALSE` are the atoms 0, 1 and 2.
unfoldable pub test_atom_roundtrip : ℕ
test_atom_roundtrip =
    check_bool true (is_atom (make_atom 0))
    + check_num 0 (get_atom (make_atom 0))
    + check_bool true (is_atom (make_atom 1))
    + check_num 1 (get_atom (make_atom 1))
    + check_bool true (is_atom (make_atom 2))
    + check_num 2 (get_atom (make_atom 2))
    + check_num 999 (get_atom (make_atom 999))
    + check_bool false (is_smallint (make_atom 999))

unfoldable pub test_pid_roundtrip : ℕ
test_pid_roundtrip =
    let t = make_pid 5 in
    check_bool true (is_pid t)
    + check_num 5 (get_pid t)
    + check_bool false (is_smallint t)
    + check_bool false (is_atom t)

unfoldable pub test_boxed_cons_roundtrip : ℕ
test_boxed_cons_roundtrip =
    let b = make_boxed 10 in
    let c = make_cons 20 in
    check_bool true (is_boxed b)
    + check_num 10 (get_boxed b)
    + check_bool true (is_cons c)
    + check_num 20 (get_cons c)
    + check_bool false (is_cons b)
    + check_bool false (is_boxed c)

unfoldable pub test_tuple_header : ℕ
test_tuple_header =
    let h = make_tuple_hdr 3 in check_bool true (is_tuple_hdr h) + check_num 3 (get_tuple_arity h)
