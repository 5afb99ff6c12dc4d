-- ===== src/Regression/Passes/Terms.antt =====
-- The tests of the terms in src/main_regression_host.c (erts/example/mini_beam_esp32)
-- pass.
use os_ii.Prelude.{◌≡◌, refl}
use os_ii.Regression.Check.{
  i32le, check_int, check_num, check_rc, check_bool, state_code, check_state, proc_at, reg_of,
  run_until_idle,
}
use os_ii.Regression.Terms.{
  check_smallint, check_smallints, test_smallint_roundtrip, test_atom_roundtrip, test_pid_roundtrip,
  test_boxed_cons_roundtrip, test_tuple_header,
}
use os_ii.Term.{
  tag, is_smallint, is_atom, is_pid, is_boxed, is_cons, is_immediate, make_smallint, get_smallint,
  make_atom, get_atom, make_pid, get_pid, make_boxed, get_boxed, make_cons, get_cons,
  make_tuple_hdr, get_tuple_arity, is_tuple_hdr, is_moved,
}

pub test_smallint_roundtrip_lem : test_smallint_roundtrip ≡ 0
unfolding test_smallint_roundtrip i32le check_int check_num check_rc check_bool state_code
    check_state proc_at reg_of run_until_idle check_smallint check_smallints tag is_smallint is_atom
    is_pid is_boxed is_cons is_immediate make_smallint get_smallint make_atom get_atom make_pid
    get_pid make_boxed get_boxed make_cons get_cons make_tuple_hdr get_tuple_arity is_tuple_hdr
    is_moved
test_smallint_roundtrip_lem = refl

pub test_atom_roundtrip_lem : test_atom_roundtrip ≡ 0
unfolding test_atom_roundtrip i32le check_int check_num check_rc check_bool state_code check_state
    proc_at reg_of run_until_idle check_smallint check_smallints tag is_smallint is_atom is_pid
    is_boxed is_cons is_immediate make_smallint get_smallint make_atom get_atom make_pid get_pid
    make_boxed get_boxed make_cons get_cons make_tuple_hdr get_tuple_arity is_tuple_hdr is_moved
test_atom_roundtrip_lem = refl

pub test_pid_roundtrip_lem : test_pid_roundtrip ≡ 0
unfolding test_pid_roundtrip i32le check_int check_num check_rc check_bool state_code check_state
    proc_at reg_of run_until_idle check_smallint check_smallints tag is_smallint is_atom is_pid
    is_boxed is_cons is_immediate make_smallint get_smallint make_atom get_atom make_pid get_pid
    make_boxed get_boxed make_cons get_cons make_tuple_hdr get_tuple_arity is_tuple_hdr is_moved
test_pid_roundtrip_lem = refl

pub test_boxed_cons_roundtrip_lem : test_boxed_cons_roundtrip ≡ 0
unfolding test_boxed_cons_roundtrip i32le check_int check_num check_rc check_bool state_code
    check_state proc_at reg_of run_until_idle check_smallint check_smallints tag is_smallint is_atom
    is_pid is_boxed is_cons is_immediate make_smallint get_smallint make_atom get_atom make_pid
    get_pid make_boxed get_boxed make_cons get_cons make_tuple_hdr get_tuple_arity is_tuple_hdr
    is_moved
test_boxed_cons_roundtrip_lem = refl

pub test_tuple_header_lem : test_tuple_header ≡ 0
unfolding test_tuple_header i32le check_int check_num check_rc check_bool state_code check_state
    proc_at reg_of run_until_idle check_smallint check_smallints tag is_smallint is_atom is_pid
    is_boxed is_cons is_immediate make_smallint get_smallint make_atom get_atom make_pid get_pid
    make_boxed get_boxed make_cons get_cons make_tuple_hdr get_tuple_arity is_tuple_hdr is_moved
test_tuple_header_lem = refl
