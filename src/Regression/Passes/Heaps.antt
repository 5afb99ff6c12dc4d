-- ===== src/Regression/Passes/Heaps.antt =====
-- The tests of the heap in src/main_regression_host.c (erts/example/mini_beam_esp32)
-- pass.
use os_ii.Prelude.{◌≡◌, refl}
use os_ii.Run.{done}
use os_ii.Regression.Check.{
  i32le, check_int, check_num, check_rc, check_bool, state_code, check_state, proc_at, reg_of,
  run_until_idle,
}
use os_ii.Regression.Heaps.{
  gc_one, test_heap_alloc_basic, test_heap_make_tuple, test_heap_cons, test_gc_survives_live_data,
  test_gc_reclaims_dead_data, test_gc_nested_structures,
}
use os_ii.Term.{
  tag, is_smallint, is_atom, is_pid, is_boxed, is_cons, is_immediate, make_smallint, get_smallint,
  make_atom, get_atom, make_pid, get_pid, make_boxed, get_boxed, make_cons, get_cons,
  make_tuple_hdr, get_tuple_arity, is_tuple_hdr, is_moved,
}
use os_ii.Heap.{read, write, init as heap_init, alloc, write_elems, make_tuple, cons}
use os_ii.Heap.Gc.{
  copy_words, move_object, copy_boxed, copy_cons, copy_term, copy_roots, scan_word, scan_words,
  scan_loop, gc,
}

pub test_heap_alloc_basic_lem : test_heap_alloc_basic ≡ 0
unfolding test_heap_alloc_basic i32le check_int check_num check_rc check_bool state_code check_state
    proc_at reg_of run_until_idle gc_one tag is_smallint is_atom is_pid is_boxed is_cons
    is_immediate make_smallint get_smallint make_atom get_atom make_pid get_pid make_boxed get_boxed
    make_cons get_cons make_tuple_hdr get_tuple_arity is_tuple_hdr is_moved read write heap_init
    alloc write_elems make_tuple cons copy_words move_object copy_boxed copy_cons copy_term
    copy_roots scan_word scan_words scan_loop gc
test_heap_alloc_basic_lem = refl

pub test_heap_make_tuple_lem : test_heap_make_tuple ≡ done 0
unfolding test_heap_make_tuple i32le check_int check_num check_rc check_bool state_code check_state
    proc_at reg_of run_until_idle gc_one tag is_smallint is_atom is_pid is_boxed is_cons
    is_immediate make_smallint get_smallint make_atom get_atom make_pid get_pid make_boxed get_boxed
    make_cons get_cons make_tuple_hdr get_tuple_arity is_tuple_hdr is_moved read write heap_init
    alloc write_elems make_tuple cons copy_words move_object copy_boxed copy_cons copy_term
    copy_roots scan_word scan_words scan_loop gc
test_heap_make_tuple_lem = refl

pub test_heap_cons_lem : test_heap_cons ≡ done 0
unfolding test_heap_cons i32le check_int check_num check_rc check_bool state_code check_state
    proc_at reg_of run_until_idle gc_one tag is_smallint is_atom is_pid is_boxed is_cons
    is_immediate make_smallint get_smallint make_atom get_atom make_pid get_pid make_boxed get_boxed
    make_cons get_cons make_tuple_hdr get_tuple_arity is_tuple_hdr is_moved read write heap_init
    alloc write_elems make_tuple cons copy_words move_object copy_boxed copy_cons copy_term
    copy_roots scan_word scan_words scan_loop gc
test_heap_cons_lem = refl

pub test_gc_survives_live_data_lem : test_gc_survives_live_data ≡ done 0
unfolding test_gc_survives_live_data i32le check_int check_num check_rc check_bool state_code
    check_state proc_at reg_of run_until_idle gc_one tag is_smallint is_atom is_pid is_boxed is_cons
    is_immediate make_smallint get_smallint make_atom get_atom make_pid get_pid make_boxed get_boxed
    make_cons get_cons make_tuple_hdr get_tuple_arity is_tuple_hdr is_moved read write heap_init
    alloc write_elems make_tuple cons copy_words move_object copy_boxed copy_cons copy_term
    copy_roots scan_word scan_words scan_loop gc
test_gc_survives_live_data_lem = refl

pub test_gc_reclaims_dead_data_lem : test_gc_reclaims_dead_data ≡ done 0
unfolding test_gc_reclaims_dead_data i32le check_int check_num check_rc check_bool state_code
    check_state proc_at reg_of run_until_idle gc_one tag is_smallint is_atom is_pid is_boxed is_cons
    is_immediate make_smallint get_smallint make_atom get_atom make_pid get_pid make_boxed get_boxed
    make_cons get_cons make_tuple_hdr get_tuple_arity is_tuple_hdr is_moved read write heap_init
    alloc write_elems make_tuple cons copy_words move_object copy_boxed copy_cons copy_term
    copy_roots scan_word scan_words scan_loop gc
test_gc_reclaims_dead_data_lem = refl

pub test_gc_nested_structures_lem : test_gc_nested_structures ≡ done 0
unfolding test_gc_nested_structures i32le check_int check_num check_rc check_bool state_code
    check_state proc_at reg_of run_until_idle gc_one tag is_smallint is_atom is_pid is_boxed is_cons
    is_immediate make_smallint get_smallint make_atom get_atom make_pid get_pid make_boxed get_boxed
    make_cons get_cons make_tuple_hdr get_tuple_arity is_tuple_hdr is_moved read write heap_init
    alloc write_elems make_tuple cons copy_words move_object copy_boxed copy_cons copy_term
    copy_roots scan_word scan_words scan_loop gc
test_gc_nested_structures_lem = refl
