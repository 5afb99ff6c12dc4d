-- ===== src/Opcode.antt =====
-- `mb_opcode_t` of erts/example/mini_beam_esp32/include/mb_vm.h.
use os_ii.Prelude.{ℕ}

abbrev pub nop : ℕ
nop = 0x00

abbrev pub const_i32 : ℕ
const_i32 = 0x01

abbrev pub move : ℕ
move = 0x02

abbrev pub add : ℕ
add = 0x03

abbrev pub sub : ℕ
sub = 0x04

abbrev pub call_bif : ℕ
call_bif = 0x10

abbrev pub recv_cmd : ℕ
recv_cmd = 0x20

abbrev pub send : ℕ
send = 0x21

abbrev pub self : ℕ
self = 0x22

abbrev pub yield : ℕ
yield = 0x23

abbrev pub jmp : ℕ
jmp = 0x30

abbrev pub jmp_if_zero : ℕ
jmp_if_zero = 0x31

abbrev pub sleep_ms : ℕ
sleep_ms = 0x40

abbrev pub make_tuple : ℕ
make_tuple = 0x50

abbrev pub tuple_elem : ℕ
tuple_elem = 0x51

abbrev pub cons : ℕ
cons = 0x52

abbrev pub head : ℕ
head = 0x53

abbrev pub tail : ℕ
tail = 0x54

abbrev pub halt : ℕ
halt = 0xFF
