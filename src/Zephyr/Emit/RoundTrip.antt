-- ===== src/Zephyr/Emit/RoundTrip.antt =====
-- What the emitter of zephyr_app/src/main.c writes, the interpreter of src/mb_vm.c reads back
-- (both under erts/example/mini_beam_esp32).
use os_ii.Prelude.{
  ℕ, ◌+◌, ◌-◌, ◌^◌, ◌/◌, ◌%◌, ◌<◌, ◌≤◌, ◌≡◌, refl, ◌≢◌, arith, ap, ◌∙◌, List, length, set,
  get_elem?, get_elem?-set_self, get_elem?-set_ne, some, ℤ, pos, negsuc, ◌-ℤ◌, ◌≤ℤ◌, to_u32,
}
use os_ii.Run
use os_ii.Run.{Run, done}
use os_ii.Process.{Process}
use os_ii.Machine.{
  Machine, Cmd, next, ◌>>=◌, get_proc, put_proc, i32_of_bytes, fetch_u8, or_eof, need_u8, need_i32,
}
use os_ii.Vm.Ops.{jump, op_jmp}
use os_ii.Zephyr.Emit.{Code, store, store_i32, emit_i32, patch_rel_i32}

-- `v` is an `int32_t`.
abbrev pub IsI32 : ℤ → Type 0
IsI32 v = (negsuc 2147483647 ≤ℤ v) × (v ≤ℤ pos 2147483647)

offset-IsI32 :
    (patch_pos target_pc : ℕ)
    → patch_pos < 2 ^ 31 - 4
    → target_pc < 2 ^ 31 - 4
    → IsI32 (pos target_pc -ℤ pos (patch_pos + 4))
offset-IsI32 patch_pos target_pc hp ht = ground arith

i32_of_bytes-to_u32 :
    (v : ℤ)
    → IsI32 v
    → i32_of_bytes
        (to_u32 v % 256)
        (to_u32 v / 256 % 256)
        (to_u32 v / 65536 % 256)
        (to_u32 v / 16777216 % 256)
      ≡ v
unfolding i32_of_bytes
i32_of_bytes-to_u32 (pos n) h = ground arith
i32_of_bytes-to_u32 (negsuc n) h = ground arith

done_of_bind :
    {A B : Type 0} (r : Run A) (f : A → Run B) {b : B}
    → Run.◌>>=◌ r f ≡ done b
    → (a : A) × (r ≡ done a) × (f a ≡ done b)
done_of_bind (done a) f e = (a, refl, e)
done_of_bind Run.fault f e = absurd (cc)
done_of_bind Run.out_of_fuel f e = absurd (cc)

done_inj : {A : Type 0} {a b : A} → done a ≡ done b → a ≡ b
done_inj e = cc

store_lem :
    (bytes : List ℕ) (at x : ℕ) {out : List ℕ}
    → store bytes at x ≡ done out
    → (at < length bytes) × (out ≡ set bytes at x)
unfolding store
store_lem bytes at x e = ground arith

-- The bytes of `v` stand from `at` on.
pub record Holds (bytes : List ℕ) (at : ℕ) (v : ℤ) : Type 0 where
  pub b0 : get_elem? bytes at ≡ some (to_u32 v % 256)
  pub b1 : get_elem? bytes (at + 1) ≡ some (to_u32 v / 256 % 256)
  pub b2 : get_elem? bytes (at + 2) ≡ some (to_u32 v / 65536 % 256)
  pub b3 : get_elem? bytes (at + 3) ≡ some (to_u32 v / 16777216 % 256)

store_self :
    (bytes : List ℕ) (at x : ℕ) {out : List ℕ}
    → store bytes at x ≡ done out
    → get_elem? out at ≡ some x
store_self bytes at x e =
    let (lt, at_out) = store_lem bytes at x e in rw at_out (get_elem?-set_self bytes at x lt)

store_ne :
    (bytes : List ℕ) (at i x : ℕ) {out : List ℕ}
    → store bytes at x ≡ done out
    → at ≢ i
    → get_elem? out i ≡ get_elem? bytes i
store_ne bytes at i x e ne =
    let (lt, at_out) = store_lem bytes at x e in rw at_out (get_elem?-set_ne bytes at i x ne)

store_i32-Holds :
    (bytes : List ℕ) (at : ℕ) (v : ℤ) {out : List ℕ}
    → store_i32 bytes at v ≡ done out
    → Holds out at v
unfolding store_i32
store_i32-Holds bytes at v {out} e =
    let (o0, e0, f0) = done_of_bind (store bytes at (to_u32 v % 256)) _ e in
    let (o1, e1, f1) = done_of_bind (store o0 (at + 1) (to_u32 v / 256 % 256)) _ f0 in
    let (o2, e2, e3) = done_of_bind (store o1 (at + 2) (to_u32 v / 65536 % 256)) _ f1 in
    record {
      b0 =
          store_ne o2 (at + 3) at _ e3 (omega arith)
          ∙ store_ne o1 (at + 2) at _ e2 (omega arith)
          ∙ store_ne o0 (at + 1) at _ e1 (omega arith)
          ∙ store_self bytes at _ e0;
      b1 =
          store_ne o2 (at + 3) (at + 1) _ e3 (omega arith)
          ∙ store_ne o1 (at + 2) (at + 1) _ e2 (omega arith)
          ∙ store_self o0 (at + 1) _ e1;
      b2 = store_ne o2 (at + 3) (at + 2) _ e3 (omega arith) ∙ store_self o1 (at + 2) _ e2;
      b3 = store_self o2 (at + 3) _ e3;
    }

fetch_u8_lem :
    (p : Process) (i b : ℕ)
    → get_elem? p.program i ≡ some b
    → fetch_u8 (record p { pc = i }) ≡ (some b, record p { pc = i + 1 })
unfolding fetch_u8
fetch_u8_lem p i b e = rw (fetch_u8, e) refl

module _ {W : Type 0} where
  abbrev pub at_pc : Machine W → ℕ → Machine W
  at_pc m i = record m { proc = record (m.proc) { pc = i } }

  need_u8_lem :
      (m : Machine W) (i b : ℕ)
      → get_elem? m.proc.program i ≡ some b
      → need_u8 (at_pc m i) ≡ next b (at_pc m (i + 1))
  unfolding need_u8 or_eof ◌>>=◌ get_proc put_proc
  need_u8_lem m i b e = rw (fetch_u8_lem m.proc i b e) refl

  -- A byte of an instruction's operand, and what the instruction does with it.
  need_u8_bind :
      {A : Type 0} (m : Machine W) (i j b : ℕ) (k : ℕ → Cmd W A)
      → j ≡ i + 1
      → get_elem? m.proc.program i ≡ some b
      → (need_u8 >>= k) (at_pc m i) ≡ k b (at_pc m j)
  unfolding ◌>>=◌
  need_u8_bind m i j b k at_j e = rw (need_u8_lem m i b e, at_j) refl

  need_i32_lem :
      (m : Machine W) (i : ℕ) (v : ℤ)
      → IsI32 v
      → Holds m.proc.program i v
      → need_i32 (at_pc m i) ≡ next v (at_pc m (i + 4))
  unfolding need_i32
  need_i32_lem m i v r h =
      need_u8_bind m i (i + 1) _ _ refl h.b0
      ∙ need_u8_bind m (i + 1) (i + 2) _ _ (omega arith) h.b1
      ∙ need_u8_bind m (i + 2) (i + 3) _ _ (omega arith) h.b2
      ∙ need_u8_bind m (i + 3) (i + 4) _ _ (omega arith) h.b3
      ∙ ap (λ w. next w (at_pc m (i + 4))) (i32_of_bytes-to_u32 v r)

  -- What `os2_emit_i32` writes at `pc` for a 32-bit integer, `mb_fetch_i32` reads back there, and both
  -- leave the same `pc`.
  pub emit_i32-need_i32 :
      (v : ℤ) (code after : Code) (m : Machine W)
      → IsI32 v
      → emit_i32 v code ≡ done after
      → m.proc.program ≡ after.demo_program
      → need_i32 (at_pc m code.pc) ≡ next v (at_pc m after.pc)
  unfolding emit_i32
  emit_i32-need_i32 v code after m r e same =
      let (bytes, stored, at_after) = done_of_bind (store_i32 code.demo_program code.pc v) _ e in
      let same_code = done_inj at_after in
      let bytes_after : bytes ≡ after.demo_program = ap (λ c. c.demo_program) same_code in
      let pc_after : code.pc + 4 ≡ after.pc = ap (λ c. c.pc) same_code in
      rw (← pc_after) (
        need_i32_lem m code.pc v r
          (rw (same, ← bytes_after) (store_i32-Holds code.demo_program code.pc v stored)))

  jump_lem :
      (m : Machine W) (i t : ℕ)
      → t ≤ length m.proc.program
      → jump (pos t -ℤ pos i) (at_pc m i) ≡ next tt (at_pc m t)
  unfolding jump ◌>>=◌ get_proc put_proc
  jump_lem m i t le = ground arith

  -- A jump whose operand `os2_patch_rel_i32` has written goes to the target, wherever the operand
  -- stands in the program, if the target is not behind the program's end and both are below 2 ^ 31 - 4.
  pub patch_rel_i32-op_jmp :
      (patch_pos target_pc : ℕ) (code after : Code) (m : Machine W)
      → patch_pos < 2 ^ 31 - 4
      → target_pc < 2 ^ 31 - 4
      → patch_rel_i32 patch_pos target_pc code ≡ done after
      → m.proc.program ≡ after.demo_program
      → target_pc ≤ length after.demo_program
      → op_jmp (at_pc m patch_pos) ≡ next tt (at_pc m target_pc)
  unfolding patch_rel_i32 op_jmp ◌>>=◌
  patch_rel_i32-op_jmp patch_pos target_pc code after m small_patch small_target e same le =
      let v = pos target_pc -ℤ pos (patch_pos + 4) in
      let (bytes, stored, at_after) = done_of_bind (store_i32 code.demo_program patch_pos v) _ e in
      let bytes_after : bytes ≡ after.demo_program = ap (λ c. c.demo_program) (done_inj at_after) in
      let fetched : need_i32 (at_pc m patch_pos) ≡ next v (at_pc m (patch_pos + 4)) =
        need_i32_lem m patch_pos v (offset-IsI32 patch_pos target_pc small_patch small_target)
          (rw (same, ← bytes_after) (store_i32-Holds code.demo_program patch_pos v stored)) in
      rw fetched (jump_lem m (patch_pos + 4) target_pc (rw same le))
