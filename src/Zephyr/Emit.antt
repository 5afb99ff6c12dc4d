-- ===== src/Zephyr/Emit.antt =====
-- The bytecode emitter of zephyr_app/src/main.c (erts/example/mini_beam_esp32). `demo_program` and
-- the caller's `pc` are one record; a write outside the array is a fault.
pub mod RoundTrip
use os_ii.Prelude.{
  ℕ, ◌+◌, ◌/◌, ◌%◌, ltb, if◌then◌else◌, List, [], ◌∷◌, length, set, ℤ, pos, ◌-ℤ◌, to_u32, replicate,
}
use os_ii.Run.{Run, done, fault, ◌>>=◌}

pub record Code : Type 0 where
  pub demo_program : List ℕ
  pub pc : ℕ

abbrev pub empty_code : Code
empty_code = record { demo_program = replicate 128 0; pc = 0 }

-- `demo_program[at] = value`
unfoldable pub store : List ℕ → ℕ → ℕ → Run (List ℕ)
store bytes at value = if ltb at (length bytes) then done (set bytes at value) else fault

-- The four bytes of `value`, the lowest first, from `at` on.
unfoldable pub store_i32 : List ℕ → ℕ → ℤ → Run (List ℕ)
store_i32 bytes at value = store bytes at (to_u32 value % 256) >>= λ b0.
    store b0 (at + 1) (to_u32 value / 256 % 256) >>= λ b1.
    store b1 (at + 2) (to_u32 value / 65536 % 256) >>= λ b2.
    store b2 (at + 3) (to_u32 value / 16777216 % 256)

unfoldable pub emit_u8 : ℕ → Code → Run Code
emit_u8 value code = store code.demo_program code.pc value >>= λ bytes.
    done (record { demo_program = bytes; pc = code.pc + 1 })

unfoldable pub emit_i32 : ℤ → Code → Run Code
emit_i32 value code = store_i32 code.demo_program code.pc value >>= λ bytes.
    done (record { demo_program = bytes; pc = code.pc + 4 })

unfoldable pub patch_rel_i32 : ℕ → ℕ → Code → Run Code
patch_rel_i32 patch_pos target_pc code =
    store_i32 code.demo_program patch_pos (pos target_pc -ℤ pos (patch_pos + 4)) >>= λ bytes.
    done (record code { demo_program = bytes })

-- Calls of `os2_emit_u8` one after the other.
unfoldable pub emit_bytes : List ℕ → Code → Run Code
emit_bytes [] code = done code
emit_bytes (b ∷ bs) code = emit_u8 b code >>= emit_bytes bs

-- The constants, up to `loop_pc`.
unfoldable pub emit_constants : Code → Run Code
emit_constants c =
    emit_bytes (0x01 ∷ 6 ∷ []) c
    >>= emit_i32 (pos 20)
    >>= emit_bytes (0x01 ∷ 10 ∷ [])
    >>= emit_i32 (pos 0)
    >>= emit_bytes (0x01 ∷ 14 ∷ [])
    >>= emit_i32 (pos 2)

-- The calls and moves of the sensor path, up to the operand of its jump.
abbrev pub sensor_path : List ℕ
sensor_path =
    0x10 ∷ 3 ∷ 3 ∷ 1 ∷ 2 ∷ 3 ∷ 7 ∷ 0x10 ∷ 4 ∷ 0 ∷ 8 ∷ 0x02 ∷ 11 ∷ 1 ∷ 0 ∷ 0x02 ∷ 12 ∷ 2 ∷ 0 ∷ 0x02
    ∷ 13 ∷ 3 ∷ 0 ∷ 0x02 ∷ 9 ∷ 4 ∷ 0 ∷ 0x02 ∷ 10 ∷ 0 ∷ 0 ∷ 0x30 ∷ []

-- The PWM path, up to the operand of its jump.
unfoldable pub emit_pwm_path : Code → Run Code
emit_pwm_path c =
    emit_bytes
      (0x10 ∷ 2 ∷ 2 ∷ 1 ∷ 2 ∷ 7 ∷ 0x10 ∷ 4 ∷ 0 ∷ 8 ∷ 0x02 ∷ 11 ∷ 1 ∷ 0 ∷ 0x02 ∷ 12 ∷ 2 ∷ 0 ∷ 0x01
        ∷ 13 ∷ [])
      c
    >>= emit_i32 (pos 0)
    >>= emit_bytes (0x02 ∷ 9 ∷ 3 ∷ 0 ∷ 0x02 ∷ 10 ∷ 0 ∷ 0 ∷ 0x30 ∷ [])

-- `os2_build_cyclic_program`; the size that it returns is the `pc` of the result.
unfoldable pub build_cyclic_program : Code → Run Code
build_cyclic_program start = emit_constants start >>= λ c0.
    let loop_pc = c0.pc in
    emit_bytes (0x20 ∷ 0 ∷ 1 ∷ 2 ∷ 3 ∷ 4 ∷ 0x31 ∷ 0 ∷ []) c0 >>= λ c1.
    let jz_to_sleep_patch = c1.pc in
    emit_i32 (pos 0) c1 >>= emit_bytes (0x04 ∷ 15 ∷ 0 ∷ 14 ∷ 0x31 ∷ 15 ∷ []) >>= λ c2.
    let jz_to_pwm_patch = c2.pc in
    emit_i32 (pos 0) c2 >>= emit_bytes sensor_path >>= λ c3.
    let jmp_over_pwm_patch = c3.pc in
    emit_i32 (pos 0) c3 >>= λ c4.
    let pwm_path_pc = c4.pc in
    emit_pwm_path c4 >>= λ c5.
    let jmp_to_loop_patch = c5.pc in
    emit_i32 (pos 0) c5 >>= λ c6.
    patch_rel_i32 jz_to_sleep_patch c6.pc c6 >>= emit_bytes (0x40 ∷ 6 ∷ 0x30 ∷ []) >>= λ c7.
    emit_i32 (pos loop_pc -ℤ pos (c7.pc + 4)) c7
    >>= patch_rel_i32 jz_to_pwm_patch pwm_path_pc
    >>= patch_rel_i32 jmp_over_pwm_patch loop_pc
    >>= patch_rel_i32 jmp_to_loop_patch loop_pc
