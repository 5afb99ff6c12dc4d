-- ===== src/Zephyr/Flow.antt =====
-- zephyr_app/src/flow_generated.h (erts/example/mini_beam_esp32): the programs of the four sensor
-- processes and of the actuator's, as the flow compiler has written them.
use os_ii.Prelude.{ℕ, List, [], ◌∷◌}

abbrev pub sensor_prog_1 : List ℕ
sensor_prog_1 =
    0x01 ∷ 0x00 ∷ 0x01 ∷ 0x00 ∷ 0x00 ∷ 0x00 ∷ 0x01 ∷ 0x01 ∷ 0x39 ∷ 0x00 ∷ 0x00 ∷ 0x00 ∷ 0x01 ∷ 0x02
    ∷ 0x92 ∷ 0x00 ∷ 0x00 ∷ 0x00 ∷ 0x01 ∷ 0x03 ∷ 0x05 ∷ 0x00 ∷ 0x00 ∷ 0x00 ∷ 0x01 ∷ 0x04 ∷ 0x02
    ∷ 0x00 ∷ 0x00 ∷ 0x00 ∷ 0x01 ∷ 0x05 ∷ 0x00 ∷ 0x00 ∷ 0x00 ∷ 0x00 ∷ 0x01 ∷ 0x06 ∷ 0x00 ∷ 0x00
    ∷ 0x00 ∷ 0x00 ∷ 0x01 ∷ 0x08 ∷ 0x00 ∷ 0x00 ∷ 0x00 ∷ 0x00 ∷ 0x10 ∷ 0x03 ∷ 0x03 ∷ 0x00 ∷ 0x01
    ∷ 0x02 ∷ 0x07 ∷ 0x10 ∷ 0x04 ∷ 0x00 ∷ 0x09 ∷ 0x21 ∷ 0x03 ∷ 0x04 ∷ 0x05 ∷ 0x07 ∷ 0x08 ∷ 0x08
    ∷ 0x23 ∷ 0x30 ∷ 0xE8 ∷ 0xFF ∷ 0xFF ∷ 0xFF ∷ []

abbrev pub sensor_prog_2 : List ℕ
sensor_prog_2 =
    0x01 ∷ 0x00 ∷ 0x01 ∷ 0x00 ∷ 0x00 ∷ 0x00 ∷ 0x01 ∷ 0x01 ∷ 0x5F ∷ 0x00 ∷ 0x00 ∷ 0x00 ∷ 0x01 ∷ 0x02
    ∷ 0x0F ∷ 0x00 ∷ 0x00 ∷ 0x00 ∷ 0x01 ∷ 0x03 ∷ 0x05 ∷ 0x00 ∷ 0x00 ∷ 0x00 ∷ 0x01 ∷ 0x04 ∷ 0x02
    ∷ 0x00 ∷ 0x00 ∷ 0x00 ∷ 0x01 ∷ 0x05 ∷ 0x00 ∷ 0x00 ∷ 0x00 ∷ 0x00 ∷ 0x01 ∷ 0x06 ∷ 0x00 ∷ 0x00
    ∷ 0x00 ∷ 0x00 ∷ 0x01 ∷ 0x08 ∷ 0x00 ∷ 0x00 ∷ 0x00 ∷ 0x00 ∷ 0x10 ∷ 0x03 ∷ 0x03 ∷ 0x00 ∷ 0x01
    ∷ 0x02 ∷ 0x07 ∷ 0x10 ∷ 0x04 ∷ 0x00 ∷ 0x09 ∷ 0x21 ∷ 0x03 ∷ 0x04 ∷ 0x05 ∷ 0x07 ∷ 0x08 ∷ 0x08
    ∷ 0x23 ∷ 0x30 ∷ 0xE8 ∷ 0xFF ∷ 0xFF ∷ 0xFF ∷ []

abbrev pub sensor_prog_3 : List ℕ
sensor_prog_3 =
    0x01 ∷ 0x00 ∷ 0x01 ∷ 0x00 ∷ 0x00 ∷ 0x00 ∷ 0x01 ∷ 0x01 ∷ 0x39 ∷ 0x00 ∷ 0x00 ∷ 0x00 ∷ 0x01 ∷ 0x02
    ∷ 0x92 ∷ 0x00 ∷ 0x00 ∷ 0x00 ∷ 0x01 ∷ 0x03 ∷ 0x05 ∷ 0x00 ∷ 0x00 ∷ 0x00 ∷ 0x01 ∷ 0x04 ∷ 0x02
    ∷ 0x00 ∷ 0x00 ∷ 0x00 ∷ 0x01 ∷ 0x05 ∷ 0x00 ∷ 0x00 ∷ 0x00 ∷ 0x00 ∷ 0x01 ∷ 0x06 ∷ 0x00 ∷ 0x00
    ∷ 0x00 ∷ 0x00 ∷ 0x01 ∷ 0x08 ∷ 0x00 ∷ 0x00 ∷ 0x00 ∷ 0x00 ∷ 0x10 ∷ 0x03 ∷ 0x03 ∷ 0x00 ∷ 0x01
    ∷ 0x02 ∷ 0x07 ∷ 0x10 ∷ 0x04 ∷ 0x00 ∷ 0x09 ∷ 0x21 ∷ 0x03 ∷ 0x04 ∷ 0x05 ∷ 0x07 ∷ 0x08 ∷ 0x08
    ∷ 0x23 ∷ 0x30 ∷ 0xE8 ∷ 0xFF ∷ 0xFF ∷ 0xFF ∷ []

abbrev pub sensor_prog_4 : List ℕ
sensor_prog_4 =
    0x01 ∷ 0x00 ∷ 0x01 ∷ 0x00 ∷ 0x00 ∷ 0x00 ∷ 0x01 ∷ 0x01 ∷ 0x5F ∷ 0x00 ∷ 0x00 ∷ 0x00 ∷ 0x01 ∷ 0x02
    ∷ 0x0F ∷ 0x00 ∷ 0x00 ∷ 0x00 ∷ 0x01 ∷ 0x03 ∷ 0x05 ∷ 0x00 ∷ 0x00 ∷ 0x00 ∷ 0x01 ∷ 0x04 ∷ 0x02
    ∷ 0x00 ∷ 0x00 ∷ 0x00 ∷ 0x01 ∷ 0x05 ∷ 0x00 ∷ 0x00 ∷ 0x00 ∷ 0x00 ∷ 0x01 ∷ 0x06 ∷ 0x00 ∷ 0x00
    ∷ 0x00 ∷ 0x00 ∷ 0x01 ∷ 0x08 ∷ 0x00 ∷ 0x00 ∷ 0x00 ∷ 0x00 ∷ 0x10 ∷ 0x03 ∷ 0x03 ∷ 0x00 ∷ 0x01
    ∷ 0x02 ∷ 0x07 ∷ 0x10 ∷ 0x04 ∷ 0x00 ∷ 0x09 ∷ 0x21 ∷ 0x03 ∷ 0x04 ∷ 0x05 ∷ 0x07 ∷ 0x08 ∷ 0x08
    ∷ 0x23 ∷ 0x30 ∷ 0xE8 ∷ 0xFF ∷ 0xFF ∷ 0xFF ∷ []

abbrev pub sensor_progs : List (List ℕ)
sensor_progs = sensor_prog_1 ∷ sensor_prog_2 ∷ sensor_prog_3 ∷ sensor_prog_4 ∷ []

abbrev pub actuator_prog : List ℕ
actuator_prog =
    0x20 ∷ 0x00 ∷ 0x01 ∷ 0x02 ∷ 0x03 ∷ 0x04 ∷ 0x10 ∷ 0x02 ∷ 0x02 ∷ 0x01 ∷ 0x02 ∷ 0x05 ∷ 0x30 ∷ 0xEF
    ∷ 0xFF ∷ 0xFF ∷ 0xFF ∷ []
