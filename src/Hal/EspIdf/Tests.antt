-- ===== src/Hal/EspIdf/Tests.antt =====
-- The drivers of src/mb_hal_espidf.c (erts/example/mini_beam_esp32) on a bench that counts open devices
-- and whose timer moves on by 700 microseconds a reading.
use os_ii.Prelude.{ℕ, ◌+◌, ◌-◌, ◌*◌, ◌%◌, ◌<◌, ◌≡◌, refl, arith, pos}
use os_ii.Run.{done}
use os_ii.Hal.EspIdf.{Sdk, u64_mod, i2c_read_reg, i2c_write_reg, delay_ms}
use os_ii.Hal.EspIdf.Laws.{Counts, Counting, i2c_open_devices, delay_ms_lem}

record Bench : Type 0 where
  open_devices : ℕ
  clock : ℕ

abbrev bench : Sdk ℕ Bench
bench = record {
  gpio_set_level = λ pin level w. (0, w);
  gpio_get_level = λ pin w. (pos 1, w);
  ledc_set_duty = λ channel duty w. (0, w);
  ledc_update_duty = λ channel w. (0, w);
  ledc_timer_config = λ cfg w. (0, w);
  i2c_master_bus_add_device =
      λ bus cfg w. (0, w.open_devices, record w { open_devices = w.open_devices + 1 });
  i2c_master_bus_rm_device = λ dev w. (0, record w { open_devices = w.open_devices - 1 });
  i2c_master_transmit_receive = λ dev reg timeout w. (0, 7, w);
  i2c_master_transmit = λ dev tx timeout w. (0, w);
  esp_timer_get_time = λ w. (w.clock % u64_mod, record w { clock = w.clock + 700 });
}

bench-Counts : Counts bench (λ w. w.open_devices)
bench-Counts = record {
  added = λ bus cfg w. refl;
  removed = λ dev w. refl;
  received = λ dev reg timeout w. refl;
  transmitted = λ dev tx timeout w. refl;
}

bench-Counting : Counting bench (λ w. w.clock)
bench-Counting = record { reads = λ w. refl; advances = λ w. omega arith; steps = λ w. omega arith }

abbrev powered : Bench
powered = record { open_devices = 2; clock = 5000 }

i2c_open_devices_example :
    ((i2c_read_reg bench 0 0x40 1 powered).2.open_devices ≡ 2 + 0)
    × ((i2c_write_reg bench 0 0x40 1 9 powered).1.open_devices ≡ 2 + 0)
i2c_open_devices_example =
    i2c_open_devices bench (λ w. w.open_devices) bench-Counts 0 0x40 1 9 powered

delay_ms_lem_example :
    (after : Bench) × (delay_ms bench 3001 3 powered ≡ done after) × (5000 + 3 * 1000 < after.clock)
delay_ms_lem_example =
    delay_ms_lem bench (λ w. w.clock) bench-Counting 3001 3 powered (omega arith) (omega arith)
