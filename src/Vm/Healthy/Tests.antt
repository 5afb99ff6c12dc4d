-- ===== src/Vm/Healthy/Tests.antt =====
-- `CONS` of src/mb_vm.c (erts/example/mini_beam_esp32) in a new process.
use os_ii.Prelude.{refl, [], ◌∷◌, All}
use os_ii.Process.{Process, init}
use os_ii.Heap.Build.{init-WellFormed}
use os_ii.Heap.Objects.{Sound, empty}
use os_ii.Machine.{alone}
use os_ii.Vm.Data.{op_cons}
use os_ii.Vm.Healthy.{Healthy, Fine, Ensures}
use os_ii.Vm.Healthy.Cons.{op_cons-Fine}

-- The operands are registers 3, 1 and 2.
abbrev fresh : Process
fresh = init 1 (3 ∷ 1 ∷ 2 ∷ [])

zeros-Sound : All (Sound []) fresh.regs
unfolding init
zeros-Sound = (
  empty refl,
  (
    empty refl,
    (
      empty refl,
      (
        empty refl,
        (
          empty refl,
          (
            empty refl,
            (
              empty refl,
              (
                empty refl,
                (
                  empty refl,
                  (
                    empty refl,
                    (
                      empty refl,
                      (empty refl, (empty refl, (empty refl, (empty refl, (empty refl, tt))))),
                    ),
                  ),
                ),
              ),
            ),
          ),
        ),
      ),
    ),
  ),
)

fresh-Healthy : Healthy fresh
unfolding init
fresh-Healthy = ([], record { heap = init-WellFormed; sound = zeros-Sound; size = refl })

op_cons-Fine_example : Ensures Fine (op_cons (record { proc = fresh; caller = alone; world = tt }))
op_cons-Fine_example =
    op_cons-Fine (record { proc = fresh; caller = alone; world = tt }) fresh-Healthy
