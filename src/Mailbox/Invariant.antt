-- ===== src/Mailbox/Invariant.antt =====
-- The representation invariant of `mb_mailbox_t`, kept by both operations.
use os_ii.Prelude.{
  true, ℕ, zero, suc, ◌+◌, ◌-◌, ◌%◌, ◌≤◌, ◌<◌, ◌≡◌, refl, ◌≢◌, arith, ap, List, [], ◌∷◌, ◌++◌,
  length, get_or, set, length-set, get_or-set_self, get_or-set_ne, All, All-append,
}
use mathlib.Core.Path.{ap₂}
use os_ii.Status.{ok, is_ok→eq}
use os_ii.Command.{Command, validate_command}
use os_ii.Mailbox.{
  Mailbox, mailbox_capacity, zero_command, zero_mailbox, push_raw, pop_raw, push_in_range,
  pop_in_range,
}

-- The `n` commands from index `h` on, round the end of the array.
abbrev pub window : List Command → ℕ → ℕ → List Command
window items h zero = []
window items h (suc n) = get_or items h zero_command ∷ window items ((h + 1) % mailbox_capacity) n

-- The commands that a mailbox holds, oldest first.
abbrev pub contents : Mailbox → List Command
contents mb = window mb.items mb.head mb.count

abbrev pub Validated : Command → Type 0
Validated cmd = validate_command cmd ≡ ok

-- The indices are in range, `tail` is `count` places after `head`, and every command held has
-- passed validation.
pub record IsValid (mb : Mailbox) : Type 0 where
  pub storage : length mb.items ≡ mailbox_capacity
  pub head_in : mb.head < mailbox_capacity
  pub count_in : mb.count ≤ mailbox_capacity
  pub tail_at : mb.tail ≡ (mb.head + mb.count) % mailbox_capacity
  pub validated : All Validated (contents mb)

pub length-window : (items : List Command) (h n : ℕ) → length (window items h n) ≡ n
length-window items h zero = refl
length-window items h (suc n) = ap suc (length-window items ((h + 1) % mailbox_capacity) n)

-- `window` matches on `suc`, the code tests `count == 0`.
pub window_of_ne_zero :
    (items : List Command) (h n : ℕ)
    → n ≢ 0
    → window items h n
      ≡ get_or items h zero_command ∷ window items ((h + 1) % mailbox_capacity) (n - 1)
window_of_ne_zero items h zero p = absurd (p refl)
window_of_ne_zero items h (suc n) p = ap (λ k. window items h (suc k)) (omega arith)

-- A write just behind a window makes it longer by that command.
pub window-set :
    (items : List Command) (x : Command) (n h i : ℕ)
    → length items ≡ mailbox_capacity
    → h < mailbox_capacity
    → n < mailbox_capacity
    → i ≡ (h + n) % mailbox_capacity
    → window (set items i x) h (suc n) ≡ window items h n ++ (x ∷ [])
window-set items x zero h i len hh hn at =
    let here : i ≡ h = omega arith in
    ap (λ c. c ∷ []) (ground (arith, get_or-set_self items i x zero_command))
window-set items x (suc n) h i len hh hn at =
    ap₂ ◌∷◌ (get_or-set_ne items i h x zero_command (omega arith)) (
      window-set items x n ((h + 1) % mailbox_capacity) i len (omega arith) (omega arith)
        (omega arith))

pub zero_mailbox-IsValid : IsValid zero_mailbox
zero_mailbox-IsValid = record {
  storage = refl;
  head_in = omega arith;
  count_in = omega arith;
  tail_at = refl;
  validated = tt;
}

-- A push keeps a mailbox valid: its indices stay in range and every command held has passed
-- validation.
pub push_raw-IsValid : (mb : Mailbox) (cmd : Command) → IsValid mb → IsValid (push_raw mb cmd).1
unfolding push_raw
push_raw-IsValid mb cmd v = ground (
  arith,
  is_ok→eq (validate_command cmd),
  length-set mb.items mb.tail cmd,
  window-set mb.items cmd mb.count mb.head mb.tail,
  All-append Validated (contents mb) (cmd ∷ []),
)

-- A pop keeps a mailbox valid.
pub pop_raw-IsValid : (mb : Mailbox) → IsValid mb → IsValid (pop_raw mb).1
unfolding pop_raw
pop_raw-IsValid mb v = ground (arith, window_of_ne_zero mb.items mb.head mb.count)

-- A valid mailbox is never accessed outside of its array.
pub IsValid-push_in_range :
    (mb : Mailbox) (cmd : Command) → IsValid mb → push_in_range mb cmd ≡ true
IsValid-push_in_range mb cmd v = ground (arith, v.storage, v.tail_at)

pub IsValid-pop_in_range : (mb : Mailbox) → IsValid mb → pop_in_range mb ≡ true
IsValid-pop_in_range mb v = ground (arith, v.storage, v.head_in)
