-- ===== src/Groups.antt =====
-- src/vm/program_groups.h and program_groups.cc: groups of programs as the bits of two masks. A mask
-- is its number; bit `b` stands for group `b + 1`. `none` is an ASSERT that fails.
pub mod Bits
pub mod Create
pub mod Members
mod Tests
use dartino_sdk.Base.{
  ℕ, zero, suc, ◌+◌, ◌-◌, ◌/◌, ◌%◌, ◌^◌, Bool, true, false, not, Option, none, some, List,
  replicate, set, ◌==◌, if◌then◌else◌, String,
}

abbrev pub number_of_groups : ℕ
number_of_groups = 5

-- The bit is set: `(mask & (1 << bit)) != 0`.
abbrev pub has_bit : ℕ → ℕ → Bool
has_bit mask bit = mask / 2 ^ bit % 2 == 1

-- `mask | (1 << bit)` and `mask & ~(1 << bit)`.
abbrev pub set_bit : ℕ → ℕ → ℕ
set_bit mask bit = if has_bit mask bit then mask else mask + 2 ^ bit

abbrev pub clear_bit : ℕ → ℕ → ℕ
clear_bit mask bit = if has_bit mask bit then mask - 2 ^ bit else mask

pub record ProgramGroups : Type 0 where
  pub group_names : List (Option String)
  pub used_group_mask : ℕ

-- The names are not set by the constructor; NULL stands for what is there.
pub init : ProgramGroups
init = record { group_names = replicate number_of_groups none; used_group_mask = 0 }

-- Create's loop, with `left` rounds to go.
pub create_from : ℕ → ProgramGroups → String → ℕ → ℕ × ProgramGroups
create_from zero groups name bit = (0, groups)
create_from (suc left) groups name bit =
    let rest = create_from left groups name (suc bit) in
    if not (groups.used_group_mask / 2 ^ bit == 1)
    then (
      bit + 1,
      record {
        group_names = set groups.group_names bit (some name);
        used_group_mask = set_bit groups.used_group_mask bit;
      },
    )
    else rest

pub create : ProgramGroups → String → ℕ × ProgramGroups
create groups name = create_from number_of_groups groups name 0

pub is_valid_group : ProgramGroups → ℕ → Bool
is_valid_group groups group =
    if group == 0 then false else has_bit groups.used_group_mask (group - 1)

pub delete : ProgramGroups → ℕ → Option ProgramGroups
delete groups group =
    if is_valid_group groups group
    then some (record {
      group_names = set groups.group_names (group - 1) none;
      used_group_mask = clear_bit groups.used_group_mask (group - 1);
    })
    else none

-- A program is its `group_mask_` here.
pub add_program : ProgramGroups → ℕ → ℕ → Option ℕ
add_program groups group mask =
    if is_valid_group groups group then some (set_bit mask (group - 1)) else none

pub remove_program : ProgramGroups → ℕ → ℕ → Option ℕ
remove_program groups group mask =
    if is_valid_group groups group then some (clear_bit mask (group - 1)) else none

pub contains_program : ProgramGroups → ℕ → ℕ → Option Bool
contains_program groups group mask =
    if is_valid_group groups group then some (has_bit mask (group - 1)) else none
