-- ===== src/Groups/Members.antt =====
-- ProgramGroups::AddProgram, RemoveProgram and ContainsProgram.
use dartino_sdk.Base.{ℕ, ◌-◌, ◌≤◌, ◌<◌, ◌≡◌, ap, ◌∙◌, true, not, ◌&&◌, ◌||◌, some, arith, ◌==◌}
use dartino_sdk.Memory.{◌>>=◌}
use dartino_sdk.Groups.{
  ProgramGroups, has_bit, is_valid_group, add_program, remove_program, contains_program,
}
use dartino_sdk.Groups.Bits.{has_bit-set_bit, has_bit-clear_bit, pred_same}

valid_pos : (groups : ProgramGroups) (group : ℕ) → is_valid_group groups group ≡ true → 0 < group
unfolding is_valid_group
valid_pos groups group v = ground arith

module _ (groups : ProgramGroups) (group other mask : ℕ) where
  contains-add :
      group ≤ 5
      → other ≤ 5
      → is_valid_group groups group ≡ true
      → is_valid_group groups other ≡ true
      → (add_program groups group mask >>= contains_program groups other)
        ≡ (contains_program groups other mask >>= λ before. some ((other == group) || before))
  unfolding add_program contains_program
  contains-add h k v w =
      rw (v, w)
        (ap some (
          has_bit-set_bit mask (group - 1) (other - 1) (omega arith) (omega arith)
          ∙ ap (λ e. e || has_bit mask (other - 1))
              (pred_same other group (valid_pos groups other w) (valid_pos groups group v))))

  contains-remove :
      group ≤ 5
      → other ≤ 5
      → is_valid_group groups group ≡ true
      → is_valid_group groups other ≡ true
      → (remove_program groups group mask >>= contains_program groups other)
        ≡ (contains_program groups other mask >>= λ before. some (not (other == group) && before))
  unfolding remove_program contains_program
  contains-remove h k v w =
      rw (v, w)
        (ap some (
          has_bit-clear_bit mask (group - 1) (other - 1) (omega arith) (omega arith)
          ∙ ap (λ e. not e && has_bit mask (other - 1))
              (pred_same other group (valid_pos groups other w) (valid_pos groups group v))))

  -- After AddProgram to a valid group, ContainsProgram answers true for that group and as
  -- before for every other valid group of the five; after RemoveProgram from it, false for that
  -- group and as before for every other.
  pub contains_program_lem :
      group ≤ 5
      → other ≤ 5
      → is_valid_group groups group ≡ true
      → is_valid_group groups other ≡ true
      → ((add_program groups group mask >>= contains_program groups other)
          ≡ (contains_program groups other mask >>= λ before. some ((other == group) || before)))
        × ((remove_program groups group mask >>= contains_program groups other) ≡ (
            contains_program groups other mask >>= λ before. some (not (other == group) && before)))
  contains_program_lem h k v w = (contains-add h k v w, contains-remove h k v w)
