-- ===== src/Groups/Tests.antt =====
-- Two groups in use, a third asked for, and a program in one.
use dartino_sdk.Base.{◌≡◌, refl, not, ◌&&◌, ◌||◌, none, some, [], ◌∷◌, arith, ◌==◌}
use dartino_sdk.Memory.{◌>>=◌}
use dartino_sdk.Groups.{
  ProgramGroups, create, delete, is_valid_group, add_program, remove_program, contains_program,
}
use dartino_sdk.Groups.Create.{create_lem, delete_lem}
use dartino_sdk.Groups.Members.{contains_program_lem}

abbrev two_groups : ProgramGroups
two_groups = record {
  group_names = some "a" ∷ some "b" ∷ none ∷ none ∷ none ∷ [];
  used_group_mask = 3;
}

-- The third group gets the number of the first, and takes its name's place.
create_lem_example : create two_groups "c" ≡ (
  1,
  record { group_names = some "c" ∷ some "b" ∷ none ∷ none ∷ none ∷ []; used_group_mask = 3 },
)
create_lem_example = create_lem two_groups "c"

delete_lem_example :
    (groups' : ProgramGroups) × (delete two_groups 1 ≡ some groups')
    × (is_valid_group groups' 2 ≡ (not (2 == 1) && is_valid_group two_groups 2))
unfolding is_valid_group
delete_lem_example = delete_lem two_groups 1 2 (omega arith) (omega arith) refl

contains_program_lem_example :
    ((add_program two_groups 1 4 >>= contains_program two_groups 2)
      ≡ (contains_program two_groups 2 4 >>= λ before. some ((2 == 1) || before)))
    × ((remove_program two_groups 1 4 >>= contains_program two_groups 2)
        ≡ (contains_program two_groups 2 4 >>= λ before. some (not (2 == 1) && before)))
unfolding is_valid_group
contains_program_lem_example =
    contains_program_lem two_groups 1 2 4 (omega arith) (omega arith) refl refl
