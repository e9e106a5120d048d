-- ===== src/Bytecodes/Unfold.antt =====
-- The invokes of the table and their unfolded twins, `unfold_offset` behind them.
use dartino_sdk.Base.{
  ℕ, zero, suc, ◌+◌, ◌-◌, ◌<◌, ◌≤◌, ◌≡◌, refl, ap, ◌∙◌, true, some, List, [], ◌∷◌, ◌++◌, arith,
  get_elem?, length, map, get_elem?-append_left, get_elem?-append_right, get_elem?_lt,
}
use dartino_sdk.Bytecodes.{
  Base, bytecodes, invokes, invoke, invoke_bases, loads, others, lasts, size, bytecode_format,
  stack_diff, is_invoke, is_invoke_unfold, unfold_offset,
}

get_elem?-map :
    {A B : Type 0} (f : A → B) (xs : List A) (k : ℕ) (a : A)
    → get_elem? xs k ≡ some a
    → get_elem? (map f xs) k ≡ some (f a)
get_elem?-map f [] k a h = absurd (ground arith)
get_elem?-map f (x ∷ xs) zero a h = ground arith
get_elem?-map f (x ∷ xs) (suc k) a h = get_elem?-map f xs k a h

length-map : {A B : Type 0} (f : A → B) (xs : List A) → length (map f xs) ≡ length xs
length-map f [] = refl
length-map f (x ∷ xs) = ap suc (length-map f xs)

-- A list after two others, and one in the middle.
in_middle :
    {A : Type 0} (xs ys zs : List A) (k : ℕ)
    → k < length ys
    → get_elem? (xs ++ (ys ++ zs)) (length xs + k) ≡ get_elem? ys k
in_middle xs ys zs k h = get_elem?-append_right xs (ys ++ zs) k ∙ get_elem?-append_left ys zs k h

plain_row :
    (k : ℕ) (b : Base)
    → k < 18
    → get_elem? invoke_bases k ≡ some b
    → get_elem? bytecodes (25 + k) ≡ some (invoke "" "" b)
unfolding bytecodes invokes loads invoke_bases
plain_row k b h e =
    in_middle loads (invokes "" "") (others ++ invokes "Unfold" "unfold " ++ lasts) k h
    ∙ get_elem?-map (invoke "" "") invoke_bases k b e

unfolded_row :
    (k : ℕ) (b : Base)
    → k < 18
    → get_elem? invoke_bases k ≡ some b
    → get_elem? bytecodes (80 + k) ≡ some (invoke "Unfold" "unfold " b)
unfolding bytecodes invokes loads invoke_bases others
unfolded_row k b h e =
    in_middle (loads ++ invokes "" "" ++ others) (invokes "Unfold" "unfold ") lasts k h
    ∙ get_elem?-map (invoke "Unfold" "unfold ") invoke_bases k b e

base_at : (k : ℕ) → k < 18 → (b : Base) × (get_elem? invoke_bases k ≡ some b)
unfolding invoke_bases
base_at k h = get_elem?_lt invoke_bases k h

is_invoke_bounds : (opcode : ℕ) → is_invoke opcode ≡ true → (25 ≤ opcode) × (opcode ≤ 42)
unfolding is_invoke
is_invoke_bounds opcode h = (ground arith, ground arith)

is_invoke_unfold_bounds : (opcode : ℕ) → 80 ≤ opcode → opcode ≤ 97 → is_invoke_unfold opcode ≡ true
unfolding is_invoke_unfold
is_invoke_unfold_bounds opcode h h' = ground arith

-- The opcode kUnfoldOffset behind an IsInvoke opcode is an IsInvokeUnfold opcode with the same
-- size, format and stack difference, and the two are made from the same entry of INVOKES_DO.
pub is_invoke_unfold-is_invoke :
    (opcode : ℕ)
    → is_invoke opcode ≡ true
    → (is_invoke_unfold (opcode + unfold_offset) ≡ true)
      × (size (opcode + unfold_offset) ≡ size opcode)
      × (bytecode_format (opcode + unfold_offset) ≡ bytecode_format opcode)
      × (stack_diff (opcode + unfold_offset) ≡ stack_diff opcode)
      × (b : Base) × (get_elem? bytecodes opcode ≡ some (invoke "" "" b))
      × (get_elem? bytecodes (opcode + unfold_offset) ≡ some (invoke "Unfold" "unfold " b))
unfolding size bytecode_format stack_diff invoke
is_invoke_unfold-is_invoke opcode h =
    let (low, high) = is_invoke_bounds opcode h in
    let (b, e) = base_at (opcode - 25) (omega (arith, low, high)) in
    let plain =
      ap (get_elem? bytecodes) {x = opcode} (omega (arith, low))
      ∙ plain_row (opcode - 25) b (omega (arith, low, high)) e in
    let twin =
      ap (get_elem? bytecodes) {x = opcode + 55} (omega (arith, low))
      ∙ unfolded_row (opcode - 25) b (omega (arith, low, high)) e in
    (
      is_invoke_unfold_bounds (opcode + 55) (omega (arith, low)) (omega (arith, high)),
      rw (plain, twin) refl,
      rw (plain, twin) refl,
      rw (plain, twin) refl,
      b,
      plain,
      twin,
    )
