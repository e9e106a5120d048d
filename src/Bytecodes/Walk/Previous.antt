-- ===== src/Bytecodes/Walk/Previous.antt =====
-- Bytecode::PreviousBytecode in a method that is laid out as the compiler emits it.
use dartino_sdk.Base.{
  ℕ, zero, suc, ◌+◌, ◌*◌, ◌^◌, ◌<◌, ◌≤◌, ◌≡◌, refl, sym, ap, ◌∙◌, false, Option, none, some, List,
  [], ◌∷◌, ◌++◌, arith, length, take, drop, ◌==◌, ==_iff, le→leb, get_elem?, length-append,
  length-drop, append_assoc, append-nil, drop-append, take-append, drop-drop, get_elem?-drop,
}
use dartino_sdk.Memory.{load, seg}
use dartino_sdk.Wire.{le_bytes, of_le}
use dartino_sdk.Wire.Words.{length-le_bytes, of_le-le_bytes}
use dartino_sdk.Bytecodes.{size, method_end}
use dartino_sdk.Bytecodes.Walk.{read_int32, find_end, go_back, walk, previous_bytecode}

-- An opcode that does not end the method, with operands of its size.
pub record Instruction : Type 0 where
  pub opcode : ℕ
  pub operands : List ℕ
  pub not_end : (opcode == method_end) ≡ false
  pub sized : size opcode ≡ some (1 + length operands)

abbrev pub bytes_of : Instruction → List ℕ
bytes_of i = i.opcode ∷ i.operands

unfoldable pub code : List Instruction → List ℕ
code [] = []
code (i ∷ is) = bytes_of i ++ code is

-- The place of the last instruction, or that before them all.
last_start : ℕ → List Instruction → Option ℕ → Option ℕ
last_start bcp [] previous = previous
last_start bcp (i ∷ is) previous = last_start (bcp + length (bytes_of i)) is (some bcp)

module _ (mem : List ℕ) where
  -- The next opcode and what follows the instruction.
  at_instruction :
      (bcp : ℕ) (i : Instruction) (is : List Instruction) (rest : List ℕ)
      → drop bcp mem ≡ code (i ∷ is) ++ rest
      → (get_elem? mem bcp ≡ some i.opcode)
        × (drop (bcp + (1 + length i.operands)) mem ≡ code is ++ rest)
  unfolding code
  at_instruction bcp i is rest e = (
    sym (get_elem?-drop mem bcp) ∙ ap (λ xs. get_elem? xs 0) e,
    sym (drop-drop mem bcp (1 + length i.operands))
        ∙ ap (drop (1 + length i.operands)) (e ∙ append_assoc (bytes_of i) (code is) rest)
        ∙ ap (λ k. drop k (bytes_of i ++ (code is ++ rest))) {x = 1 + length i.operands}
            {y = length (bytes_of i)} (omega arith)
        ∙ drop-append (bytes_of i) (code is ++ rest),
  )

  find_end_lem :
      (fuel bcp : ℕ) (is : List Instruction) (rest : List ℕ)
      → drop bcp mem ≡ code is ++ (method_end ∷ rest)
      → length (code is) < fuel
      → find_end fuel mem bcp ≡ some (bcp + length (code is))
  unfolding find_end code
  find_end_lem zero bcp is rest e h = absurd (omega arith)
  find_end_lem (suc fuel) bcp [] rest e h =
      let here = sym (get_elem?-drop mem bcp) ∙ ap (λ xs. get_elem? xs 0) e in
      rw here (ap some (omega arith))
  find_end_lem (suc fuel) bcp (i ∷ is) rest e h =
      let (here, next) = at_instruction bcp i is (method_end ∷ rest) e in
      let l = length-append (bytes_of i) (code is) in
      rw (here, i.not_end, i.sized)
        (find_end_lem fuel (bcp + (1 + length i.operands)) is rest next (omega (arith, l))
          ∙ ap some (omega (arith, l)))

  walk_lem :
      (fuel bcp : ℕ) (is : List Instruction) (rest : List ℕ) (previous : Option ℕ)
      → drop bcp mem ≡ code is ++ rest
      → length (code is) < fuel
      → walk fuel mem (bcp + length (code is)) bcp previous ≡ some (last_start bcp is previous)
  unfolding walk code last_start
  walk_lem zero bcp is rest previous e h = absurd (omega arith)
  walk_lem (suc fuel) bcp [] rest previous e h = rw ((==_iff bcp (bcp + 0)).1 (omega arith)) refl
  walk_lem (suc fuel) bcp (i ∷ is) rest previous e h =
      let (here, next) = at_instruction bcp i is rest e in
      let l = length-append (bytes_of i) (code is) in
      let apart : (bcp == bcp + length (code (i ∷ is))) ≡ false = ground (arith, l) in
      let same : bcp + length (code (i ∷ is)) ≡ (bcp + (1 + length i.operands)) + length (code is) =
        omega (arith, l) in
      rw (apart, here, i.sized)
        (ap (λ c. walk fuel mem c (bcp + (1 + length i.operands)) (some bcp)) same
          ∙ walk_lem fuel (bcp + (1 + length i.operands)) is rest (some bcp) next (omega (arith, l))
          ∙ ap (λ j. some (last_start j is (some bcp))) (omega arith))

-- A method's code in memory; MethodEnd's operand is twice the length of the code before it, and a flag.
pub record Method (mem : List ℕ) (start : ℕ) (is : List Instruction) : Type 0 where
  pub flag : ℕ
  pub rest : List ℕ
  pub flag_bit : flag < 2
  pub short : 2 * length (code is) + flag < 2 ^ 31
  pub stands :
      drop start mem ≡ code is ++ (method_end ∷ (le_bytes 4 (2 * length (code is) + flag) ++ rest))

code-append : (xs ys : List Instruction) → code (xs ++ ys) ≡ code xs ++ code ys
unfolding code
code-append [] ys = refl
code-append (i ∷ is) ys =
    ap (◌++◌ (bytes_of i)) (code-append is ys) ∙ sym (append_assoc (bytes_of i) (code is) (code ys))

last_start-append :
    (bcp : ℕ) (xs : List Instruction) (i : Instruction) (previous : Option ℕ)
    → last_start bcp (xs ++ i ∷ []) previous ≡ some (bcp + length (code xs))
unfolding last_start code
last_start-append bcp [] i previous = ap some (omega arith)
last_start-append bcp (x ∷ xs) i previous =
    last_start-append (bcp + length (bytes_of x)) xs i (some bcp)
    ∙ ap some (omega (arith, length-append (bytes_of x) (code xs)))

module _ (mem : List ℕ) (start : ℕ) (is : List Instruction) (m : Method mem start is) where
  abbrev tail : List ℕ
  tail = le_bytes 4 (2 * length (code is) + m.flag) ++ m.rest

  after :
      (xs : List ℕ) (ys : List ℕ) → drop start mem ≡ xs ++ ys → drop (start + length xs) mem ≡ ys
  after xs ys e =
      sym (drop-drop mem start (length xs)) ∙ ap (drop (length xs)) e ∙ drop-append xs ys

  length-mem : start + (length (code is) + 5) ≤ length mem
  length-mem =
      let operand = le_bytes 4 (2 * length (code is) + m.flag) in
      omega (
        arith,
        ap length m.stands,
        length-drop start mem,
        length-append (code is) (method_end ∷ (operand ++ m.rest)),
        length-append operand m.rest,
        length-le_bytes 4 (2 * length (code is) + m.flag),
      )

  read_end : read_int32 mem (start + length (code is) + 1) ≡ some (2 * length (code is) + m.flag)
  unfolding read_int32 load seg
  read_end =
      let operand = le_bytes 4 (2 * length (code is) + m.flag) in
      let e = m.stands ∙ sym (append_assoc (code is) (method_end ∷ []) (operand ++ m.rest)) in
      let there =
        ap (λ k. drop k mem) (omega (arith, length-append (code is) (method_end ∷ [])))
        ∙ after (code is ++ method_end ∷ []) (operand ++ m.rest) e in
      let word : take 4 (drop (start + length (code is) + 1) mem) ≡ operand =
        ap (take 4) there
        ∙ ap (λ k. take k (operand ++ m.rest))
            (sym (length-le_bytes 4 (2 * length (code is) + m.flag)))
        ∙ take-append operand m.rest in
      rw (le→leb (start + length (code is) + 1 + 4) (length mem) (omega (arith, length-mem))) (
        ap (λ xs. some (of_le xs)) word
        ∙ ap some (of_le-le_bytes 4 (2 * length (code is) + m.flag) (omega (arith, m.short))))

  go_start : go_back (start + length (code is)) (2 * length (code is) + m.flag) ≡ some start
  unfolding go_back
  go_start = ground (arith, m.short, m.flag_bit)

  previous_lem :
      (xs ys : List Instruction)
      → is ≡ xs ++ ys
      → previous_bytecode mem (start + length (code xs)) ≡ some (last_start start xs none)
  unfolding previous_bytecode
  previous_lem xs ys e =
      let split = ap code e ∙ code-append xs ys in
      let l = ap length split ∙ length-append (code xs) (code ys) in
      let whole : drop start mem ≡ code xs ++ (code ys ++ (method_end ∷ tail)) =
        m.stands
        ∙ ap (λ c. c ++ (method_end ∷ tail)) split
        ∙ append_assoc (code xs) (code ys) (method_end ∷ tail) in
      let n = length-mem in
      let found =
        find_end_lem mem (suc (length mem)) (start + length (code xs)) ys tail
          (after (code xs) _ whole) (omega (arith, l, n))
        ∙ ap some {y = start + length (code is)} (omega (arith, l)) in
      rw (found, read_end, go_start)
        (walk_lem mem (suc (length mem)) start xs _ none whole (omega (arith, l, n)))

  -- In a method of less than 2^30 bytes of code, whose MethodEnd carries their number,
  -- PreviousBytecode at the end of an instruction returns its start, whatever the instructions
  -- are. Both loops end, and they read nothing outside the memory.
  pub previous_bytecode_lem :
      (xs ys : List Instruction) (i : Instruction)
      → is ≡ (xs ++ i ∷ []) ++ ys
      → previous_bytecode mem (start + length (code xs) + length (bytes_of i))
        ≡ some (some (start + length (code xs)))
  unfolding code
  previous_bytecode_lem xs ys i e =
      let l = ap length (code-append xs (i ∷ [])) ∙ length-append (code xs) (code (i ∷ [])) in
      let l' = ap length (append-nil (bytes_of i)) in
      ap (previous_bytecode mem) (omega (arith, l, l'))
      ∙ previous_lem (xs ++ i ∷ []) ys e
      ∙ ap some (last_start-append start xs i none)

  -- At the start of a method of less than 2^30 bytes of code, whose MethodEnd carries their
  -- number, PreviousBytecode returns NULL.
  pub previous_bytecode-start : previous_bytecode mem start ≡ some none
  unfolding code last_start
  previous_bytecode-start =
      ap (previous_bytecode mem) {y = start + 0} (omega arith) ∙ previous_lem [] is refl
