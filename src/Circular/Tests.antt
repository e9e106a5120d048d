-- ===== src/Circular/Tests.antt =====
-- Runs of the ring, and its theorems at a ring that wraps.
use dartino_sdk.Base.{ℕ, ◌≡◌, refl, some, List, [], ◌∷◌, ◌++◌, arith, length, take, min}
use dartino_sdk.Memory.{◌>>=◌, seg, blit, load, memcpy}
use dartino_sdk.Circular.{
  CircularBuffer, IsValid, init, read, write, read_upper, read_lower, write_upper, write_lower,
}
use dartino_sdk.Circular.View.{contents, size, room}
use dartino_sdk.Circular.Write.{write_lem}
use dartino_sdk.Circular.Read.{read_lem}

-- Four cells; the bytes 7 and 8 stand in the last and the first.
abbrev wrapped : CircularBuffer
wrapped = record { buffer = 8 ∷ 0 ∷ 0 ∷ 7 ∷ []; capacity = 4; head = 1; tail = 3 }

wrapped-IsValid : IsValid wrapped
wrapped-IsValid = record { sized = refl; head_in = omega arith; tail_in = omega arith }

-- A write of three bytes to a ring for two takes two; a read gives them back.
session :
    (write (init 2) (5 ∷ 6 ∷ 7 ∷ []) >>= λ (n, b). read b 3 >>= λ (out, _). some (n ∷ out))
    ≡ some (2 ∷ 5 ∷ 6 ∷ [])
unfolding init read write read_upper read_lower write_upper write_lower load memcpy seg blit
session = refl

write_lem_example :
    (b : CircularBuffer) × (write wrapped (1 ∷ 2 ∷ []) ≡ some (min 2 (room wrapped), b))
    × IsValid b
    × (b.capacity ≡ 4)
    × (contents b ≡ contents wrapped ++ take (min 2 (room wrapped)) (1 ∷ 2 ∷ []))
write_lem_example = write_lem wrapped (1 ∷ 2 ∷ []) wrapped-IsValid

read_lem_example :
    (out : List ℕ) × (b : CircularBuffer) × (read wrapped 5 ≡ some (out, b))
    × IsValid b
    × (b.capacity ≡ 4)
    × (length out ≡ min 5 (size wrapped))
    × (contents wrapped ≡ out ++ contents b)
read_lem_example = read_lem wrapped 5 wrapped-IsValid (omega arith)
