-- ===== src/Circular/Read.antt =====
-- Read against the queue view.
use dartino_sdk.Base.{
  ℕ, ◌+◌, ◌-◌, ◌%◌, ◌^◌, true, ◌≤◌, ◌<◌, ◌≡◌, refl, sym, ap, ◌∙◌, inl, inr, some, List, [], ◌++◌,
  arith, length, ltb, ◌⊎◌, length-append, append-nil, append_assoc, Bool-cases, min, ltb→lt,
}
use dartino_sdk.Memory.{seg, length-seg, seg_zero, seg_split, load}
use dartino_sdk.Circular.{CircularBuffer, read_upper, read_lower, read, is_int, IsValid}
use dartino_sdk.Circular.View.{contents, size, length-contents, wrap_cases}

-- `k` bytes stand in one piece from the tail.
abbrev Holds : CircularBuffer → ℕ → Type 0
Holds b k =
    ((b.head < b.tail) × (b.tail + k ≤ b.capacity)) ⊎ ((b.tail ≤ b.head) × (b.tail + k ≤ b.head))

-- The ring after `k` bytes are taken from the tail.
skip : CircularBuffer → ℕ → CircularBuffer
skip b k = record b { tail = (b.tail + k) % b.capacity }

module _ (b : CircularBuffer) (v : IsValid b) (k : ℕ) (holds : Holds b k) where
  skip-IsValid : IsValid (skip b k)
  unfolding skip
  skip-IsValid = record {
    sized = v.sized;
    head_in = v.head_in;
    tail_in = ground (arith, wrap_cases (b.tail + k) b.capacity, v.head_in, v.tail_in);
  }

  load-seg : load b.buffer b.tail k ≡ some (seg b.buffer b.tail k)
  unfolding load
  load-seg = ground (arith, v.sized, v.head_in, v.tail_in)

  -- A segment from the tail starts with those bytes.
  part :
      (n : ℕ)
      → b.tail + k ≤ n
      → seg b.buffer b.tail (n - b.tail)
        ≡ seg b.buffer b.tail k ++ seg b.buffer (b.tail + k) (n - (b.tail + k))
  part n h =
      ap (seg b.buffer b.tail) {y = k + (n - (b.tail + k))} (omega arith)
      ∙ seg_split b.buffer b.tail k _

  skip-contents : contents b ≡ seg b.buffer b.tail k ++ contents (skip b k)
  unfolding contents skip
  skip-contents = elim holds [
    | inl (lt, fits) ↦ ground (
      arith,
      v.head_in,
      v.tail_in,
      wrap_cases (b.tail + k) b.capacity,
      part b.capacity fits,
      seg_zero b.buffer (b.tail + k),
      append-nil (seg b.buffer b.tail k),
      append_assoc (seg b.buffer b.tail k) (seg b.buffer (b.tail + k) (b.capacity - (b.tail + k)))
          (seg b.buffer 0 b.head),
    )
    | inr (le, fits) ↦
        ground (arith, v.head_in, v.tail_in, wrap_cases (b.tail + k) b.capacity, part b.head fits)
  ]

-- The bytes `out` leave the front of the queue.
record Removes (b : CircularBuffer) (out : List ℕ) (b' : CircularBuffer) : Type 0 where
  valid : IsValid b'
  same : b'.capacity ≡ b.capacity
  held : contents b ≡ out ++ contents b'

skip-Removes :
    (b : CircularBuffer)
    → IsValid b
    → (k : ℕ) → Holds b k
    → Removes b (seg b.buffer b.tail k) (skip b k)
unfolding skip
skip-Removes b v k holds = record {
  valid = skip-IsValid b v k holds;
  same = refl;
  held = skip-contents b v k holds;
}

stay-Removes : (b : CircularBuffer) → IsValid b → Removes b [] b
stay-Removes b v = record { valid = v; same = refl; held = refl }

upper_lem :
    (b : CircularBuffer) (count : ℕ)
    → IsValid b
    → b.capacity ≤ 2 ^ 31
    → (out : List ℕ) × (b' : CircularBuffer) × (read_upper b count ≡ some (out, b'))
      × Removes b out b'
      × (length out ≤ count)
      × ((b'.tail < b'.head) ⊎ (length out ≡ min count (size b)))
unfolding read_upper skip size
upper_lem b count v cap = elim (Bool-cases (ltb b.head b.tail)) [
  | inl lt ↦
      let k : ℕ = min (b.capacity - b.tail) count in
      let below : b.head < b.tail = ltb→lt _ _ lt in
      let holds : Holds b k = inl (below, omega (arith, v.tail_in)) in
      let narrow : is_int k ≡ true = ground (arith, v.tail_in, v.head_in, below, cap) in
      let long : length (seg b.buffer b.tail k) ≡ k =
        length-seg b.buffer b.tail k (omega (arith, v.sized, v.tail_in)) in
      (
        seg b.buffer b.tail k,
        skip b k,
        rw (lt, narrow, load-seg b v k holds) refl,
        skip-Removes b v k holds,
        omega (arith, long),
        ground (arith, long, below, wrap_cases (b.tail + k) b.capacity, v.head_in, v.tail_in),
      )
  | inr ge ↦ ([], b, rw ge refl, stay-Removes b v, omega arith, ground (arith, v.head_in))
]

lower_lem :
    (b : CircularBuffer) (count : ℕ)
    → IsValid b
    → b.capacity ≤ 2 ^ 31
    → (out : List ℕ) × (b' : CircularBuffer) × (read_lower b count ≡ some (out, b'))
      × Removes b out b'
      × (length out ≤ count)
      × (b.tail < b.head → length out ≡ min count (size b))
unfolding read_lower skip size
lower_lem b count v cap = elim (Bool-cases (ltb b.tail b.head)) [
  | inl lt ↦
      let k : ℕ = min (b.head - b.tail) count in
      let below : b.tail < b.head = ltb→lt _ _ lt in
      let holds : Holds b k = inr (omega arith, omega (arith, v.tail_in)) in
      let narrow : is_int k ≡ true = ground (arith, v.tail_in, v.head_in, below, cap) in
      let long : length (seg b.buffer b.tail k) ≡ k =
        length-seg b.buffer b.tail k (omega (arith, v.sized, v.head_in)) in
      (
        seg b.buffer b.tail k,
        skip b k,
        rw (lt, narrow, load-seg b v k holds) refl,
        skip-Removes b v k holds,
        omega (arith, long),
        λ _. ground (arith, long, below, v.head_in),
      )
  | inr ge ↦ ([], b, rw ge refl, stay-Removes b v, omega arith, λ h. absurd (ground arith))
]

sizes :
    {b b' : CircularBuffer} {out : List ℕ}
    → Removes b out b'
    → IsValid b
    → size b ≡ length out + size b'
sizes {b} {b'} {out} s v = omega (
  arith,
  length-contents s.valid,
  length-contents v,
  ap length s.held,
  length-append out (contents b'),
)

size_lt : (b : CircularBuffer) → IsValid b → size b < b.capacity
unfolding size
size_lt b v = ground (arith, v.head_in, v.tail_in)

-- Read on a valid ring of at most 2^31 cells takes the oldest bytes, as many as asked for or as
-- there are, and leaves the others in order; it never reads outside the block, and the ring
-- stays valid.
pub read_lem :
    (b : CircularBuffer) (count : ℕ)
    → IsValid b
    → b.capacity ≤ 2 ^ 31
    → (out : List ℕ) × (b' : CircularBuffer) × (read b count ≡ some (out, b'))
      × IsValid b'
      × (b'.capacity ≡ b.capacity)
      × (length out ≡ min count (size b))
      × (contents b ≡ out ++ contents b')
unfolding read
read_lem b count v cap =
    let (out₁, b₁, first, s₁, short₁, more) = upper_lem b count v cap in
    let (out₂, b₂, second, s₂, short₂, full) =
      lower_lem b₁ (count - length out₁) s₁.valid (omega (arith, s₁.same, cap)) in
    let total : size b ≡ length out₁ + (length out₂ + size b₂) =
      omega (arith, sizes s₁ v, sizes s₂ s₁.valid) in
    let narrow : is_int (length out₁ + length out₂) ≡ true =
      ground (arith, total, size_lt b v, cap) in
    (
      out₁ ++ out₂,
      b₂,
      rw (first, second, narrow) refl,
      s₂.valid,
      s₂.same ∙ s₁.same,
      ground (
        arith,
        more,
        full,
        short₁,
        short₂,
        length-append out₁ out₂,
        sizes s₁ v,
        sizes s₂ s₁.valid,
      ),
      s₁.held ∙ ap (◌++◌ out₁) s₂.held ∙ sym (append_assoc out₁ out₂ (contents b₂)),
    )
