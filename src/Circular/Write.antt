-- ===== src/Circular/Write.antt =====
-- Write against the queue view.
use dartino_sdk.Base.{
  ℕ, ◌+◌, ◌-◌, ◌%◌, ◌≤◌, ◌<◌, ◌≡◌, refl, sym, ap, ap₂, ◌∙◌, inl, inr, some, List, ◌++◌, arith,
  length, leb, ltb, ◌==◌, if◌then◌else◌, ◌⊎◌, length-append, length-take, length-drop, append-nil,
  append_assoc, Bool-cases, take, drop, min, ltb→lt, leb→le,
}
use dartino_sdk.Memory.{
  seg, blit, length-blit, seg_zero, seg_split, seg-blit_self, seg-blit_before, seg-blit_after,
  memcpy, take-take,
}
use dartino_sdk.Circular.{CircularBuffer, write_upper, write_lower, write, IsValid}
use dartino_sdk.Circular.View.{contents, size, length-contents, wrap_cases, size_bound, room}

-- `k` bytes can be put at the head in one piece, with a cell left between head and tail.
abbrev Fits : CircularBuffer → ℕ → Type 0
Fits b k =
    ((b.tail ≤ b.head) × (b.head + k + (if b.tail == 0 then 1 else 0) ≤ b.capacity))
    ⊎ ((b.head < b.tail) × (b.head + k < b.tail))

-- The ring after `k` bytes of `src` are put at the head.
put : CircularBuffer → List ℕ → ℕ → CircularBuffer
put b src k = record b {
  buffer = blit b.buffer b.head (take k src);
  head = (b.head + k) % b.capacity;
}

module _ (b : CircularBuffer) (src : List ℕ) (v : IsValid b) (k : ℕ) (short : k ≤ length src)
    (fits : Fits b k) where
  put-IsValid : IsValid (put b src k)
  unfolding put
  put-IsValid = record {
    sized = length-blit b.buffer b.head (take k src) ∙ v.sized;
    head_in = ground (arith, wrap_cases (b.head + k) b.capacity, v.head_in, v.tail_in);
    tail_in = v.tail_in;
  }

  abbrev cells : List ℕ
  cells = blit b.buffer b.head (take k src)

  taken : length (take k src) ≡ k
  taken = omega (arith, length-take k src)

  inside : b.head + k ≤ length b.buffer
  inside = ground (arith, v.sized, v.tail_in)

  written : seg cells b.head k ≡ take k src
  written =
      ap (seg cells b.head) (sym taken)
      ∙ seg-blit_self b.buffer b.head (take k src) (omega (arith, taken, inside))

  -- A segment that ended at the old head ends with the new bytes at the new one.
  grow :
      (i : ℕ)
      → i ≤ b.head
      → seg cells i (b.head + k - i) ≡ seg b.buffer i (b.head - i) ++ take k src
  grow i h =
      ap (seg cells i) {y = (b.head - i) + k} (omega arith)
      ∙ seg_split cells i (b.head - i) k
      ∙ ap₂ ◌++◌ (seg-blit_before b.buffer i (b.head - i) b.head (take k src) (omega arith))
          (ap (λ j. seg cells j k) {y = b.head} (omega arith) ∙ written)

  put-contents : contents (put b src k) ≡ contents b ++ take k src
  unfolding contents put
  put-contents = elim fits [
    | inl (le, room) ↦ ground (
      arith,
      v.head_in,
      v.tail_in,
      wrap_cases (b.head + k) b.capacity,
      grow b.tail le,
      seg_zero cells 0,
      append-nil (seg cells b.tail (b.capacity - b.tail)),
    )
    | inr (lt, room) ↦ ground (
      arith,
      v.head_in,
      v.tail_in,
      wrap_cases (b.head + k) b.capacity,
      grow 0 (omega arith),
      seg-blit_after b.buffer b.tail (b.capacity - b.tail) b.head (take k src)
          (omega (arith, taken)),
      append_assoc (seg b.buffer b.tail (b.capacity - b.tail)) (seg b.buffer 0 b.head) (take k src),
    )
  ]

-- `k` more bytes of `src` are held; the block keeps its size.
record Appends (b : CircularBuffer) (src : List ℕ) (k : ℕ) (b' : CircularBuffer) : Type 0 where
  valid : IsValid b'
  same : b'.capacity ≡ b.capacity
  short : k ≤ length src
  held : contents b' ≡ contents b ++ take k src

put-Appends :
    (b : CircularBuffer) (src : List ℕ)
    → IsValid b
    → (k : ℕ) → k ≤ length src
    → Fits b k
    → Appends b src k (put b src k)
unfolding put
put-Appends b src v k short fits = record {
  valid = put-IsValid b src v k short fits;
  same = refl;
  short = short;
  held = put-contents b src v k short fits;
}

stay-Appends : (b : CircularBuffer) (src : List ℕ) → IsValid b → Appends b src 0 b
stay-Appends b src v = record {
  valid = v;
  same = refl;
  short = omega arith;
  held = sym (append-nil (contents b));
}

memcpy-put :
    (b : CircularBuffer) (src : List ℕ) (k : ℕ)
    → IsValid b
    → k ≤ length src
    → Fits b k
    → memcpy b.buffer b.head (take k src) ≡ some (blit b.buffer b.head (take k src))
unfolding memcpy
memcpy-put b src k v short fits = ground (arith, v.sized, v.head_in, v.tail_in, length-take k src)

upper_lem :
    (b : CircularBuffer) (src : List ℕ)
    → IsValid b
    → (k : ℕ) × (b' : CircularBuffer) × (write_upper b src ≡ some (k, b'))
      × Appends b src k b'
      × ((b'.head < b'.tail) ⊎ (k ≡ min (length src) (room b)))
unfolding write_upper put size
upper_lem b src v = elim (Bool-cases (leb b.tail b.head)) [
  | inl le ↦
      let k : ℕ = min ((b.capacity - b.head) - (if b.tail == 0 then 1 else 0)) (length src) in
      let short : k ≤ length src = omega arith in
      let fits : Fits b k = inl (leb→le _ _ le, ground (arith, v.head_in)) in
      (
        k,
        put b src k,
        rw (le, memcpy-put b src k v short fits) refl,
        put-Appends b src v k short fits,
        ground (arith, leb→le _ _ le, wrap_cases (b.head + k) b.capacity, v.head_in, v.tail_in),
      )
  | inr gt ↦ (0, b, rw gt refl, stay-Appends b src v, inl (ground arith))
]

lower_lem :
    (b : CircularBuffer) (src : List ℕ)
    → IsValid b
    → (k : ℕ) × (b' : CircularBuffer) × (write_lower b src ≡ some (k, b'))
      × Appends b src k b'
      × (b.head < b.tail → k ≡ min (length src) (room b))
unfolding write_lower put size
lower_lem b src v = elim (Bool-cases (ltb b.head b.tail)) [
  | inl lt ↦
      let k : ℕ = min (b.tail - b.head - 1) (length src) in
      let short : k ≤ length src = omega arith in
      let below : b.head < b.tail = ltb→lt _ _ lt in
      let fits : Fits b k = inr (below, omega arith) in
      (
        k,
        put b src k,
        rw (lt, memcpy-put b src k v short fits) refl,
        put-Appends b src v k short fits,
        λ _. ground (arith, below, v.tail_in),
      )
  | inr ge ↦ (0, b, rw ge refl, stay-Appends b src v, λ h. absurd (ground arith))
]

sizes :
    {b b' : CircularBuffer} {src : List ℕ} {k : ℕ}
    → Appends b src k b'
    → IsValid b
    → size b' ≡ size b + k
sizes {b} {b'} {src} {k} s v = omega (
  arith,
  length-contents s.valid,
  length-contents v,
  ap length s.held,
  length-append (contents b) (take k src),
  length-take k src,
  s.short,
)

-- Write on a valid ring takes as many bytes as fit, from the front of the source, and they go
-- behind the bytes already held; it never writes outside the block, and the ring stays valid.
pub write_lem :
    (b : CircularBuffer) (src : List ℕ)
    → IsValid b
    → (b' : CircularBuffer) × (write b src ≡ some (min (length src) (room b), b'))
      × IsValid b'
      × (b'.capacity ≡ b.capacity)
      × (contents b' ≡ contents b ++ take (min (length src) (room b)) src)
unfolding write
write_lem b src v =
    let (k₁, b₁, first, s₁, more) = upper_lem b src v in
    let (k₂, b₂, second, s₂, full) = lower_lem b₁ (drop k₁ src) s₁.valid in
    let grown₁ : size b₁ ≡ size b + k₁ = sizes s₁ v in
    let grown₂ : size b₂ ≡ size b₁ + k₂ = sizes s₂ s₁.valid in
    let count : k₁ + k₂ ≡ min (length src) (room b) = ground (
      arith,
      more,
      full,
      s₁.short,
      s₂.short,
      s₁.same,
      s₂.same,
      length-drop k₁ src,
      size_bound s₂.valid,
    ) in
    (
      b₂,
      rw (first, second) (ap (λ n. some (n, b₂)) count),
      s₂.valid,
      s₂.same ∙ s₁.same,
      s₂.held
          ∙ ap (λ c. c ++ take k₂ (drop k₁ src)) s₁.held
          ∙ append_assoc (contents b) (take k₁ src) (take k₂ (drop k₁ src))
          ∙ ap (λ c. contents b ++ c) (sym (take-take src k₁ k₂))
          ∙ ap (λ n. contents b ++ take n src) count,
    )
