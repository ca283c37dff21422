-- ===== src/Usb/Pool.antt =====
-- kernel/usb/memory.cpp: the driver's allocator, which only moves on through a pool. Addresses are 64
-- bits wide; 0 is `nullptr`. `FreeMem` does nothing.
use Prim.Native.Nat.{bit_and}
use kin_os.Base.{
  ℕ, zero, suc, ◌+◌, ◌-◌, ◌*◌, ◌%◌, ◌^◌, ◌≤◌, ◌<◌, ◌≡◌, refl, true, Option, none, some, ltb,
  if◌then◌else◌, arith, Bool-cases, inl, inr, ◌∙◌, ap, ◌⊎◌, ◌==◌, lt→ltb, List, [], ◌∷◌,
}
use native.Mathlib.Nat.{pow-suc, one-le-pow, pow-le-pow_right}
use kin_os.Base.Bits.{bit_and_floor}

abbrev pub word : ℕ
word = 2 ^ 64

-- `(value + alignment - 1) & ~static_cast<T>(alignment - 1)`
unfoldable pub ceil : ℕ → ℕ → ℕ
ceil value alignment = bit_and ((value + alignment - 1) % word) (word - alignment)

-- The pool that `memory_pool` is, and where the next allocation may begin.
pub record Pool : Type 0 where
  pub base : ℕ
  pub size : ℕ
  pub alloc_ptr : ℕ

-- `alloc_ptr` after the alignment, and after the step to the next boundary.
unfoldable pub aligned : Pool → ℕ → ℕ
aligned p alignment = if ltb 0 alignment then ceil p.alloc_ptr alignment else p.alloc_ptr

unfoldable pub past_boundary : ℕ → ℕ → ℕ → ℕ
past_boundary start size boundary =
    if ltb 0 boundary
    then (if ltb (ceil start boundary) ((start + size) % word) then ceil start boundary else start)
    else start

unfoldable pub alloc_mem : Pool → ℕ → ℕ → ℕ → Option ℕ × Pool
alloc_mem p size alignment boundary =
    let start = past_boundary (aligned p alignment) size boundary in
    let end = (start + size) % word in
    if ltb ((p.base + p.size) % word) end
    then (none, record p { alloc_ptr = start })
    else (some start, record p { alloc_ptr = end })

-- `x` is a multiple of `m`.
abbrev pub IsMultiple : ℕ → ℕ → Type 0
IsMultiple x m = (q : ℕ) × (x ≡ q * m)

-- Rounding up to a power of two, short of the end of the address space: the least multiple from the
-- address on.
pub ceil_lem :
    (value k : ℕ)
    → k ≤ 64
    → value + 2 ^ k ≤ word
    → (value ≤ ceil value (2 ^ k))
      × (ceil value (2 ^ k) < value + 2 ^ k)
      × IsMultiple (ceil value (2 ^ k)) (2 ^ k)
unfolding ceil
ceil_lem value k le fits =
    let pos : 1 ≤ 2 ^ k = one-le-pow k 2 (omega arith) in
    let m : (value + 2 ^ k - 1) % word ≡ value + 2 ^ k - 1 = omega arith in
    let (below, above, q, e) = bit_and_floor 64 k ((value + 2 ^ k - 1) % word) le (omega arith) in
    (omega arith, omega arith, (q, e))

-- Two multiples are the same, or a whole step apart.
steps : (j q m : ℕ) → (j * m + m ≤ q * m) ⊎ (q * m ≤ j * m)
steps j q m = elim (Bool-cases (ltb j q)) [
  | inl e ↦ let lt : j + 1 ≤ q = ground arith in inl (grind arith)
  | inr e ↦ let le : q ≤ j = ground arith in inr (grind arith)
]

pow-IsMultiple : (a b : ℕ) → a ≤ b → IsMultiple (2 ^ b) (2 ^ a)
pow-IsMultiple a zero le = let e : a ≡ 0 = omega arith in rw e (1, refl)
pow-IsMultiple a (suc b) le = elim (Bool-cases (a == suc b)) [
  | inl e ↦ let p : a ≡ suc b = ground arith in rw p (1, omega arith)
  | inr e ↦ let (q, p) = pow-IsMultiple a b (ground arith) in (2 * q, omega (arith, pow-suc 2 b))
]

IsMultiple-trans : (x m n : ℕ) → IsMultiple x m → IsMultiple m n → IsMultiple x n
IsMultiple-trans x m n (q, e) (r, f) = (q * r, e ∙ (ap (λ t. q * t) f ∙ omega arith))

-- No multiple of `m` lies inside the `size` bytes from `start` on.
abbrev pub Within : ℕ → ℕ → ℕ → Type 0
Within start size m = (j : ℕ) → start < j * m → start + size ≤ j * m

-- The step to the next boundary goes at most one boundary on, and what begins there crosses none.
past_boundary_lem :
    (start size a b : ℕ)
    → a ≤ b
    → b ≤ 64
    → size ≤ 2 ^ b
    → start + 2 ^ b < word
    → IsMultiple start (2 ^ a)
    → (start ≤ past_boundary start size (2 ^ b))
      × (past_boundary start size (2 ^ b) < start + 2 ^ b)
      × IsMultiple (past_boundary start size (2 ^ b)) (2 ^ a)
      × Within (past_boundary start size (2 ^ b)) size (2 ^ b)
unfolding past_boundary
past_boundary_lem start size a b le le64 small fits mult =
    let some_way : 1 ≤ 2 ^ b = one-le-pow b 2 (omega arith) in
    let pos : ltb 0 (2 ^ b) ≡ true = lt→ltb 0 (2 ^ b) (one-le-pow b 2 (omega arith)) in
    let (above, below, at) = ceil_lem start b le64 (omega arith) in
    let whole : (start + size) % word ≡ start + size = omega arith in
    let q : ℕ = at.0 in
    let e : ceil start (2 ^ b) ≡ q * 2 ^ b = at.1 in
    elim (Bool-cases (ltb (ceil start (2 ^ b)) (start + size))) [
      | inl c ↦
          rw (pos, whole, c)
            (
              above,
              below,
              IsMultiple-trans (ceil start (2 ^ b)) (2 ^ b) (2 ^ a) at (pow-IsMultiple a b le),
              λ j lt. elim (steps q j (2 ^ b)) [
                | inl s ↦ omega arith
                | inr s ↦ absurd (omega arith)
              ],
            )
      | inr c ↦
          rw (pos, whole, c)
            (
              omega arith,
              omega arith,
              mult,
              λ j lt. elim (steps j q (2 ^ b)) [
                | inl s ↦ absurd (omega arith)
                | inr s ↦ ground arith
              ],
            )
    ]

aligned_lem : (p : Pool) (a : ℕ) → aligned p (2 ^ a) ≡ ceil p.alloc_ptr (2 ^ a)
unfolding aligned
aligned_lem p a = rw (lt→ltb 0 (2 ^ a) (one-le-pow a 2 (omega arith))) refl

-- A call of `AllocMem` with alignment `2 ^ a` and boundary `2 ^ b`, the first not above the second, and a
-- size up to the boundary, where neither the pool nor three boundaries from `alloc_ptr` on reach the end of
-- the address space.
pub record Fits (p : Pool) (size a b : ℕ) : Type 0 where
  pub order : a ≤ b
  pub boundary : b ≤ 31
  pub small : size ≤ 2 ^ b
  pub room : p.alloc_ptr + 2 ^ b + 2 ^ b + 2 ^ b < word
  pub pool : p.base + p.size < word

-- The place that the call comes to, whether the pool has room there or not.
abbrev pub place : Pool → (size a b : ℕ) → ℕ
place p size a b = past_boundary (ceil p.alloc_ptr (2 ^ a)) size (2 ^ b)

place_lem :
    (p : Pool) (size a b : ℕ)
    → Fits p size a b
    → (p.alloc_ptr ≤ place p size a b)
      × (place p size a b + size < word)
      × IsMultiple (place p size a b) (2 ^ a)
      × Within (place p size a b) size (2 ^ b)
place_lem p size a b f =
    let pa : 2 ^ a ≤ 2 ^ b = pow-le-pow_right (omega arith) f.order in
    let (above, below, mult) = ceil_lem p.alloc_ptr a (omega (arith, f)) (omega (arith, f)) in
    let (on, short, at, inside) =
      past_boundary_lem (ceil p.alloc_ptr (2 ^ a)) size a b f.order (omega (arith, f)) f.small
        (omega (arith, f)) mult in
    (omega arith, omega (arith, f), at, inside)

-- Both outcomes of the call.
alloc_mem_cases :
    (p : Pool) (size a b : ℕ)
    → Fits p size a b
    → alloc_mem p size (2 ^ a) (2 ^ b) ≡ (
        if ltb (p.base + p.size) (place p size a b + size)
        then (none, record p { alloc_ptr = place p size a b })
        else (some (place p size a b), record p { alloc_ptr = place p size a b + size }))
unfolding alloc_mem
alloc_mem_cases p size a b f =
    let (on, short, at, inside) = place_lem p size a b f in
    let whole : (place p size a b + size) % word ≡ place p size a b + size = omega arith in
    let end : (p.base + p.size) % word ≡ p.base + p.size = omega (arith, f) in
    rw (aligned_lem p a) (rw (whole, end) refl)

alloc_mem_lem :
    (p p' : Pool) (size a b : ℕ) (o : Option ℕ)
    → Fits p size a b
    → alloc_mem p size (2 ^ a) (2 ^ b) ≡ (o, p')
    → (p'.base ≡ p.base)
      × (p'.size ≡ p.size)
      × (p.alloc_ptr ≤ p'.alloc_ptr)
      × ((start : ℕ)
          → o ≡ some start
          → (start ≡ place p size a b)
            × (start + size ≤ p.base + p.size)
            × (p'.alloc_ptr ≡ start + size))
alloc_mem_lem p p' size a b o f e =
    ground (arith, alloc_mem_cases p size a b f, place_lem p size a b f)

-- Memory that was given, with the alignment and the boundary asked for.
pub record Block : Type 0 where
  pub start : ℕ
  pub size : ℕ
  pub a : ℕ
  pub b : ℕ

-- Calls in turn, and what they gave; a call may be refused.
pub data Allocs : Pool → List Block → Type 0 where
  no_call : {p : Pool} → Allocs p []
  given :
      {p p' : Pool} {size a b start : ℕ} {blocks : List Block}
      → Fits p size a b
      → alloc_mem p size (2 ^ a) (2 ^ b) ≡ (some start, p')
      → Allocs p' blocks
      → Allocs p (record { start = start; size = size; a = a; b = b } ∷ blocks)
  refused :
      {p p' : Pool} {size a b : ℕ} {blocks : List Block}
      → Fits p size a b
      → alloc_mem p size (2 ^ a) (2 ^ b) ≡ (none, p')
      → Allocs p' blocks
      → Allocs p blocks

-- The blocks lie one behind the other between two addresses, so that no two of them overlap; each is
-- aligned, and crosses no boundary.
abbrev pub InTurn : (begin end : ℕ) → List Block → Type 0
InTurn begin end [] = Unit
InTurn begin end (k ∷ blocks) =
    (begin ≤ k.start)
    × (k.start + k.size ≤ end)
    × IsMultiple k.start (2 ^ k.a)
    × Within k.start k.size (2 ^ k.b)
    × InTurn (k.start + k.size) end blocks

InTurn-later :
    (begin begin' end : ℕ) (blocks : List Block)
    → begin ≤ begin'
    → InTurn begin' end blocks
    → InTurn begin end blocks
InTurn-later begin begin' end [] le t = tt
InTurn-later begin begin' end (k ∷ blocks) le (on, inside, at, within, rest) =
    (omega arith, inside, at, within, rest)

Allocs-InTurn :
    {p : Pool} {blocks : List Block} → Allocs p blocks → InTurn p.alloc_ptr (p.base + p.size) blocks
Allocs-InTurn no_call = tt
Allocs-InTurn {p} (given {p' = p'} {size} {a} {b} {start} {blocks} f e later) =
    let (base, whole, on, gives) = alloc_mem_lem p p' size a b (some start) f e in
    let (at, inside, ptr) = gives start refl in
    let (from, short, aligned_start, within) = place_lem p size a b f in
    let rest : InTurn p'.alloc_ptr (p'.base + p'.size) blocks = Allocs-InTurn later in
    (
      rw (← at) at from,
      inside,
      rw (← at) at aligned_start,
      rw (← at) at within,
      rw (ptr, base, whole) at rest,
    )
Allocs-InTurn {p} (refused {p' = p'} {size} {a} {b} {blocks} f e later) =
    let (base, whole, on, gives) = alloc_mem_lem p p' size a b none f e in
    let rest : InTurn p'.alloc_ptr (p'.base + p'.size) blocks = Allocs-InTurn later in
    InTurn-later p.alloc_ptr p'.alloc_ptr (p.base + p.size) blocks on (rw (base, whole) at rest)

-- However often `AllocMem` is called from the beginning, with alignments and boundaries that are powers of two
-- of 32 bits, the first not above the second, with sizes up to the boundary and short of the end of the address space:
-- all that it gives lies in the pool, one block behind the other, so that no two overlap, each aligned and
-- across no boundary.
pub alloc_mem-InTurn :
    (base size : ℕ) (blocks : List Block)
    → Allocs (record { base = base; size = size; alloc_ptr = base }) blocks
    → InTurn base (base + size) blocks
alloc_mem-InTurn base size blocks calls = Allocs-InTurn calls
