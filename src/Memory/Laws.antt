-- ===== src/Memory/Laws.antt =====
-- What a client of the frame allocator relies on: marking, freeing, and their round trips.
use kin_os.Base.{
  ℕ, ◌+◌, ◌-◌, ◌*◌, ◌≤◌, ◌<◌, ◌⊎◌, ◌≡◌, refl, true, false, some, inl, inr, not, ◌&&◌, ◌||◌, arith,
  length,
}
use kin_os.Error.{success}
use kin_os.Memory.{BitmapMemoryManager, get_bit, mark_allocated, free, allocate}
use kin_os.Memory.Bits.{InMap, in_run, get_bit-set_bits, length-set_bits, range-set_bits}
use kin_os.Memory.Search.{IsFree, HasUsed, Found, NotFound, allocate_lem}

-- After `MarkAllocated` a frame of the map is in use exactly when it is one of the marked ones or was
-- in use before.
pub get_bit-mark_allocated :
    (m : BitmapMemoryManager) (s n g : ℕ)
    → InMap m g
    → get_bit (mark_allocated m s n) g ≡ (in_run s n g || get_bit m g)
unfolding mark_allocated
get_bit-mark_allocated m s n g h = ground (arith, get_bit-set_bits true s n 0 m g h)

-- After `Free` a frame of the map is in use exactly when it was and is not one of the freed ones; the
-- call reports success.
pub get_bit-free :
    (m : BitmapMemoryManager) (s n g : ℕ)
    → InMap m g
    → (get_bit (free m s n).1 g ≡ (not (in_run s n g) && get_bit m g)) × ((free m s n).0 ≡ success)
unfolding free
get_bit-free m s n g h = (ground (arith, get_bit-set_bits false s n 0 m g h), refl)

pub mark_allocated-keeps :
    (m : BitmapMemoryManager) (s n : ℕ)
    → (length (mark_allocated m s n).alloc_map ≡ length m.alloc_map)
      × ((mark_allocated m s n).range_begin ≡ m.range_begin)
      × ((mark_allocated m s n).range_end ≡ m.range_end)
unfolding mark_allocated
mark_allocated-keeps m s n =
    ground (arith, length-set_bits true s n 0 m, range-set_bits true s n 0 m)

run_free :
    (m : BitmapMemoryManager) (s n g : ℕ) → IsFree m s n → in_run s n g ≡ true → get_bit m g ≡ false
run_free m s n g f r = let e : s + (g - s) ≡ g = ground arith in rw e at (f (g - s) (ground arith))

-- What a successful `Allocate` did.
allocate_inv :
    (m m' : BitmapMemoryManager) (n s : ℕ)
    → allocate m n ≡ some (record { value = s; error = success }, m')
    → Found m n (allocate m n) s × (m' ≡ mark_allocated m s n)
allocate_inv m m' n s e = elim (allocate_lem m n) [
  | inl (s', f) ↦
      let p : s' ≡ s = cc (f.0, e) in
      let q : m' ≡ mark_allocated m s' n = cc (f.0, e) in (rw p at f, rw p at q)
  | inr (inl f) ↦ cc (f.0, e)
  | inr (inr f) ↦ cc (f.0, e)
]

-- A frame of the map that an `Allocate` gave was free and is in use now; every other frame keeps its bit,
-- and the range's ends and the map's size stay.
pub allocate_marks :
    (m m' : BitmapMemoryManager) (n s g : ℕ)
    → allocate m n ≡ some (record { value = s; error = success }, m')
    → InMap m g
    → (get_bit m' g ≡ (in_run s n g || get_bit m g))
      × (in_run s n g ≡ true → get_bit m g ≡ false)
      × (length m'.alloc_map ≡ length m.alloc_map)
      × (m'.range_begin ≡ m.range_begin)
      × (m'.range_end ≡ m.range_end)
allocate_marks m m' n s g e h =
    let inv : Found m n (allocate m n) s × (m' ≡ mark_allocated m s n) = allocate_inv m m' n s e in
    rw (inv.1) (
      get_bit-mark_allocated m s n g h,
      (λ r. run_free m s n g inv.0.3 r),
      (mark_allocated-keeps m s n).0,
      (mark_allocated-keeps m s n).1,
      (mark_allocated-keeps m s n).2,
    )

-- `Allocate` of frames of a range that the map holds always returns. Either it returns the first run of
-- `num_frames` free frames between the range's ends; each of them is in use after that, and every other
-- frame of the map keeps its bit. Or there is no such run, and it returns the null frame with
-- `kNoEnoughMemory` and changes nothing.
pub allocate-Allocated :
    (m : BitmapMemoryManager) (n : ℕ)
    → m.range_end ≤ length m.alloc_map * 64
    → ((s : ℕ) × (m' : BitmapMemoryManager) × (allocate m n
          ≡ some (record { value = s; error = success }, m'))
        × (m.range_begin ≤ s)
        × (0 < n → s + n ≤ m.range_end)
        × IsFree m s n
        × ((t : ℕ) → m.range_begin ≤ t → t < s → HasUsed m t n)
        × ((i : ℕ) → i < n → get_bit m' (s + i) ≡ true)
        × ((g : ℕ) → InMap m g → in_run s n g ≡ false → get_bit m' g ≡ get_bit m g)
        × (length m'.alloc_map ≡ length m.alloc_map)
        × (m'.range_begin ≡ m.range_begin)
        × (m'.range_end ≡ m.range_end))
      ⊎ NotFound m n (allocate m n)
allocate-Allocated m n held = elim (allocate_lem m n) [
  | inr (inl f) ↦ inr f
  | inr (inr f) ↦ absurd (omega (arith, f.1, held))
  | inl (s, (e, lo, fits, no_used, before)) ↦ inl (
    s,
    mark_allocated m s n,
    e,
    lo,
    fits,
    no_used,
    before,
    (λ i lt.
        let inside : InMap m (s + i) = omega (arith, fits) in
        ground (arith, get_bit-mark_allocated m s n (s + i) inside)),
    (λ g inside off. ground (arith, get_bit-mark_allocated m s n g inside)),
    (mark_allocated-keeps m s n).0,
    (mark_allocated-keeps m s n).1,
    (mark_allocated-keeps m s n).2,
  )
]

-- Two frames that two `Allocate` calls in turn give are different ones: no frame is handed out twice.
pub allocate-allocate_disjoint :
    (m m' m'' : BitmapMemoryManager) (n n' s s' g : ℕ)
    → allocate m n ≡ some (record { value = s; error = success }, m')
    → allocate m' n' ≡ some (record { value = s'; error = success }, m'')
    → InMap m g
    → in_run s n g ≡ true
    → in_run s' n' g ≡ false
allocate-allocate_disjoint m m' m'' n n' s s' g e e' h i =
    ground (arith, allocate_marks m m' n s g e h, allocate_marks m' m'' n' s' g e')

-- Freeing what an `Allocate` gave restores every bit of the map.
pub free-allocate :
    (m m' : BitmapMemoryManager) (n s g : ℕ)
    → allocate m n ≡ some (record { value = s; error = success }, m')
    → InMap m g
    → get_bit (free m' s n).1 g ≡ get_bit m g
free-allocate m m' n s g e h = ground (arith, allocate_marks m m' n s g e h, get_bit-free m' s n g)
