-- ===== src/Usb/Ring.antt =====
-- `Ring` of kernel/usb/xhci/ring.cpp: the transfer ring that the driver fills and the controller
-- empties. The cycle bit of each TRB tells the controller which ones are new.
use Prim.Native.Nat.{bit_and, bit_or}
use mathlib.Core.Path.{subst}
use kin_os.Base.{
  ℕ, zero, suc, ◌+◌, ◌-◌, ◌*◌, ◌/◌, ◌%◌, ◌^◌, ◌≤◌, ◌<◌, ◌≡◌, refl, ◌≢◌, ◌∙◌, Bool, true, false, not,
  Option, none, some, List, [], ◌==◌, if◌then◌else◌, arith, length, get_or, set, replicate,
  length-set, get_or-set_self, get_or-set_ne, Bool-cases, inl, inr, ap, sym,
}
use kin_os.Base.Bits.{test_bit, test_bit-bit_and, test_bit-bit_or}
use kin_os.Error.{Error, success, no_enough_memory}

-- `std::array<uint32_t, 4>`
pub record Trb : Type 0 where
  pub d0 : ℕ
  pub d1 : ℕ
  pub d2 : ℕ
  pub d3 : ℕ

abbrev pub zero_trb : Trb
zero_trb = record { d0 = 0; d1 = 0; d2 = 0; d3 = 0 }

-- `base` is the address of `buf_`.
pub record Ring : Type 0 where
  pub base : ℕ
  pub buf : List Trb
  pub buf_size : ℕ
  pub cycle_bit : Bool
  pub write_index : ℕ

-- `Initialize`, given what `AllocArray` answers.
unfoldable pub initialize : Ring → ℕ → Option ℕ → Error × Ring
initialize r buf_size none = (
  no_enough_memory,
  record r { base = 0; buf = []; buf_size = buf_size; cycle_bit = true; write_index = 0 },
)
initialize r buf_size (some base) = (
  success,
  record r {
    base = base;
    buf = replicate buf_size zero_trb;
    buf_size = buf_size;
    cycle_bit = true;
    write_index = 0;
  },
)

abbrev pub bit_of : Bool → ℕ
bit_of true = 1
bit_of false = 0

-- The TRB with the producer's cycle bit.
abbrev pub stamp : Bool → Trb → Trb
stamp c t = record t { d3 = bit_or (bit_and t.d3 0xfffffffe) (bit_of c) }

unfoldable pub copy_to_last : Ring → Trb → Ring
copy_to_last r t = record r { buf = set r.buf r.write_index (stamp r.cycle_bit t) }

-- A `LinkTRB` to `base`, of type 6, with `toggle_cycle` set.
abbrev pub link_trb : ℕ → Trb
link_trb base = record {
  d0 = base / 16 * 16 % 2 ^ 32;
  d1 = base / 2 ^ 32;
  d2 = 0;
  d3 = 6 * 2 ^ 10 + 2;
}

-- The end of `Push`, once `write_index_` has reached the last place.
unfoldable pub wrap : Ring → Ring
wrap r = record (copy_to_last r (link_trb r.base)) { write_index = 0; cycle_bit = not r.cycle_bit }

abbrev pub advanced : Ring → Trb → Ring
advanced r t = record (copy_to_last r t) { write_index = r.write_index + 1 }

unfoldable pub push : Ring → Trb → ℕ × Ring
push r t =
    let next = advanced r t in
    (r.write_index, if r.write_index + 1 == r.buf_size - 1 then wrap next else next)

-- Whether the TRB at `i` carries the cycle bit 1.
abbrev pub cycle_at : Ring → ℕ → Bool
cycle_at r i = test_bit 0 (get_or r.buf i zero_trb).d3

-- The places that the producer has filled in this round carry its cycle bit, and all the others, the
-- link's too, the other one: the controller takes the filled ones for new and stops there.
pub record IsValid (r : Ring) : Type 0 where
  pub size : length r.buf ≡ r.buf_size
  pub room : r.write_index + 1 < r.buf_size
  pub filled : (i : ℕ) → i < r.write_index → cycle_at r i ≡ r.cycle_bit
  pub open_places : (i : ℕ) → r.write_index ≤ i → i < r.buf_size → cycle_at r i ≡ not r.cycle_bit

test_bit-stamp : (c : Bool) (t : Trb) → test_bit 0 (stamp c t).d3 ≡ c
test_bit-stamp true t =
    test_bit-bit_or 0 (bit_and t.d3 0xfffffffe) 1
    ∙ ground (arith, test_bit-bit_and 0 t.d3 0xfffffffe)
test_bit-stamp false t =
    test_bit-bit_or 0 (bit_and t.d3 0xfffffffe) 0
    ∙ ground (arith, test_bit-bit_and 0 t.d3 0xfffffffe)

cycle_at-copy :
    (r : Ring) (t : Trb) (i : ℕ)
    → r.write_index < length r.buf
    → cycle_at (copy_to_last r t) i ≡ (if r.write_index == i then r.cycle_bit else cycle_at r i)
unfolding copy_to_last
cycle_at-copy r t i lt = elim (Bool-cases (r.write_index == i)) [
  | inl e ↦
      let p : r.write_index ≡ i = ground arith in
      rw e (
        subst
          (λ k.
            test_bit 0 (get_or (set r.buf r.write_index (stamp r.cycle_bit t)) k zero_trb).d3
            ≡ r.cycle_bit)
          p
          (ap (λ (u : Trb). test_bit 0 u.d3)
              (get_or-set_self r.buf r.write_index (stamp r.cycle_bit t) zero_trb lt)
            ∙ test_bit-stamp r.cycle_bit t))
  | inr e ↦ rw e (
      ap (λ (u : Trb). test_bit 0 u.d3)
        (get_or-set_ne r.buf r.write_index i (stamp r.cycle_bit t) zero_trb (ground arith)))
]

-- A new ring of two places or more is valid: nothing is filled.
pub initialize-IsValid : (r : Ring) (n base : ℕ) → 1 < n → IsValid (initialize r n (some base)).1
unfolding initialize
initialize-IsValid r n base h = record {
  size = length-replicate n;
  room = omega arith;
  filled = λ i lt. absurd (omega arith);
  open_places = λ i le lt. ap (λ (u : Trb). test_bit 0 u.d3) (get_or-replicate n i);
}
  where
    length-replicate : (k : ℕ) → length (replicate k zero_trb) ≡ k
    length-replicate zero = refl
    length-replicate (suc k) = ap suc (length-replicate k)

    get_or-replicate : (k i : ℕ) → get_or (replicate k zero_trb) i zero_trb ≡ zero_trb
    get_or-replicate zero i = refl
    get_or-replicate (suc k) zero = refl
    get_or-replicate (suc k) (suc i) = get_or-replicate k i

-- What `Push` of `t` promises: a valid ring; the index of the first open place; there the TRB, stamped
-- with the cycle bit; every other place as it was, but the last one, the link's.
pub record Pushed (r : Ring) (t : Trb) (out : ℕ × Ring) : Type 0 where
  pub valid : IsValid out.1
  pub index : out.0 ≡ r.write_index
  pub stored : get_or out.1.buf r.write_index zero_trb ≡ stamp r.cycle_bit t
  pub others :
      (i : ℕ)
      → i ≢ r.write_index
      → i + 1 ≢ r.buf_size
      → get_or out.1.buf i zero_trb ≡ get_or r.buf i zero_trb

-- What copying to the last place leaves as it was.
copy_keeps :
    (r : Ring) (t : Trb)
    → (length (copy_to_last r t).buf ≡ length r.buf)
      × ((copy_to_last r t).cycle_bit ≡ r.cycle_bit)
      × ((copy_to_last r t).buf_size ≡ r.buf_size)
      × ((copy_to_last r t).write_index ≡ r.write_index)
      × ((copy_to_last r t).base ≡ r.base)
unfolding copy_to_last
copy_keeps r t = (length-set r.buf r.write_index (stamp r.cycle_bit t), refl, refl, refl, refl)

get_or-copy_self :
    (r : Ring) (t : Trb)
    → r.write_index < length r.buf
    → get_or (copy_to_last r t).buf r.write_index zero_trb ≡ stamp r.cycle_bit t
unfolding copy_to_last
get_or-copy_self r t lt = get_or-set_self r.buf r.write_index (stamp r.cycle_bit t) zero_trb lt

get_or-copy_ne :
    (r : Ring) (t : Trb) (i : ℕ)
    → r.write_index ≢ i
    → get_or (copy_to_last r t).buf i zero_trb ≡ get_or r.buf i zero_trb
unfolding copy_to_last
get_or-copy_ne r t i ne = get_or-set_ne r.buf r.write_index i (stamp r.cycle_bit t) zero_trb ne

module _ {r : Ring} (t : Trb) (v : IsValid r) where
  advanced-Pushed : r.write_index + 1 ≢ r.buf_size - 1 → Pushed r t (r.write_index, advanced r t)
  advanced-Pushed ne = record {
    valid = record {
      size = omega (arith, copy_keeps r t, v.size);
      room = omega (arith, copy_keeps r t, v.room);
      filled =
          λ i lt. ground (arith, copy_keeps r t, cycle_at-copy r t i, v.size, v.room, v.filled i);
      open_places = λ i le lt.
          ground (arith, copy_keeps r t, cycle_at-copy r t i, v.size, v.room, v.open_places i);
    };
    index = refl;
    stored = get_or-copy_self r t (omega (arith, v.size, v.room));
    others = λ i ne last. get_or-copy_ne r t i (λ e. ne (sym e));
  }

  wrap-Pushed : r.write_index + 1 ≡ r.buf_size - 1 → Pushed r t (r.write_index, wrap (advanced r t))
  unfolding wrap
  wrap-Pushed e =
      let a : Ring = advanced r t in
      let link : Trb = link_trb a.base in
      let lt : a.write_index < length a.buf = omega (arith, copy_keeps r t, v.size, v.room) in
      record {
        valid = record {
          size = omega (arith, copy_keeps a link, copy_keeps r t, v.size);
          room = omega (arith, copy_keeps a link, copy_keeps r t, v.room);
          filled = λ i none_yet. absurd (omega arith);
          open_places = λ i le up. ground (
            arith,
            copy_keeps a link,
            copy_keeps r t,
            cycle_at-copy a link i lt,
            cycle_at-copy r t i,
            v.size,
            v.room,
            v.filled i,
          );
        };
        index = refl;
        stored =
            get_or-copy_ne a link r.write_index (omega arith)
            ∙ get_or-copy_self r t (omega (arith, v.size, v.room));
        others = λ i ne last.
            get_or-copy_ne a link i (omega (arith, v.room))
            ∙ get_or-copy_ne r t i (λ q. ne (sym q));
      }

  -- `Push` on a valid ring, past its end too, keeps the ring valid. It puts the TRB, stamped with the
  -- cycle bit, at the first open place, whose index it returns; of the other places it writes at most
  -- the last one, the link's.
  pub push-Pushed : Pushed r t (push r t)
  unfolding push
  push-Pushed = elim (Bool-cases (r.write_index + 1 == r.buf_size - 1)) [
    | inl e ↦ rw e (wrap-Pushed (ground arith))
    | inr e ↦ rw e (advanced-Pushed (ground arith))
  ]
