-- ===== src/Fs/Read/Laws.antt =====
-- What the messages of a read hold together: the bytes of the file.
use mathlib.Core.Path.{subst}
use mathlib.Core.List.{append-nil, append_assoc}
use kin_os.Base.{
  ℕ, zero, suc, ◌+◌, ◌-◌, ◌≤◌, ◌<◌, ◌≡◌, refl, sym, ap, ◌∙◌, true, false, ◌&&◌, List, [], ◌∷◌, ◌++◌,
  ◌==◌, leb, ltb, set, get_or, if◌then◌else◌, length, take, drop, arith, length-set, Bool-cases,
  inl, inr,
}
use kin_os.Message.{ReadArg}
use kin_os.Am.Fat.Laws.{all_full}
use kin_os.Fs.Read.{Reading, msg_size, put_byte, read_byte, read_bytes}

abbrev pub bodies : List ReadArg → List ℕ
bodies [] = []
bodies (a ∷ rest) = take a.len a.bytes ++ bodies rest

-- The bytes that went out, and those that wait in the message.
abbrev pub payload : Reading → List ℕ
payload r = bodies r.sent ++ take r.msg_offset r.arg.bytes

pub record IsReading (r : Reading) : Type 0 where
  pub small : r.msg_offset < msg_size
  pub size : length r.arg.bytes ≡ msg_size
  pub full : all_full r.sent ≡ true

pub bodies-append : (xs ys : List ReadArg) → bodies (xs ++ ys) ≡ bodies xs ++ bodies ys
bodies-append [] ys = refl
bodies-append (a ∷ xs) ys =
    ap (λ zs. take a.len a.bytes ++ zs) (bodies-append xs ys)
    ∙ sym (append_assoc (take a.len a.bytes) (bodies xs) (bodies ys))

pub all_full-append :
    (xs : List ReadArg) (a : ReadArg)
    → all_full xs ≡ true
    → (a.len == 0) ≡ false
    → all_full (xs ++ (a ∷ [])) ≡ true
all_full-append [] a f n = ground arith
all_full-append (b ∷ xs) a f n = ground (arith, all_full-append xs a)

take-set :
    (xs : List ℕ) (i x : ℕ) → i < length xs → take (i + 1) (set xs i x) ≡ take i xs ++ (x ∷ [])
take-set [] i x lt = absurd (omega arith)
take-set (y ∷ ys) zero x lt = refl
take-set (y ∷ ys) (suc i) x lt =
    let e : suc (i + 1) ≡ suc i + 1 = omega arith in
    subst (λ k. take k (y ∷ set ys i x) ≡ y ∷ (take i ys ++ (x ∷ []))) e
      (ap (λ zs. y ∷ zs) (take-set ys i x (omega arith)))

record Puts (x : ℕ) (r r' : Reading) : Type 0 where
  good : IsReading r'
  bytes : payload r' ≡ payload r ++ (x ∷ [])
  place : r'.p ≡ r.p + 1
  count : r'.sent_bytes ≡ r.sent_bytes + 1
  total : r'.total ≡ r.total

put_byte-Puts : (x : ℕ) (r : Reading) → IsReading r → Puts x r (put_byte x r)
unfolding put_byte
put_byte-Puts x r g =
    let small = g.small in
    let size = g.size in
    let t : take (r.msg_offset + 1) (set r.arg.bytes r.msg_offset x)
        ≡ take r.msg_offset r.arg.bytes ++ (x ∷ []) =
      take-set r.arg.bytes r.msg_offset x (omega (arith, size)) in
    let l = length-set r.arg.bytes r.msg_offset x in
    let a = append_assoc (bodies r.sent) (take r.msg_offset r.arg.bytes) (x ∷ []) in
    elim (Bool-cases (r.msg_offset + 1 == msg_size)) [
      | inr n ↦
          rw (put_byte, n)
            (record {
              good = record { small = ground arith; size = l ∙ size; full = g.full };
              bytes = ap (λ zs. bodies r.sent ++ zs) t ∙ sym a;
              place = refl;
              count = refl;
              total = refl;
            })
      | inl y ↦
          rw (put_byte, y)
            (record {
              good = record {
                small = omega arith;
                size = l ∙ size;
                full = all_full-append r.sent _ g.full refl;
              };
              bytes =
                  append-nil (
                    bodies (
                      r.sent
                      ++ (record r.arg { bytes = set r.arg.bytes r.msg_offset x; len = msg_size }
                          ∷ [])))
                  ∙ (bodies-append r.sent (
                        record r.arg { bytes = set r.arg.bytes r.msg_offset x; len = msg_size }
                        ∷ [])
                      ∙ (ap (λ zs. bodies r.sent ++ zs)
                            (append-nil (take msg_size (set r.arg.bytes r.msg_offset x))
                              ∙ (ap (λ k. take k (set r.arg.bytes r.msg_offset x))
                                    (let e : msg_size ≡ r.msg_offset + 1 = ground arith in e)
                                  ∙ t))
                          ∙ sym a));
              place = refl;
              count = refl;
              total = refl;
            })
    ]

-- Bytes that were read, and how many.
pub record Reads (n : ℕ) (xs : List ℕ) (r r' : Reading) : Type 0 where
  pub good : IsReading r'
  pub bytes : payload r' ≡ payload r ++ xs
  pub count : r'.sent_bytes ≡ r.sent_bytes + n
  pub total : r'.total ≡ r.total + n

read_byte-Puts :
    (buf : List ℕ) (off : ℕ) (r : Reading)
    → IsReading r
    → off ≤ r.total
    → Reads 1 (get_or buf r.p 0 ∷ []) r (read_byte buf off r) × ((read_byte buf off r).p ≡ r.p + 1)
unfolding read_byte
read_byte-Puts buf off r g le =
    let q = put_byte-Puts (get_or buf r.p 0) r g in
    let e : leb off r.total ≡ true = ground arith in
    let good = q.good in
    rw (read_byte, e)
      (
        record {
          good = record { small = good.small; size = good.size; full = good.full };
          bytes = q.bytes;
          count = q.count;
          total = ap (λ k. k + 1) q.total;
        },
        q.place,
      )

-- The smaller of two numbers.
unfoldable pub least : ℕ → ℕ → ℕ
least a b = if leb a b then a else b

least-suc :
    (k remain count i s s' n : ℕ)
    → i < remain
    → s < count
    → s' ≡ s + 1
    → n ≡ least k (least (remain - (i + 1)) (count - s'))
    → suc n ≡ least (suc k) (least (remain - i) (count - s))
unfolding least
least-suc k remain count i s s' n lt lt' e h = ground arith

drop_cons : (buf : List ℕ) (i : ℕ) → i < length buf → drop i buf ≡ get_or buf i 0 ∷ drop (i + 1) buf
drop_cons [] i lt = absurd (omega arith)
drop_cons (x ∷ xs) zero lt = refl
drop_cons (x ∷ xs) (suc i) lt =
    let e : suc (i + 1) ≡ suc i + 1 = omega arith in
    drop_cons xs i (omega arith) ∙ ap (λ k. get_or xs i 0 ∷ drop k (x ∷ xs)) e

-- The bytes of a cluster that the inner loop reads, from the place `i` on.
pub read_bytes-Reads :
    (k : ℕ) (buf : List ℕ) (remain count off i : ℕ) (r : Reading)
    → IsReading r
    → off ≤ r.total
    → r.p ≡ i
    → i + k ≤ length buf
    → (n : ℕ) × (n ≡ least k (least (remain - i) (count - r.sent_bytes)))
      × Reads n (take n (drop i buf)) r (read_bytes k buf remain count off i r).0
      × ((read_bytes k buf remain count off i r).1 ≡ i + n)
unfolding read_bytes least
read_bytes-Reads zero buf remain count off i r g le p fits = (
  0,
  ground arith,
  record {
    good = g;
    bytes = sym (append-nil (payload r));
    count = omega arith;
    total = omega arith;
  },
  omega arith,
)
read_bytes-Reads (suc k) buf remain count off i r g le p fits =
    elim (Bool-cases (ltb i remain && ltb r.sent_bytes count)) [
      | inr n ↦
          rw (read_bytes, n)
            (
              0,
              ground arith,
              record {
                good = g;
                bytes = sym (append-nil (payload r));
                count = omega arith;
                total = omega arith;
              },
              omega arith,
            )
      | inl y ↦
          let (q, place) = read_byte-Puts buf off r g le in
          let total = q.total in
          let sent = q.count in
          let (n, e, h, z) =
            read_bytes-Reads k buf remain count off (i + 1) (read_byte buf off r) q.good
              (omega (arith, total)) (omega (arith, place)) (omega arith) in
          let hc = h.count in
          let ht = h.total in
          rw (read_bytes, y)
            (
              suc n,
              least-suc k remain count i r.sent_bytes _ n (ground arith) (ground arith) sent e,
              record {
                good = h.good;
                bytes =
                    h.bytes
                    ∙ (ap (λ zs. zs ++ take n (drop (i + 1) buf)) q.bytes
                        ∙ (append_assoc (payload r) (get_or buf r.p 0 ∷ [])
                              (take n (drop (i + 1) buf))
                            ∙ ap (λ zs. payload r ++ zs)
                                (ap (λ j. get_or buf j 0 ∷ take n (drop (i + 1) buf)) p
                                  ∙ ap (take (suc n)) (sym (drop_cons buf i (omega arith))))));
                count = omega (arith, hc, sent);
                total = omega (arith, ht, total);
              },
              omega (arith, z),
            )
    ]
