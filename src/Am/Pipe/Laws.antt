-- ===== src/Am/Pipe/Laws.antt =====
-- What goes into a pipe comes out of it, in order.
use mathlib.Core.List.{append-nil, append_assoc}
use kin_os.Base.{
  ℕ, zero, suc, ◌-◌, ◌≤◌, ◌<◌, ◌≡◌, refl, ◌≢◌, ◌∙◌, ap, true, false, none, some, List, [], ◌∷◌,
  ◌++◌, ◌==◌, leb, if◌then◌else◌, take, drop, length, length-append, Bool-cases, inl, inr, arith,
  min, ◌⊎◌,
}
use kin_os.Am.Pipe.{
  Sent, PipeFileDescriptor, pipe_size, read, write, read_message, error_message, received_message,
  drained, advanced,
}
use kin_os.Message.{read_of}

-- The bytes that wait in the pipe.
abbrev pub contents : PipeFileDescriptor → List ℕ
contents p = take p.len p.bytes

pub record IsValid (p : PipeFileDescriptor) : Type 0 where
  pub size : length p.bytes ≡ pipe_size
  pub fits : p.len ≤ pipe_size

length-take_le : (n : ℕ) (xs : List ℕ) → n ≤ length xs → length (take n xs) ≡ n
length-take_le zero xs h = refl
length-take_le (suc n) [] h = absurd (omega arith)
length-take_le (suc n) (x ∷ xs) h = ap suc (length-take_le n xs (omega arith))

length-drop : (n : ℕ) (xs : List ℕ) → length (drop n xs) ≡ length xs - n
length-drop zero xs = omega arith
length-drop (suc n) [] = omega arith
length-drop (suc n) (x ∷ xs) = omega (arith, length-drop n xs)

take-append_len : (n : ℕ) (xs ys : List ℕ) → length xs ≡ n → take n (xs ++ ys) ≡ xs
take-append_len zero [] ys h = refl
take-append_len zero (x ∷ xs) ys h = absurd (omega arith)
take-append_len (suc n) [] ys h = absurd (omega arith)
take-append_len (suc n) (x ∷ xs) ys h = ap (λ l. x ∷ l) (take-append_len n xs ys (omega arith))

take-nil : (n : ℕ) → take {A = ℕ} n [] ≡ []
take-nil zero = refl
take-nil (suc n) = refl

-- Taking `n` and then the next `m` is taking `n + m`.
take-append-take :
    (n k : ℕ) (xs : List ℕ) → n ≤ k → take n xs ++ take (k - n) (drop n xs) ≡ take k xs
take-append-take zero k xs h = ap (λ i. take i xs) (omega arith)
take-append-take (suc n) zero xs h = absurd (omega arith)
take-append-take (suc n) (suc k) [] h = take-nil (suc k - suc n)
take-append-take (suc n) (suc k) (x ∷ xs) h =
    ap (λ l. x ∷ l)
      (ap (λ i. take n xs ++ take i (drop n xs)) (omega arith)
        ∙ take-append-take n k xs (omega arith))

-- A message's bytes, as far as its length goes: what the reader gets of a `kRead` message.
abbrev pub delivered : PipeFileDescriptor → ℕ → List ℕ
delivered p count = take (min p.len count) p.bytes

-- What a `Read` of `p` comes to.
pub record Delivers (p : PipeFileDescriptor) (src count : ℕ) (out : PipeFileDescriptor × List Sent)
    : Type 0 where
  pub fifo : delivered p count ++ contents out.0 ≡ contents p
  pub len : out.0.len ≡ p.len - min p.len count
  pub sent :
      out.1
      ≡ (src, read_message (delivered p count) (min p.len count))
        ∷ (src, read_message (delivered p count) 0)
        ∷ (if leb p.len count then (p.id, received_message) ∷ [] else [])
  pub valid : IsValid out.0

module _ (p : PipeFileDescriptor) (src count : ℕ) (o : p.closed ≡ false)
    (some_bytes : p.len ≢ 0) where
  read_all :
      leb p.len count ≡ true
      → read p src count ≡ (
        drained p,
        (src, read_message (take p.len p.bytes) p.len)
            ∷ (src, read_message (take p.len p.bytes) 0)
            ∷ (p.id, received_message)
            ∷ [],
      )
  unfolding read
  read_all all = ground arith

  read_part :
      leb p.len count ≡ false
      → read p src count ≡ (
        advanced p count,
        (src, read_message (take count p.bytes) count)
            ∷ (src, read_message (take count p.bytes) 0)
            ∷ [],
      )
  unfolding read
  read_part part = ground arith

  -- `Read` of an open pipe that holds bytes sends the reader first the oldest of them, as many as were
  -- asked for or as there are, with their number, and then an empty message. What was sent and what
  -- stays are together what the pipe held, in order; the reader of a pipe that it empties lets the
  -- writer go on.
  pub read-Delivers : IsValid p → Delivers p src count (read p src count)
  read-Delivers v = elim (Bool-cases (leb p.len count)) [
    | inl all ↦
        let m : min p.len count ≡ p.len = ground arith in
        rw (read_all all) (record {
          fifo = rw m (append-nil (take p.len p.bytes));
          len = omega arith;
          sent = rw (m, all) refl;
          valid = record { size = refl; fits = omega arith };
        })
    | inr part ↦
        let m : min p.len count ≡ count = ground arith in
        let le : count ≤ p.len = ground arith in
        rw (read_part part) (record {
          fifo =
              rw
                (
                  m,
                  take-append_len (p.len - count) (take (p.len - count) (drop count p.bytes))
                      (drop (p.len - count) p.bytes)
                      (length-take_le (p.len - count) (drop count p.bytes)
                        (omega (arith, length-drop count p.bytes, v.size, v.fits))),
                )
                (take-append-take count p.len p.bytes le);
          len = omega arith;
          sent = rw (m, part) refl;
          valid = record {
            size = omega (
              arith,
              length-append (take (p.len - count) (drop count p.bytes))
                  (drop (p.len - count) p.bytes),
              length-take_le (p.len - count) (drop count p.bytes)
                  (omega (arith, length-drop count p.bytes, v.size, v.fits)),
              length-drop (p.len - count) p.bytes,
              v.size,
              v.fits,
            );
            fits = omega (arith, v.fits);
          };
        })
  ]

-- `Write` of 1 to 16 bytes to an open, empty pipe stores just those bytes and sends nothing; the
-- writer hears when they have been read.
pub write-stores :
    (p : PipeFileDescriptor) (bytes : List ℕ) (len : ℕ)
    → IsValid p
    → p.closed ≡ false
    → p.len ≡ 0
    → 0 < len
    → len ≤ pipe_size
    → length bytes ≡ pipe_size
    → ((write p bytes len).1 ≡ [])
      × (contents (write p bytes len).0 ≡ take len bytes)
      × IsValid (write p bytes len).0
write-stores p bytes len v o e pos le size =
    let w : write p bytes len
        ≡ (record p { len = len; bytes = take len bytes ++ drop len p.bytes }, []) =
      stored in
    rw w (
      refl,
      take-append_len len (take len bytes) (drop len p.bytes)
          (length-take_le len bytes (omega arith)),
      record {
        size = omega (
          arith,
          length-append (take len bytes) (drop len p.bytes),
          length-take_le len bytes (omega arith),
          length-drop len p.bytes,
          v.size,
        );
        fits = le;
      },
    )
  where
    stored :
        write p bytes len ≡ (record p { len = len; bytes = take len bytes ++ drop len p.bytes }, [])
    stored = unfold write in ground arith

-- A pipe that holds bytes, or that is closed, takes none: `Write` changes nothing and answers the
-- writer with one error, to be tried again exactly when the pipe is open.
pub write_refused :
    (p : PipeFileDescriptor) (bytes : List ℕ) (len : ℕ)
    → (p.closed ≡ true) ⊎ (p.len ≢ 0)
    → write p bytes len ≡ (p, (p.id, error_message (if p.closed then 0 else 1)) ∷ [])
unfolding write
write_refused p bytes len h = ground arith

-- The bytes that the task `src` takes from the messages that it is sent: of each `kRead` message as many as
-- the message says, up to the one that says none.
unfoldable pub taken : ℕ → List Sent → List ℕ
unfolding read_of
taken src [] = []
taken src ((to, m) ∷ others) =
    let rest = taken src others in
    if to == src
    then (elim (read_of m.arg) [
      | none ↦ []
      | some a ↦ if a.len == 0 then [] else take a.len a.bytes ++ rest
    ])
    else rest

take-again : (n : ℕ) (xs : List ℕ) → take n (take n xs) ≡ take n xs
take-again zero xs = refl
take-again (suc n) [] = refl
take-again (suc n) (x ∷ xs) = ap (λ l. x ∷ l) (take-again n xs)

-- What the reader takes of the answer to a `Read` is what was to be delivered.
taken-read :
    (p : PipeFileDescriptor) (src count : ℕ) (out : PipeFileDescriptor × List Sent)
    → Delivers p src count out
    → taken src out.1 ≡ delivered p count
unfolding taken read_of
taken-read p src count out d =
    let me : (src == src) ≡ true = ground arith in
    rw (d.sent) (elim (Bool-cases (min p.len count == 0)) [
      | inl e ↦ let z : min p.len count ≡ 0 = ground arith in rw me (rw e (rw z refl))
      | inr e ↦ rw me (rw e (append-nil _ ∙ take-again (min p.len count) p.bytes))
    ])

-- Reads of `count` bytes in turn by the task `src`, while bytes are left: the bytes that it takes from the
-- messages sent to it, and the pipe.
unfoldable pub drain : ℕ → PipeFileDescriptor → List ℕ → List ℕ × PipeFileDescriptor
unfolding taken
drain src p [] = ([], p)
drain src p (count ∷ counts) =
    let out = read p src count in
    let next = drain src out.0 counts in
    if p.len == 0 then ([], p) else (taken src out.1 ++ next.0, next.1)

closed-read : (p : PipeFileDescriptor) (src count : ℕ) → (read p src count).0.closed ≡ p.closed
unfolding read
closed-read p src count = ground arith

-- However the reads are cut, the bytes that the reader of an open pipe takes from the messages that `Read`
-- sends it and those that are left are
-- together what the pipe held: none is lost, doubled or moved.
pub drain-fifo :
    (src : ℕ) (p : PipeFileDescriptor) (counts : List ℕ)
    → IsValid p
    → p.closed ≡ false
    → (drain src p counts).0 ++ contents (drain src p counts).1 ≡ contents p
unfolding drain
drain-fifo src p [] v o = refl
drain-fifo src p (count ∷ counts) v o = elim (Bool-cases (p.len == 0)) [
  | inl e ↦ rw e refl
  | inr e ↦
      let out = read p src count in
      let d : Delivers p src count out = read-Delivers p src count o (ground arith) v in
      rw (e, taken-read p src count out d)
        (append_assoc (delivered p count) (drain src out.0 counts).0
            (contents (drain src out.0 counts).1)
          ∙ (ap (λ l. delivered p count ++ l)
                (drain-fifo src out.0 counts d.valid (closed-read p src count ∙ o))
              ∙ d.fifo))
]
