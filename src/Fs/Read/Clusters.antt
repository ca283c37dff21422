-- ===== src/Fs/Read/Clusters.antt =====
-- Reading along the clusters of a file: clusters before the offset are skipped, and those behind it are
-- read up to the count or the end of the file.
use mathlib.Core.List.{append-nil, append_assoc}
use kin_os.Base.{
  ℕ, zero, suc, ◌+◌, ◌-◌, ◌*◌, ◌≤◌, ◌<◌, ◌≡◌, refl, sym, ap, ◌∙◌, true, false, ◌&&◌, some, List, [],
  ◌∷◌, ◌++◌, leb, ltb, length, take, arith, Bool-cases, inl, inr, take_all, take-append, take_first,
  take_nil,
}
use kin_os.Fs.{Fat, next_cluster}
use kin_os.Fs.Volume.{Bpb}
use kin_os.Fs.Data.{
  Disk, read_cluster, bytes_per_cluster, is_data, Walk, content, IsFull, length-read_cluster,
  Walk-buffer,
}
use kin_os.Fs.Read.{Reading, read_byte, read_bytes, read_clusters}
use kin_os.Fs.Read.Laws.{payload, IsReading, least, read_bytes-Reads}

-- A part of two lists that is taken from the one and then from the other.
take_both :
    (buf ys : List ℕ) (m n m' : ℕ)
    → n ≡ least (length buf) m
    → m' ≡ m - n
    → take n buf ++ take m' ys ≡ take m (buf ++ ys)
unfolding least
take_both buf ys m n m' p q = elim (Bool-cases (leb (length buf) m)) [
  | inl le ↦
      let whole : n ≡ length buf = ground arith in
      ap (λ zs. zs ++ take m' ys) (take_all n buf (omega arith))
      ∙ (ap (λ k. buf ++ take k ys) (q ∙ ap (λ k. m - k) whole)
          ∙ sym (take-append m buf ys (ground arith)))
  | inr gt ↦
      let part : n ≡ m = ground arith in
      let none_left : m' ≡ 0 = omega arith in
      ap (λ k. take n buf ++ take k ys) none_left
      ∙ (append-nil (take n buf)
          ∙ (ap (λ k. take k buf) part ∙ sym (take_first m buf ys (ground arith))))
]

left_over :
    (len remain count s s' i n : ℕ)
    → n ≡ least len (least (remain - 0) (count - s))
    → s' ≡ s + n
    → i ≡ 0 + n
    → (n ≡ least len (least remain (count - s)))
      × (least (remain - i) (count - s') ≡ least remain (count - s) - n)
unfolding least
left_over len remain count s s' i n e p q = ground arith

nothing_left : (remain count s : ℕ) → ltb s count ≡ false → least remain (count - s) ≡ 0
unfolding least
nothing_left remain count s lt = ground arith

abbrev at_place : Reading → ℕ → ℕ → Reading × ℕ
at_place r t i = (record r { total = t }, i)

same_place : (r : Reading) (t t' i i' : ℕ) → t ≡ t' → i ≡ i' → at_place r t i ≡ at_place r t' i'
same_place r t t' i i' p q = ap (λ x. at_place r x i) p ∙ ap (at_place r t') q

module _ (b : Bpb) (disk : Disk) (f : IsFull b disk) (count off : ℕ) where
  read_clusters-Reads :
      (fuel : ℕ) (s : Fat) (cluster remain : ℕ) (r : Reading) (cs : List ℕ)
      → length cs < fuel
      → Walk s cluster cs
      → IsReading r
      → off ≤ r.total
      → (r' : Reading) × (read_clusters fuel b disk s count off cluster remain r ≡ some r')
        × IsReading r'
        × (payload r' ≡ payload r ++ take (least remain (count - r.sent_bytes)) (content b disk cs))
  unfolding read_clusters
  read_clusters-Reads zero s cluster remain r cs lt w g le = absurd (omega arith)
  read_clusters-Reads (suc fuel) s cluster remain r [] lt w g le = (
    r,
    rw (read_clusters, w) refl,
    g,
    sym (append-nil (payload r))
        ∙ ap (λ zs. payload r ++ zs) (sym (take_nil (least remain (count - r.sent_bytes)))),
  )
  read_clusters-Reads (suc fuel) s cluster remain r (d ∷ cs) lt w g le =
      elim (Bool-cases (ltb r.sent_bytes count)) [
        | inr y ↦ (
          r,
          rw (read_clusters, w.1) (rw y refl),
          g,
          sym (append-nil (payload r))
              ∙ ap (λ k. payload r ++ take k (content b disk (d ∷ cs)))
                  (sym (nothing_left remain count r.sent_bytes y)),
        )
        | inl y ↦
            let buf : List ℕ = read_cluster b disk cluster in
            let r0 : Reading = record r { p = 0 } in
            let len : length buf ≡ bytes_per_cluster b = length-read_cluster b disk cluster f in
            let (n, e, q, z) =
              read_bytes-Reads (bytes_per_cluster b) buf remain count off 0 r0
                (record { small = g.small; size = g.size; full = g.full }) le refl
                (omega (arith, len)) in
            let r1 : Reading = (read_bytes (bytes_per_cluster b) buf remain count off 0 r0).0 in
            let i : ℕ = (read_bytes (bytes_per_cluster b) buf remain count off 0 r0).1 in
            let total = q.total in
            let (n_is, rest_is) =
              left_over (bytes_per_cluster b) remain count r.sent_bytes r1.sent_bytes i n e q.count
                z in
            let (r', e', g', p') =
              read_clusters-Reads fuel (next_cluster s cluster).1 (next_cluster s cluster).0
                (remain - i) r1 cs (omega arith)
                (Walk-buffer s cluster (next_cluster s cluster).0 cs w.2) q.good
                (omega (arith, total)) in
            let m' : ℕ = least (remain - i) (count - r1.sent_bytes) in
            let n_is' : n ≡ least (length buf) (least remain (count - r.sent_bytes)) =
              n_is ∙ ap (λ k. least k (least remain (count - r.sent_bytes))) (sym len) in
            (
              r',
              rw (read_clusters, w.1) (rw y e'),
              g',
              p'
                  ∙ (ap (λ zs. zs ++ take m' (content b disk cs)) q.bytes
                      ∙ (append_assoc (payload r) (take n buf) (take m' (content b disk cs))
                          ∙ ap (λ zs. payload r ++ zs)
                              (take_both buf (content b disk cs)
                                  (least remain (count - r.sent_bytes)) n m' n_is' rest_is
                                ∙ ap
                                    (λ c.
                                      take (least remain (count - r.sent_bytes))
                                        (read_cluster b disk c ++ content b disk cs))
                                    w.0))),
            )
      ]

  -- A cluster that lies before the offset.
  read_bytes_skip :
      (k : ℕ) (buf : List ℕ) (remain i : ℕ) (r : Reading)
      → r.total + k ≤ off
      → i + k ≤ remain
      → r.sent_bytes < count
      → read_bytes k buf remain count off i r ≡ at_place r (r.total + k) (i + k)
  unfolding read_bytes read_byte
  read_bytes_skip zero buf remain i r le fits lt =
      same_place r r.total (r.total + 0) i (i + 0) (omega arith) (omega arith)
  read_bytes_skip (suc k) buf remain i r le fits lt =
      let y : (ltb i remain && ltb r.sent_bytes count) ≡ true = ground arith in
      let n : leb off r.total ≡ false = ground arith in
      let ih =
        read_bytes_skip k buf remain (i + 1) (record r { total = r.total + 1 }) (omega arith)
          (omega arith) lt in
      rw (read_bytes, y)
        (rw (read_byte, n)
          (ih
            ∙ same_place r (r.total + 1 + k) (r.total + suc k) (i + 1 + k) (i + suc k) (omega arith)
                (omega arith)))

  skip_cluster :
      (fuel : ℕ) (s : Fat) (cluster remain : ℕ) (r : Reading)
      → is_data cluster ≡ true
      → r.sent_bytes < count
      → r.total + bytes_per_cluster b ≤ off
      → bytes_per_cluster b ≤ remain
      → read_clusters (suc fuel) b disk s count off cluster remain r
        ≡ read_clusters fuel b disk
            (next_cluster s cluster).1
            count
            off
            (next_cluster s cluster).0
            (remain - bytes_per_cluster b)
            (record r { p = 0; total = r.total + bytes_per_cluster b })
  unfolding read_clusters
  skip_cluster fuel s cluster remain r w lt le fits =
      let y : ltb r.sent_bytes count ≡ true = ground arith in
      let q =
        read_bytes_skip (bytes_per_cluster b) (read_cluster b disk cluster) remain 0
          (record r { p = 0 }) le (omega arith) lt
        ∙ same_place (record r { p = 0 }) (r.total + bytes_per_cluster b)
            (r.total + bytes_per_cluster b) (0 + bytes_per_cluster b) (bytes_per_cluster b) refl
            (omega arith) in
      rw (read_clusters, w) (rw y (rw q refl))

  pub read_from :
      (fuel : ℕ) (s : Fat) (cluster remain : ℕ) (r : Reading) (skipped cs : List ℕ)
      → length (skipped ++ cs) < fuel
      → Walk s cluster (skipped ++ cs)
      → IsReading r
      → r.sent_bytes < count
      → off ≡ r.total + length skipped * bytes_per_cluster b
      → length skipped * bytes_per_cluster b ≤ remain
      → (r' : Reading) × (read_clusters fuel b disk s count off cluster remain r ≡ some r')
        × IsReading r'
        × (payload r'
            ≡ payload r
              ++ take
                  (least (remain - length skipped * bytes_per_cluster b) (count - r.sent_bytes))
                  (content b disk cs))
  read_from fuel s cluster remain r [] cs lt w g c o fits =
      let (r', e, g', p) = read_clusters-Reads fuel s cluster remain r cs lt w g (omega arith) in
      let z : remain ≡ remain - 0 * bytes_per_cluster b = omega arith in
      (
        r',
        e,
        g',
        p ∙ ap (λ k. payload r ++ take (least k (count - r.sent_bytes)) (content b disk cs)) z,
      )
  read_from zero s cluster remain r (d ∷ skipped) cs lt w g c o fits = absurd (omega arith)
  read_from (suc fuel) s cluster remain r (d ∷ skipped) cs lt w g c o fits =
      let n : ℕ = bytes_per_cluster b in
      let m : suc (length skipped) * n ≡ length skipped * n + n = grind arith in
      let r1 : Reading = record r { p = 0; total = r.total + n } in
      let (r', e, g', p) =
        read_from fuel (next_cluster s cluster).1 (next_cluster s cluster).0 (remain - n) r1 skipped
          cs (omega arith) (Walk-buffer s cluster (next_cluster s cluster).0 (skipped ++ cs) w.2)
          (record { small = g.small; size = g.size; full = g.full }) c (omega (arith, o, m))
          (omega (arith, fits, m)) in
      let z : remain - n - length skipped * n ≡ remain - suc (length skipped) * n =
        omega (arith, m) in
      (
        r',
        skip_cluster fuel s cluster remain r w.1 c (omega (arith, o, m)) (omega (arith, fits, m))
            ∙ e,
        g',
        p ∙ ap (λ k. payload r ++ take (least k (count - r.sent_bytes)) (content b disk cs)) z,
      )
