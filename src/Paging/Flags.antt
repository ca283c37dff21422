-- ===== src/Paging/Flags.antt =====
-- The flags that `SetupPageMap` sets in an entry.
use kin_os.Base.{ℕ, ◌≡◌, ◌∙◌, sym, Bool, true, arith, inl}
use kin_os.Paging.{Machine, present, pointer, set_user, set_writable, store}
use kin_os.Paging.Fields.{Reads-set_user, Reads-set_writable, Reads}
use kin_os.Paging.Extends.{Extends, Extends-trans}
use kin_os.Paging.Entry.{Extends-store}

-- The flags that a round of the loop sets.
abbrev pub flagged : Machine → ℕ → ℕ → Bool → Machine
flagged m t i b =
    let user_set = store m t i (set_user true (m.words t i)) in
    store user_set t i (set_writable b (user_set.words t i))

pub word-here : (m : Machine) (t i e : ℕ) → (store m t i e).words t i ≡ e
word-here m t i e = ground arith

pub Extends-set_user :
    (w : Bool) (m : Machine) (t i : ℕ) → Extends w m (store m t i (set_user true (m.words t i)))
Extends-set_user w m t i =
    let e = m.words t i in
    let reads = Reads-set_user true e in
    Extends-store w m t i (set_user true e)
      (λ p. (reads.0 ∙ p, reads.3, (λ h. reads.2), (λ c h. reads.1 ∙ h)))
      (λ p. inl (sym (reads.0) ∙ p, reads.3))

pub Extends-set_writable :
    (w b : Bool) (m : Machine) (t i : ℕ)
    → (w ≡ true → b ≡ true)
    → Extends w m (store m t i (set_writable b (m.words t i)))
Extends-set_writable w b m t i k =
    let e = m.words t i in
    let reads = Reads-set_writable b e in
    Extends-store w m t i (set_writable b e)
      (λ p. (reads.0 ∙ p, reads.3, (λ h. reads.2 ∙ h), (λ c h. reads.1 ∙ k c)))
      (λ p. inl (sym (reads.0) ∙ p, reads.3))

pub Extends-flagged :
    (w b : Bool) (m : Machine) (t i : ℕ) → (w ≡ true → b ≡ true) → Extends w m (flagged m t i b)
Extends-flagged w b m t i k =
    let user_set = store m t i (set_user true (m.words t i)) in
    Extends-trans w m user_set (flagged m t i b) (Extends-set_user w m t i)
      (Extends-set_writable w b user_set t i k)

pub flagged-Reads :
    (b : Bool) (m : Machine) (t i : ℕ)
    → Reads ((flagged m t i b).words t i) (present (m.words t i)) b true (pointer (m.words t i))
flagged-Reads b m t i =
    let e = m.words t i in
    let u = Reads-set_user true e in
    let user_set = store m t i (set_user true e) in
    let v = Reads-set_writable b (set_user true e) in
    rw (word-here user_set t i (set_writable b (user_set.words t i)))
      (rw (word-here m t i (set_user true e)) (v.0 ∙ u.0, v.1, v.2 ∙ u.2, v.3 ∙ u.3))
