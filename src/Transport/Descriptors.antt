-- ===== src/Transport/Descriptors.antt =====
-- Who closes a file descriptor: the class `Socket`, and the loops of `TCPServer` and `TCPClient` over
-- the addresses that getaddrinfo gave.
use khipu_v_fhe.Prelude.{
  ℕ, ◌≡◌, refl, subst, ◌∙◌, List, [], ◌∷◌, ◌++◌, append_assoc, append-nil, Option, none, some, Bool,
  true, false, if◌then◌else◌,
}
use mathlib.Core.List.{Perm, perm_middle}
use mathlib.Core.List.Perm

-- `fd_`, which is -1 when the object owns none, and the descriptors closed so far, in order.
pub record Socket : Type 0 where
  pub fd : Option ℕ

abbrev pub owned : Socket → List ℕ
owned s = elim s.fd [ none ↦ [] | some fd ↦ fd ∷ [] ]

abbrev pub empty : Socket
empty = record { fd = none }

-- `close()`: the object, and the descriptors closed.
unfoldable pub close : Socket → List ℕ → Socket × List ℕ
close s closed = elim s.fd [ none ↦ (s, closed) | some fd ↦ (empty, closed ++ (fd ∷ [])) ]

-- `release()`: the descriptor, and the object without it.
unfoldable pub release : Socket → Option ℕ × Socket
release s = (s.fd, empty)

-- `operator=(Socket&&)` of two objects, and of an object with itself.
unfoldable pub move_assign : Socket → Socket → List ℕ → Socket × Socket × List ℕ
unfolding close
move_assign this other closed =
    let (gone, closed') = close this closed in (record { fd = other.fd }, empty, closed')

-- Nothing is lost and nothing closed twice: what the two objects owned they still own, or it has
-- been closed, once.
pub move_assign-perm :
    (this other : Socket) (closed : List ℕ)
    → let (this', other', closed') = move_assign this other closed in
      Perm (owned this' ++ (owned other' ++ closed')) (owned this ++ (owned other ++ closed))
unfolding move_assign
move_assign-perm this other closed = moved this.fd (owned other) closed
  where
    moved :
        (fd : Option ℕ) (o closed : List ℕ)
        → let this : Socket = record { fd = fd } in
          Perm (o ++ (close this closed).1) (owned this ++ (o ++ closed))
    moved none o closed = Perm.refl (o ++ closed)
    moved (some fd) o closed =
        subst (λ l. Perm l (fd ∷ (o ++ closed))) (append_assoc o closed (fd ∷ []))
          (subst (λ l. Perm ((o ++ closed) ++ (fd ∷ [])) (fd ∷ l)) (append-nil (o ++ closed))
            (perm_middle (o ++ closed) []))

-- An address of getaddrinfo's list: what `socket` gives for it, and whether `bind` (or `connect`)
-- accepts that descriptor.
pub record Address : Type 0 where
  pub opened : Option ℕ
  pub accepted : Bool

-- `for (rp = res; rp != nullptr; rp = rp->ai_next)` of the constructor and of `connect`: the
-- descriptor that is left, and those closed.
unfoldable pub first_accepted : List Address → List ℕ → Option ℕ × List ℕ
first_accepted [] closed = (none, closed)
first_accepted (a ∷ rest) closed = elim a.opened [
  | none ↦ first_accepted rest closed
  | some fd ↦ if a.accepted then (some fd, closed) else first_accepted rest (closed ++ (fd ∷ []))
]

-- The descriptors that `socket` opens in the loop: up to the address that is accepted.
abbrev pub opened_by : List Address → List ℕ
opened_by [] = []
opened_by (a ∷ rest) = elim a.opened [
  | none ↦ opened_by rest
  | some fd ↦ if a.accepted then fd ∷ [] else fd ∷ opened_by rest
]

abbrev pub kept : Option ℕ → List ℕ
kept none = []
kept (some fd) = fd ∷ []

-- Every descriptor that the loop opens is closed in it, once and in order, but the one it keeps.
pub first_accepted-opened_by :
    (addresses : List Address) (closed : List ℕ)
    → (first_accepted addresses closed).1 ++ kept (first_accepted addresses closed).0
      ≡ closed ++ opened_by addresses
unfolding first_accepted
first_accepted-opened_by [] closed = refl
first_accepted-opened_by (a ∷ rest) closed =
    at_address a.opened a.accepted (first_accepted-opened_by rest)
  where
    at_address :
        (o : Option ℕ) (b : Bool)
        → ((cs : List ℕ)
            → (first_accepted rest cs).1 ++ kept (first_accepted rest cs).0 ≡ cs ++ opened_by rest)
        → let l : List Address = record { opened = o; accepted = b } ∷ rest in
          (first_accepted l closed).1 ++ kept (first_accepted l closed).0 ≡ closed ++ opened_by l
    at_address none b ih = ih closed
    at_address (some fd) true ih = refl
    at_address (some fd) false ih =
        ih (closed ++ (fd ∷ [])) ∙ append_assoc closed (fd ∷ []) (opened_by rest)
