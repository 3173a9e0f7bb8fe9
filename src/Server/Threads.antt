-- ===== src/Server/Threads.antt =====
-- The accept loop of main in tee-vfhe/src/server/server_main.cpp and its threads, as far as they own
-- descriptors: what happens is a list of events, in any order that the threads may take.
use khipu_v_fhe.Prelude.{
  ℕ, zero, suc, ◌≡◌, refl, subst, List, [], ◌∷◌, ◌++◌, append_assoc, append-nil, Bool, true, false,
  if◌then◌else◌, Bool-cases, inl, inr, Option, none, some,
}
use khipu_v_fhe.Transport.Descriptors.{empty, close, release, move_assign, kept}
use mathlib.Core.List.{Perm, perm_middle}
use mathlib.Core.List.Perm

-- The descriptors that a thread serves, those closed so far, those that accept gave, and whether main is
-- still in its loop.
pub record Process : Type 0 where
  pub running : List ℕ
  pub closed : List ℕ
  pub accepted : List ℕ
  pub listening : Bool

abbrev pub at_start : Process
at_start = record { running = []; closed = []; accepted = []; listening = true }

-- A round of the loop: `client = srv.accept()`, whose temporary ends there, then `client.release()` for
-- the thread, and the end of `client`.
unfoldable pub accept_client : ℕ → Process → Process
accept_client fd p =
    let (client, temporary, closed) = move_assign empty (record { fd = some fd }) p.closed in
    let closed' = (close temporary closed).1 in
    let (released, client') = release client in
    record {
      running = kept released ++ p.running;
      closed = (close client' closed').1;
      accepted = fd ∷ p.accepted;
      listening = p.listening;
    }

abbrev pub behind : ℕ → Option (ℕ × List ℕ) → Option (ℕ × List ℕ)
behind fd none = none
behind fd (some (fd', rest)) = some (fd', fd ∷ rest)

-- The thread at a place of the list, and the others.
unfoldable pub thread_at : ℕ → List ℕ → Option (ℕ × List ℕ)
thread_at n [] = none
thread_at zero (fd ∷ fds) = some (fd, fds)
thread_at (suc n) (fd ∷ fds) = behind fd (thread_at n fds)

abbrev pub ended : Process → Option (ℕ × List ℕ) → Process
ended p none = p
ended p (some (fd, rest)) = record p { running = rest; closed = p.closed ++ (fd ∷ []) }

-- A thread ends, however its handler did, with `::close(fd)`.
unfoldable pub end_thread : ℕ → Process → Process
end_thread n p = ended p (thread_at n p.running)

pub data ThreadEvent : Type 0 where
  accepts : ℕ → ThreadEvent
  accept_fails : ThreadEvent
  ends : ℕ → ThreadEvent

-- An exception of accept leaves the loop; behind it nothing is accepted.
abbrev pub after : ThreadEvent → Process → Process
after (accepts fd) p = if p.listening then accept_client fd p else p
after accept_fails p = record p { listening = false }
after (ends n) p = end_thread n p

unfoldable pub serve : List ThreadEvent → Process → Process
serve [] p = p
serve (e ∷ es) p = serve es (after e p)

-- Every descriptor that was accepted is served by one thread or has been closed once.
abbrev pub IsOwned : Process → Type 0
IsOwned p = Perm (p.running ++ p.closed) p.accepted

thread_at-perm :
    (n : ℕ) (fds : List ℕ) (fd : ℕ) (rest : List ℕ)
    → thread_at n fds ≡ some (fd, rest)
    → Perm fds (fd ∷ rest)
unfolding thread_at
thread_at-perm n [] fd rest h = cc
thread_at-perm zero (x ∷ xs) fd rest h =
    let same : x ∷ xs ≡ fd ∷ rest = cc in subst (λ l. Perm (x ∷ xs) l) same (Perm.refl (x ∷ xs))
thread_at-perm (suc n) (x ∷ xs) fd rest h = found (thread_at n xs) (thread_at-perm n xs) h
  where
    found :
        (r : Option (ℕ × List ℕ))
        → ((fd' : ℕ) (rest' : List ℕ) → r ≡ some (fd', rest') → Perm xs (fd' ∷ rest'))
        → behind x r ≡ some (fd, rest)
        → Perm (x ∷ xs) (fd ∷ rest)
    found none ih h = cc
    found (some (fd', rest')) ih h =
        let same : fd' ∷ x ∷ rest' ≡ fd ∷ rest = cc in
        subst (λ l. Perm (x ∷ xs) l) same
          (Perm.trans (Perm.cons x (ih fd' rest' refl)) (Perm.swap fd' x rest'))

accept_client-IsOwned : (fd : ℕ) (p : Process) → IsOwned p → IsOwned (accept_client fd p)
unfolding accept_client move_assign close release
accept_client-IsOwned fd p h = Perm.cons fd h

end_thread-IsOwned : (n : ℕ) (p : Process) → IsOwned p → IsOwned (end_thread n p)
unfolding end_thread
end_thread-IsOwned n p h = at_end (thread_at n p.running) refl
  where
    at_end : (r : Option (ℕ × List ℕ)) → thread_at n p.running ≡ r → IsOwned (ended p r)
    at_end none e = h
    at_end (some (fd, rest)) e =
        let moved : Perm (rest ++ (p.closed ++ (fd ∷ []))) (fd ∷ (rest ++ p.closed)) =
          subst (λ l. Perm l (fd ∷ (rest ++ p.closed))) (append_assoc rest p.closed (fd ∷ []))
            (subst (λ l. Perm ((rest ++ p.closed) ++ (fd ∷ [])) (fd ∷ l))
              (append-nil (rest ++ p.closed)) (perm_middle (rest ++ p.closed) [])) in
        Perm.trans moved (
          Perm.trans (Perm.symm (Perm.append_right p.closed (thread_at-perm n p.running fd rest e)))
            h)

-- In whatever order connections are accepted and threads end, every descriptor that was accepted is
-- served by one thread or has been closed once, and no other is closed.
pub serve-IsOwned : (events : List ThreadEvent) (p : Process) → IsOwned p → IsOwned (serve events p)
unfolding serve accept_client
serve-IsOwned [] p h = h
serve-IsOwned (accepts fd ∷ es) p h = elim (Bool-cases p.listening) [
  | inl on ↦ serve-IsOwned es _ (rw on (accept_client-IsOwned fd p h))
  | inr off ↦ serve-IsOwned es _ (rw off h)
]
serve-IsOwned (accept_fails ∷ es) p h = serve-IsOwned es (record p { listening = false }) h
serve-IsOwned (ends n ∷ es) p h = serve-IsOwned es (end_thread n p) (end_thread-IsOwned n p h)
