-- ===== src/Examples/Threads.antt =====
-- Connections of the server that end in another order than they began.
use khipu_v_fhe.Prelude.{List, [], ◌∷◌}
use mathlib.Core.List.Perm
use khipu_v_fhe.Server.Threads.{
  ThreadEvent, accepts, accept_fails, ends, at_start, serve, IsOwned, serve-IsOwned,
}

abbrev events : List ThreadEvent
events = accepts 5 ∷ accepts 6 ∷ ends 1 ∷ accepts 5 ∷ accept_fails ∷ accepts 8 ∷ ends 0 ∷ []

serve-IsOwned_example : IsOwned (serve events at_start)
serve-IsOwned_example = serve-IsOwned events at_start (Perm.refl [])
