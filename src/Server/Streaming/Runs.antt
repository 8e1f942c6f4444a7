-- ===== src/Server/Streaming/Runs.antt =====
-- What runs of the steps of Publish in internal/server/server.go keep.
use arke.Common.{◌≡◌, subst, refl, arith, Option, none, some, List, [], ◌∷◌, All}
use arke.Server.Streaming.Defs.{Streaming, Move, step, run}

pub some_inj : {A : Type 0} {a b : A} → some a ≡ some b → a ≡ b
some_inj h = cc h

-- What every step that fits Q keeps, runs of such steps keep.
pub run_keeps :
    (P : Streaming → Type 0) (Q : Move → Type 0)
    → ((m : Move) (s s' : Streaming) → Q m → step m s ≡ some s' → P s → P s')
    → (moves : List Move) (s s' : Streaming) → All Q moves
    → run moves s ≡ some s'
    → P s
    → P s'
unfolding run
run_keeps P Q keeps [] s s' q h i = subst P (some_inj h) i
run_keeps P Q keeps (m ∷ moves) s s' (q, qs) h i =
    go (λ t. run_keeps P Q keeps moves t s' qs) (step m s) refl
  where
    go :
        ((t : Streaming) → run moves t ≡ some s' → P t → P s')
        → (o : Option Streaming) → step m s ≡ o
        → P s'
    go later none e = absurd (ground (arith, e, h))
    go later (some t) e = later t (ground (arith, e, h)) (keeps m s t q e i)
