-- ===== src/Server/Streaming/Sound.antt =====
-- The state of Publish in internal/server/server.go in which success is reported for published messages.
use mathlib.Core.List.{Mem}
use arke.Common.{
  ℕ, ◌≡◌, ◌≢◌, refl, sym, subst, Bool, true, false, Option, none, some, List, ◌∷◌, length, All,
  arith, ◌==◌, if◌then◌else◌,
}
use arke.Api.{Error, Message, MessageResponse, subjects_of}
use arke.Server.Requests.{published, one_subject}
use arke.Server.Streaming.Defs.{
  Reader, receiving, gone, offering, awaiting, replying, Main, looking, reconnecting, looping,
  finished, serving, complaining, publishing, answering, failing, Streaming, message, end_of_stream,
  broken, delivered, stream_over, undelivered, Reading, receives, times_out, sends, refused,
  timed_out, set_reader, taken, read, hand, hear, Move, reads,
}
use arke.Server.Streaming.Runs.{some_inj}

-- No message that this step brings asks for a confirmation.
abbrev pub Unconfirmed : Move → Type 0
Unconfirmed (reads k (receives (message m))) = m.confirm ≡ false
Unconfirmed _ = Unit

abbrev pub Handled : List (Message × Option Error) → Message → Type 0
Handled l m = Mem (m, none) l

-- A reader's message asks for no confirmation, and a response that reports success is for a message that
-- was published.
unfoldable pub Honest : List (Message × Option Error) → Reader → Type 0
Honest l (offering m) = m.confirm ≡ false
Honest l (awaiting m) = m.confirm ≡ false
Honest l (replying m r stops) = r.success ≡ true → Handled l m
Honest l _ = Unit

-- The reader that the provider works for waits for its own message.
unfoldable pub Waits : Main → (ℕ → Reader) → List (Message × Option Error) → Type 0
Waits (complaining k m) readers l = ⊥
Waits (publishing k m) readers l = readers k ≡ awaiting m
Waits (answering k r) readers l = (m : Message) × (readers k ≡ awaiting m) × Mem (m, r) l
Waits _ readers l = Unit

-- A response that reports success is for a message that was published.
abbrev pub HonestReply : List (Message × Option Error) → Message × MessageResponse → Type 0
HonestReply l (m, r) = r.success ≡ true → Handled l m

pub record Sound (main : Main) (readers : ℕ → Reader) (l : List (Message × Option Error))
    (rs : List (Message × MessageResponse)) : Type 0 where
  pub readers_honest : (k : ℕ) → Honest l (readers k)
  pub replies_honest : All (HonestReply l) rs
  pub waits : Waits main readers l

pick-Honest :
    (l : List (Message × Option Error)) (b : Bool) (q r : Reader)
    → Honest l q
    → Honest l r
    → Honest l (if b then q else r)
pick-Honest l true q r h g = h
pick-Honest l false q r h g = g

pub Honest-set_reader :
    (l : List (Message × Option Error)) (k : ℕ) (q : Reader) (readers : ℕ → Reader)
    → ((j : ℕ) → Honest l (readers j))
    → Honest l q
    → (j : ℕ) → Honest l (set_reader k q readers j)
Honest-set_reader l k q readers h g j = pick-Honest l (k == j) q (readers j) g (h j)

set_reader_self : (k : ℕ) (q : Reader) (readers : ℕ → Reader) → set_reader k q readers k ≡ q
set_reader_self k q readers = ground arith

-- A reader that does not wait for the provider moves.
Waits-set_reader :
    (main : Main) (k : ℕ) (p q : Reader) (readers : ℕ → Reader) (l : List (Message × Option Error))
    → readers k ≡ p
    → ((m : Message) → p ≢ awaiting m)
    → Waits main readers l
    → Waits main (set_reader k q readers) l
unfolding Waits
Waits-set_reader (complaining j m) k p q readers l e other w = w
Waits-set_reader (publishing j m) k p q readers l e other w = ground (arith, e, w, other m)
Waits-set_reader (answering j r) k p q readers l e other (m, w, h) =
    (m, ground (arith, e, w, other m), h)
Waits-set_reader looking k p q readers l e other w = tt
Waits-set_reader reconnecting k p q readers l e other w = tt
Waits-set_reader looping k p q readers l e other w = tt
Waits-set_reader finished k p q readers l e other w = tt
Waits-set_reader (serving j) k p q readers l e other w = tt
Waits-set_reader (failing j x) k p q readers l e other w = tt

refused-Honest :
    (l : List (Message × Option Error)) (m : Message) (e : Option Error) (stops : Bool)
    → Honest l (replying m (refused e) stops)
unfolding Honest
refused-Honest l m e stops h = absurd (cc h)

taken-Honest :
    (l : List (Message × Option Error)) (m : Message) → m.confirm ≡ false → Honest l (taken m)
unfolding Honest
taken-Honest l m c =
    pick-Honest l (length (subjects_of m) == 1) (offering m)
      (replying m (refused (some one_subject)) false) c
      (refused-Honest l m (some one_subject) false)

module _ {main : Main} {readers : ℕ → Reader} {l : List (Message × Option Error)}
    {rs : List (Message × MessageResponse)} (i : Sound main readers l rs) (k : ℕ) (p : Reader)
    (e : readers k ≡ p) where
  here-Honest : Honest l p
  here-Honest = subst (Honest l) e (i.readers_honest k)

  moves-Sound :
      (q : Reader)
      → ((m : Message) → p ≢ awaiting m)
      → Honest l q
      → Sound main (set_reader k q readers) l rs
  moves-Sound q other h = record {
    readers_honest = Honest-set_reader l k q readers i.readers_honest h;
    replies_honest = i.replies_honest;
    waits = Waits-set_reader main k p q readers l e other i.waits;
  }

  sends-Sound :
      (m : Message) (r : MessageResponse) (stops : Bool) (q : Reader)
      → p ≡ replying m r stops
      → Honest l q
      → Sound main (set_reader k q readers) l ((m, r) ∷ rs)
  unfolding Honest
  sends-Sound m r stops q same h = record {
    readers_honest = Honest-set_reader l k q readers i.readers_honest h;
    replies_honest = (subst (Honest l) same here-Honest, i.replies_honest);
    waits = Waits-set_reader main k p q readers l e (λ n g. cc (same, g)) i.waits;
  }

  -- The reader is served, or stops being served, and the call goes on without a reader that waits.
  frees-Sound :
      (after : Main) (q : Reader)
      → Waits after (set_reader k q readers) l
      → Honest l q
      → Sound after (set_reader k q readers) l rs
  frees-Sound after q w h = record {
    readers_honest = Honest-set_reader l k q readers i.readers_honest h;
    replies_honest = i.replies_honest;
    waits = w;
  }

unfoldable pub Safe : Streaming → Type 0
Safe s = Sound s.main s.readers s.handled s.replies

stopped-Honest :
    (l : List (Message × Option Error)) (stops : Bool)
    → Honest l (if stops then gone else receiving)
unfolding Honest
stopped-Honest l true = tt
stopped-Honest l false = tt

pub read-Safe :
    (k : ℕ) (x : Reading) (p : Reader) (s s' : Streaming)
    → Unconfirmed (reads k x)
    → s.readers k ≡ p
    → read k x p s ≡ some s'
    → Safe s
    → Safe s'
unfolding read Safe Honest
read-Safe k (receives (message m)) receiving s s' c e h i =
    subst Safe (some_inj h)
      (moves-Sound i k receiving e (taken m) (λ n g. cc g) (taken-Honest s.handled m c))
read-Safe k (receives end_of_stream) receiving s s' c e h i =
    subst Safe (some_inj h) (moves-Sound i k receiving e gone (λ n g. cc g) tt)
read-Safe k (receives (broken t)) receiving s s' c e h i =
    subst Safe (some_inj h) (moves-Sound i k receiving e gone (λ n g. cc g) tt)
read-Safe k times_out (offering m) s s' c e h i = subst Safe (some_inj h) (
    moves-Sound i k (offering m) e (replying m (refused (some timed_out)) true) (λ n g. cc g)
      (refused-Honest s.handled m (some timed_out) true))
read-Safe k (sends delivered) (replying m r stops) s s' c e h i = subst Safe (some_inj h) (
    sends-Sound i k (replying m r stops) e m r stops (if stops then gone else receiving) refl
      (stopped-Honest s.handled stops))
read-Safe k (sends stream_over) (replying m r stops) s s' c e h i =
    subst Safe (some_inj h) (sends-Sound i k (replying m r stops) e m r stops gone refl tt)
read-Safe k (sends (undelivered t)) (replying m r stops) s s' c e h i =
    subst Safe (some_inj h) (sends-Sound i k (replying m r stops) e m r stops gone refl tt)
read-Safe k x p s s' c e h i = absurd (cc h)

handed_waits :
    (k : ℕ) (m : Message) (readers : ℕ → Reader) (l : List (Message × Option Error))
    → m.confirm ≡ false
    → Waits
        (if m.confirm then complaining k m else publishing k m)
        (set_reader k (awaiting m) readers)
        l
unfolding Waits
handed_waits k m readers l c =
    subst
      (λ b.
        Waits (if b then complaining k m else publishing k m) (set_reader k (awaiting m) readers) l)
      (sym c) (set_reader_self k (awaiting m) readers)

pub hand-Safe :
    (main : Main) (k : ℕ) (p : Reader) (s s' : Streaming)
    → s.readers k ≡ p
    → hand k p s ≡ some s'
    → Sound main s.readers s.handled s.replies
    → Safe s'
unfolding hand Safe Honest
hand-Safe main k (offering m) s s' e h i =
    let c = here-Honest i k (offering m) e in
    subst Safe (some_inj h)
      (frees-Sound i k (offering m) e _ (awaiting m) (handed_waits k m s.readers s.handled c) c)
hand-Safe main k p s s' e h i = absurd (cc h)

-- The response to a message that has been published with that result.
pub published-Honest :
    (l : List (Message × Option Error)) (m : Message) (e : Option Error)
    → Mem (m, e) l
    → Honest l (replying m (published e).0 false)
unfolding Honest
published-Honest l m none h g = h
published-Honest l m (some e) h g = absurd (cc g)

-- A reader takes the error e, which is that of its own message if it waits.
pub hear-Safe :
    (main : Main) (k : ℕ) (e : Option Error) (after : Main) (p : Reader) (s s' : Streaming)
    → s.readers k ≡ p
    → ((readers : ℕ → Reader) → Waits after readers s.handled)
    → ((m : Message) → p ≡ awaiting m → Honest s.handled (replying m (published e).0 false))
    → hear k e after p s ≡ some s'
    → Sound main s.readers s.handled s.replies
    → Safe s'
unfolding hear Safe
hear-Safe main k e after (offering m) s s' at free own h i = subst Safe (some_inj h) (
    frees-Sound i k (offering m) at after (replying m (refused e) true) (free _)
      (refused-Honest s.handled m e true))
hear-Safe main k e after (awaiting m) s s' at free own h i =
    subst Safe (some_inj h) (
      frees-Sound i k (awaiting m) at after (replying m (published e).0 false) (free _)
        (own m refl))
hear-Safe main k e after p s s' at free own h i = absurd (cc h)
