-- ===== src/Server/Streaming/Honest.antt =====
-- What a response of Publish in internal/server/server.go that reports success says.
use mathlib.Core.List.{Mem, mem-cons_self, mem-cons_of_mem}
use arke.Common.{
  ℕ, ◌≡◌, refl, subst, Bool, true, false, Option, none, some, List, [], ◌∷◌, All, if◌then◌else◌,
}
use arke.Api.{Error, Message, MessageResponse}
use arke.Server.Requests.{published}
use arke.Server.Streaming.Defs.{
  Reader, absent, receiving, gone, offering, awaiting, replying, Main, looking, reconnecting,
  looping, finished, serving, complaining, publishing, answering, failing, Streaming, set_reader,
  see_closed, Turn, looks, hands, answers, sees_closed, loops, publishes, returns, connects, turn,
  Move, reads, turns, step, run, new_streaming,
}
use arke.Server.Streaming.Runs.{some_inj, run_keeps}
use arke.Server.Streaming.Sound.{
  Unconfirmed, Honest, Waits, HonestReply, Sound, Honest-set_reader, Safe, read-Safe, hand-Safe,
  published-Honest, hear-Safe,
}

Honest-cons :
    (l : List (Message × Option Error)) (x : Message × Option Error) (p : Reader)
    → Honest l p
    → Honest (x ∷ l) p
unfolding Honest
Honest-cons l x (offering m) h = h
Honest-cons l x (awaiting m) h = h
Honest-cons l x (replying m r stops) h = λ g. mem-cons_of_mem x (h g)
Honest-cons l x absent h = tt
Honest-cons l x receiving h = tt
Honest-cons l x gone h = tt

replies-cons :
    (l : List (Message × Option Error)) (x : Message × Option Error)
    (rs : List (Message × MessageResponse))
    → All (HonestReply l) rs
    → All (HonestReply (x ∷ l)) rs
replies-cons l x [] h = tt
replies-cons l x ((m, r) ∷ rs) (h, hs) = (λ g. mem-cons_of_mem x (h g), replies-cons l x rs hs)

publishes-Safe :
    (k : ℕ) (m : Message) (r : Option Error) (s : Streaming)
    → Sound (publishing k m) s.readers s.handled s.replies
    → Sound (answering k r) s.readers ((m, r) ∷ s.handled) s.replies
unfolding Waits
publishes-Safe k m r s i = record {
  readers_honest = λ j. Honest-cons s.handled (m, r) (s.readers j) (i.readers_honest j);
  replies_honest = replies-cons s.handled (m, r) s.replies i.replies_honest;
  waits = (m, i.waits, mem-cons_self);
}

-- The call goes on where no reader waits for it.
goes-on :
    (after : Main) (s : Streaming) (main : Main)
    → Waits after s.readers s.handled
    → Sound main s.readers s.handled s.replies
    → Sound after s.readers s.handled s.replies
goes-on after s main w i = record {
  readers_honest = i.readers_honest;
  replies_honest = i.replies_honest;
  waits = w;
}

starts-Safe :
    (s : Streaming)
    → Sound looking s.readers s.handled s.replies
    → Sound (serving s.next) (set_reader s.next receiving s.readers) s.handled s.replies
unfolding Honest Waits
starts-Safe s i = record {
  readers_honest = Honest-set_reader s.handled s.next receiving s.readers i.readers_honest tt;
  replies_honest = i.replies_honest;
  waits = tt;
}

see_closed-Safe :
    (main : Main) (p : Reader) (s s' : Streaming)
    → see_closed p s ≡ some s'
    → Sound main s.readers s.handled s.replies
    → Safe s'
unfolding see_closed Safe Waits
see_closed-Safe main gone s s' h i = subst Safe (some_inj h) (goes-on looping s main tt i)
see_closed-Safe main p s s' h i = absurd (cc h)

looped_waits :
    (b : Bool) (s : Streaming) → Waits (if b then finished else looking) s.readers s.handled
unfolding Waits
looped_waits true s = tt
looped_waits false s = tt

-- The message of the reader that the call answers is the one that was published.
own_message :
    (k : ℕ) (r : Option Error) (s : Streaming)
    → Waits (answering k r) s.readers s.handled
    → (m : Message) → s.readers k ≡ awaiting m
    → Honest s.handled (replying m (published r).0 false)
unfolding Waits
own_message k r s (n, at, known) m e =
    published-Honest s.handled m r (subst (λ x. Mem (x, r) s.handled) (cc (at, e)) known)

error-Honest :
    (l : List (Message × Option Error)) (m : Message) (e : Error)
    → Honest l (replying m (published (some e)).0 false)
unfolding Honest
error-Honest l m e g = absurd (cc g)

turn-Sound :
    (t : Turn) (main : Main) (s s' : Streaming)
    → turn t main s ≡ some s'
    → Sound main s.readers s.handled s.replies
    → Safe s'
unfolding turn Safe Waits
turn-Sound (looks true) looking s s' h i = subst Safe (some_inj h) (starts-Safe s i)
turn-Sound (looks false) looking s s' h i =
    subst Safe (some_inj h) (goes-on finished s looking tt i)
turn-Sound hands (serving k) s s' h i = hand-Safe (serving k) k (s.readers k) s s' refl h i
turn-Sound (returns none) (serving k) s s' h i =
    subst Safe (some_inj h) (goes-on looping s (serving k) tt i)
turn-Sound (returns (some e)) (serving k) s s' h i =
    subst Safe (some_inj h) (goes-on (failing k e) s (serving k) tt i)
turn-Sound sees_closed (serving k) s s' h i = see_closed-Safe (serving k) (s.readers k) s s' h i
turn-Sound answers (complaining k m) s s' h i = absurd i.waits
turn-Sound (publishes r) (publishing k m) s s' h i =
    subst Safe (some_inj h) (publishes-Safe k m r s i)
turn-Sound answers (answering k r) s s' h i =
    hear-Safe (answering k r) k r (serving k) (s.readers k) s s' refl (λ _. tt)
      (own_message k r s i.waits) h i
turn-Sound answers (failing k e) s s' h i =
    hear-Safe (failing k e) k (some e) reconnecting (s.readers k) s s' refl (λ _. tt)
      (λ m _. error-Honest s.handled m e) h i
turn-Sound (connects false c) reconnecting s s' h i =
    subst Safe (some_inj h) (goes-on looping s reconnecting tt i)
turn-Sound (connects true true) reconnecting s s' h i =
    subst Safe (some_inj h) (goes-on looking s reconnecting tt i)
turn-Sound (connects true false) reconnecting s s' h i =
    subst Safe (some_inj h) (goes-on looping s reconnecting tt i)
turn-Sound loops looping s s' h i = subst Safe (some_inj h) (
    goes-on (if s.stop_publish then finished else looking) s looping (looped_waits s.stop_publish s)
      i)
turn-Sound t main s s' h i = absurd (cc h)

step-Safe : (m : Move) (s s' : Streaming) → Unconfirmed m → step m s ≡ some s' → Safe s → Safe s'
unfolding step Safe
step-Safe (reads k x) s s' c h i = read-Safe k x (s.readers k) s s' c refl h i
step-Safe (turns t) s s' c h i = turn-Sound t s.main s s' h i

new_streaming-Safe : Safe new_streaming
unfolding new_streaming Safe Honest Waits
new_streaming-Safe = record { readers_honest = λ k. tt; replies_honest = tt; waits = tt }

-- If no message of the client asks for a confirmation, every response that reports success is for a
-- message that prepareAndSend has published without an error, after any steps of a call of Publish, its
-- readers and the client.
pub success_published :
    (moves : List Move) (s : Streaming)
    → All Unconfirmed moves
    → run moves new_streaming ≡ some s
    → All (HonestReply s.handled) s.replies
unfolding Safe
success_published moves s plain h =
    (run_keeps Safe Unconfirmed step-Safe moves new_streaming s plain h
      new_streaming-Safe).replies_honest
