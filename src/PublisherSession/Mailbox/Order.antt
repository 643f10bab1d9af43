-- ===== src/PublisherSession/Mailbox/Order.antt =====
-- PublisherSession: the order in which the mailbox of the send queue writes, and what it leaves out.
use mathlib.Core.List.{Sublistᴰ}
use mathlib.Core.List.Sublistᴰ
use mathlib.Core.Path.{subst}
use tcp_pubsub.Base.{
  last_or, zero, suc, ◌≡◌, refl, ap, Option, none, some, List, [], ◌∷◌, ◌++◌, map, append-nil,
  append_assoc, arith, sym, ◌∙◌, ◌≢◌,
}
use tcp_pubsub.PublisherSession.SendOrder.{submitted}
use tcp_pubsub.PublisherSession.SendQueue.{waiting}
use tcp_pubsub.PublisherSession.{Buffer, Event, send_call, cancel_call, read_ends, write_ends}
use tcp_pubsub.PublisherSession.Mailbox.{
  Mailbox, free, writing, closed, Op, put, written, write_fails, close, skip, act, run_mailbox,
  op_of, act_closed,
}
use tcp_pubsub.Asio.{failed, done}

-- The buffers that wait in a mailbox, those that an operation brings, and those of a run.
abbrev pub waits : Mailbox → List Buffer
waits free = []
waits (writing o) = waiting o
waits closed = []

abbrev put_of : Op → List Buffer
put_of (put b) = b ∷ []
put_of written = []
put_of write_fails = []
put_of close = []
put_of skip = []

abbrev pub puts : List Op → List Buffer
puts [] = []
puts (o ∷ os) = put_of o ++ puts os

act-order :
    (o : Op) (m : Mailbox) → Sublistᴰ ((act o m).1 ++ waits (act o m).0) (waits m ++ put_of o)
unfolding act
act-order (put b) free = Sublistᴰ.refl _
act-order (put b) (writing none) = Sublistᴰ.refl _
act-order (put b) (writing (some c)) = Sublistᴰ.cons (Sublistᴰ.refl _)
act-order (put b) closed = Sublistᴰ.nil-sublist _
act-order written free = Sublistᴰ.slnil
act-order written (writing none) = Sublistᴰ.slnil
act-order written (writing (some c)) = Sublistᴰ.refl _
act-order written closed = Sublistᴰ.slnil
act-order write_fails free = Sublistᴰ.slnil
act-order write_fails (writing o) = Sublistᴰ.nil-sublist _
act-order write_fails closed = Sublistᴰ.slnil
act-order close m = Sublistᴰ.nil-sublist _
act-order skip m = rw append-nil (Sublistᴰ.refl _)

-- What a mailbox writes is a part of what waited and what is put into it, in the same order.
pub run_mailbox-order :
    (os : List Op) (m : Mailbox) → Sublistᴰ (run_mailbox os m).1 (waits m ++ puts os)
unfolding run_mailbox
run_mailbox-order [] m = Sublistᴰ.nil-sublist _
run_mailbox-order (o ∷ os) m =
    let next = (act o m).0 in
    let first = (act o m).1 in
    let later = Sublistᴰ.append (Sublistᴰ.refl first) (run_mailbox-order os next) in
    let now = Sublistᴰ.append (act-order o m) (Sublistᴰ.refl (puts os)) in
    let from = append_assoc first (waits next) (puts os) in
    let into = append_assoc (waits m) (put_of o) (puts os) in
    Sublistᴰ.trans later
      (subst (λ (r : List Buffer × List Buffer). Sublistᴰ r.0 r.1) (λ i. (from i, into i)) now)

free-ne-closed : free ≢ closed
free-ne-closed e = cc

closed_stays : (os : List Op) → (run_mailbox os closed).0 ≡ closed
unfolding run_mailbox
closed_stays [] = refl
closed_stays (o ∷ os) = rw (act_closed o) (closed_stays os)

not_free : (os : List Op) → ¬ ((run_mailbox os closed).0 ≡ free)
not_free os e = free-ne-closed (sym e ∙ closed_stays os)

-- A mailbox that is free in the end has written the newest buffer last.
pub run_mailbox-last :
    (os : List Op) (m : Mailbox) (d : Option Buffer)
    → (run_mailbox os m).0 ≡ free
    → last_or d (run_mailbox os m).1 ≡ last_or d (waits m ++ puts os)
unfolding run_mailbox act
run_mailbox-last [] free d e = refl
run_mailbox-last [] (writing o) d e = ground arith
run_mailbox-last [] closed d e = ground arith
run_mailbox-last (put b ∷ os) free d e = run_mailbox-last os (writing none) (some b) e
run_mailbox-last (put b ∷ os) (writing none) d e = run_mailbox-last os (writing (some b)) d e
run_mailbox-last (put b ∷ os) (writing (some c)) d e = run_mailbox-last os (writing (some b)) d e
run_mailbox-last (written ∷ os) free d e = run_mailbox-last os free d e
run_mailbox-last (written ∷ os) (writing none) d e = run_mailbox-last os free d e
run_mailbox-last (written ∷ os) (writing (some b)) d e =
    run_mailbox-last os (writing none) (some b) e
run_mailbox-last (write_fails ∷ os) free d e = run_mailbox-last os free d e
run_mailbox-last (write_fails ∷ os) (writing o) d e = absurd (not_free os e)
run_mailbox-last (close ∷ os) m d e = absurd (not_free os e)
run_mailbox-last (skip ∷ os) m d e = run_mailbox-last os m d e
run_mailbox-last (put b ∷ os) closed d e = absurd (not_free os e)
run_mailbox-last (written ∷ os) closed d e = absurd (not_free os e)
run_mailbox-last (write_fails ∷ os) closed d e = absurd (not_free os e)

-- The buffers that a mailbox is given are those of the calls of sendDataBuffer.
pub puts-map : (es : List Event) → puts (map op_of es) ≡ submitted es
puts-map [] = refl
puts-map (send_call b ∷ es) = ap (◌∷◌ b) (puts-map es)
puts-map (cancel_call ∷ es) = puts-map es
puts-map (read_ends i c ∷ es) = puts-map es
puts-map (write_ends zero failed ∷ es) = puts-map es
puts-map (write_ends zero (done b) ∷ es) = puts-map es
puts-map (write_ends (suc i) c ∷ es) = puts-map es
