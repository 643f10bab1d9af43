-- ===== src/SubscriberSession/Known/Runs.antt =====
-- SubscriberSession: what Known says, through any events.
use mathlib.Core.Path.{subst}
use mathlib.Core.Option.{some-injective}
use tcp_pubsub.Base.{
  Option-cases, length, get_elem?, remove_at, All-remove_at, All-get_elem?, ℤ, ℕ, ◌≡◌, refl, inl,
  inr, some, List, [], ◌∷◌, arith,
}
use tcp_pubsub.SubscriberSession.{
  Endpoint, Posted, deliver, next_message, set_callback, SubscriberSession, new, start, on_posted,
  set_synchronous_callback, cancel, Event, cancel_call, callback_call, operation_ends, strand_runs,
  step, run,
}
use tcp_pubsub.SubscriberSession.Known.{
  InRange, Known, Within-refl, either-Known, same-Known, unless_canceled,
}
use tcp_pubsub.SubscriberSession.Known.Handlers.{resolve-Known, length-Known, completed-Known}
use tcp_pubsub.Wire.Endian.{Host}
use tcp_pubsub.Asio.{Completion}

module _ {l : List Endpoint} {most : ℤ} where
  operation-Known :
      (h : Host) (i : ℕ) (c : Completion) (s : SubscriberSession)
      → Known l most s
      → Known l most (step h (operation_ends i c) s)
  unfolding step
  operation-Known h i c s v = elim (Option-cases (get_elem? s.operations i)) [
    | inl gone ↦ rw (gone, step) v
    | inr (o, at) ↦
        let fits = All-get_elem? (InRange (length l)) s.operations i v.in_range at in
        rw (at, step)
          (completed-Known h o c (record s { operations = remove_at s.operations i }) fits
            (record {
              same_list = v.same_list;
              same_most = v.same_most;
              not_empty = v.not_empty;
              in_range = All-remove_at (InRange (length l)) s.operations i v.in_range;
              connected = v.connected;
              within = v.within;
            }))
  ]

  strand-Known :
      (h : Host) (ps : List Posted) (s : SubscriberSession)
      → s.strand ≡ ps
      → Known l most s
      → Known l most (step h strand_runs s)
  unfolding step on_posted
  strand-Known h [] s e v = rw (e, step) v
  strand-Known h (deliver b m ∷ ps) s e v =
      let t : SubscriberSession = record s { strand = ps } in
      let w = same-Known s t refl refl refl refl refl v in
      rw (e, step, on_posted) (unless_canceled t _ w (same-Known t _ refl refl refl refl refl w))
  strand-Known h (next_message ∷ ps) s e v =
      let t : SubscriberSession = record s { strand = ps } in
      rw (e, step, on_posted) (length-Known t (same-Known s t refl refl refl refl refl v))
  strand-Known h (set_callback c ∷ ps) s e v =
      rw (e, step, on_posted) (same-Known s _ refl refl refl refl refl v)

  step-Known :
      (h : Host) (e : Event) (s : SubscriberSession) → Known l most s → Known l most (step h e s)
  unfolding step cancel set_synchronous_callback
  step-Known h cancel_call s v =
      either-Known s.canceled _ _ (same-Known s _ refl refl refl refl refl v)
        (same-Known s _ refl refl refl refl refl v)
  step-Known h (callback_call c) s v =
      either-Known s.canceled s _ v (same-Known s _ refl refl refl refl refl v)
  step-Known h (operation_ends i c) s v = operation-Known h i c s v
  step-Known h strand_runs s v = strand-Known h s.strand s refl v

  run-Known :
      (h : Host) (es : List Event) (s : SubscriberSession)
      → Known l most s
      → Known l most (run h es s)
  unfolding run
  run-Known h [] s v = v
  run-Known h (e ∷ es) s v = run-Known h es (step h e s) (step-Known h e s v)

start-Known :
    (p : Endpoint) (more : List Endpoint) (most : ℤ) {s : SubscriberSession}
    → new (p ∷ more) most ≡ some s
    → Known (p ∷ more) most (start s)
unfolding new start
start-Known p more most {s} e =
    let v : Known (p ∷ more) most s = subst (Known (p ∷ more) most) (some-injective _ _ e) (record {
      same_list = refl;
      same_most = refl;
      not_empty = omega arith;
      in_range = tt;
      connected = inl refl;
      within = Within-refl most;
    }) in
    either-Known s.canceled s _ v (resolve-Known 0 s (omega arith) v)

-- From the constructor and start(), through any events: publisher_list_ and the number of attempts
-- stay as they were given; every index that an operation in flight has captured, with which
-- publisher_list_ is subscripted, is in its range; the connected publisher is none or an entry of
-- the list; and the retries left are never more than the attempts and never fall below 0, or never
-- change if the number of attempts is negative.
pub run_started-Known :
    (h : Host) (es : List Event) (p : Endpoint) (more : List Endpoint) (attempts : ℤ)
    {s : SubscriberSession}
    → new (p ∷ more) attempts ≡ some s
    → Known (p ∷ more) attempts (run h es (start s))
run_started-Known h es p more attempts {s} e =
    run-Known h es (start s) (start-Known p more attempts e)
