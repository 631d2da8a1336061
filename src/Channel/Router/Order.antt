-- ===== src/Channel/Router/Order.antt =====
-- Sequences of calls of LinkLayerRouter.
use dnp.Prelude.{some, List, [], ◌∷◌, ◌++◌, ◌≡◌, refl, arith, sym, ap, ◌∙◌, append_assoc}
use dnp.Channel.Router.{Transmission, LinkLayerRouter, Action}
use dnp.Channel.Router.Events.{
  Event, step, run, Valid, contexts, buffers, unsent, results, written, Kept, accepted,
  all_accepted, all_steady, InOrder,
}
use dnp.Channel.Router.Queue.{quiet, contexts-append, buffers-append}
use dnp.Channel.Router.Calls.{Moved, step-Moved, results-append, written-append, Quiet}

splice {ℓ} :
    {A : Type ℓ} (a b c d e f g : List A)
    → a ++ b ≡ c ++ d
    → d ++ e ≡ f ++ g
    → a ++ (b ++ e) ≡ (c ++ f) ++ g
splice a b c d e f g p q =
    sym (append_assoc a b e)
    ∙ ap (λ x. x ++ e) p
    ∙ append_assoc c d e
    ∙ ap (λ x. c ++ x) q
    ∙ sym (append_assoc c f g)

Kept-then :
    (l : LinkLayerRouter) (first second : List Transmission) (x y : List Action × LinkLayerRouter)
    → Kept l first x
    → Kept x.1 second y
    → Kept l (first ++ second) (x.0 ++ y.0, y.1)
unfolding Kept
Kept-then l first second x y p q = (
  ap (λ z. contexts l.transmit_queue ++ z) (contexts-append first second)
      ∙ splice (contexts l.transmit_queue) (contexts first) (results x.0)
          (contexts x.1.transmit_queue) (contexts second) (results y.0)
          (contexts y.1.transmit_queue) p.0 q.0
      ∙ ap (λ z. z ++ contexts y.1.transmit_queue) (sym (results-append x.0 y.0)),
  ap (λ z. unsent l.is_transmitting l.transmit_queue ++ z) (buffers-append first second)
      ∙ splice (unsent l.is_transmitting l.transmit_queue) (buffers first) (written x.0)
          (unsent x.1.is_transmitting x.1.transmit_queue) (buffers second) (written y.0)
          (unsent y.1.is_transmitting y.1.transmit_queue) p.1 q.1
      ∙ ap (λ z. z ++ unsent y.1.is_transmitting y.1.transmit_queue) (sym (written-append x.0 y.0)),
)

run_then :
    (e : Event) (es : List Event) (l : LinkLayerRouter) (x y : List Action × LinkLayerRouter)
    → step e l ≡ some x
    → run es x.1 ≡ some y
    → run (e ∷ es) l ≡ some (x.0 ++ y.0, y.1)
unfolding run
run_then e es l x y p q = rw (p, run) (rw (q, run) refl)

-- From a router whose records have different routes and contexts, whose frame under way is the first
-- of its queue, and that has neither where it is offline, every sequence of calls returns, without a
-- use of the front of an empty queue, and leaves such a router. Where the channel is up and no call
-- takes it down, it stays up, the frames that wait and those handed over are written in their order,
-- each at most once, and their results are given to their contexts in the same order.
pub run-InOrder :
    (es : List Event) (l : LinkLayerRouter)
    → Valid l
    → (x : List Action × LinkLayerRouter) × (run es l ≡ some x) × Valid x.1 × InOrder es l x
unfolding run InOrder all_accepted all_steady Quiet results written contexts buffers Moved
run-InOrder [] l v = (([], l), refl, v, λ s up. (up, quiet l l [] refl refl refl refl))
run-InOrder (e ∷ es) l v =
    let here = step-Moved e l v in
    let later = run-InOrder es here.0.1 here.2.0 in
    (
      (here.0.0 ++ later.0.0, later.0.1),
      run_then e es l here.0 later.0 here.1 later.1,
      later.2,
      λ s up.
          let first = here.2.1 (ground (arith, s)) up in
          let second = later.3 (ground (arith, s)) first.0 in
          (second.0, Kept-then l (accepted e) (all_accepted es) here.0 later.0 first.1 second.1),
    )
