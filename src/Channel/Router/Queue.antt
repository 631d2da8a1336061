-- ===== src/Channel/Router/Queue.antt =====
-- The queue of transmissions under BeginTransmit and OnSendResult.
use dnp.Prelude.{
  Bool, true, false, ◌&&◌, some, List, [], ◌∷◌, ◌++◌, ◌≡◌, refl, arith, sym, ap, ◌∙◌, if_intro,
  append-nil,
}
use dnp.Channel.Router.{
  Record, Transmission, LinkLayerRouter, Action, transmit_result, check_for_send, begin_transmit,
  on_send_result,
}
use dnp.Channel.Router.Distinct.{distinct}
use dnp.Channel.Router.Events.{
  idle, Valid, contexts, buffers, unsent, results, written, Kept, accepted,
}

abbrev at : Bool → List Record → List Transmission → Bool → LinkLayerRouter
at online records queue transmitting = record {
  records = records;
  transmit_queue = queue;
  is_transmitting = transmitting;
  is_online = online;
}

check-at :
    (online can_write : Bool) (records : List Record) (queue : List Transmission)
    (transmitting : Bool)
    → online ≡ true
    → distinct records ≡ true
    → (transmitting && idle queue) ≡ false
    → let x = check_for_send can_write (at online records queue transmitting) in
      Valid x.1
      × (x.1.is_online ≡ true)
      × (contexts queue ≡ results x.0 ++ contexts x.1.transmit_queue)
      × (unsent transmitting queue ≡ written x.0 ++ unsent x.1.is_transmitting x.1.transmit_queue)
unfolding check_for_send idle results written unsent buffers
check-at false can_write rs queue transmitting up d f = absurd (ground (arith, up))
check-at true can_write rs [] transmitting up d f =
    (record { separate = d; front = f; down = refl }, refl, refl, refl)
check-at true can_write rs (tx ∷ queue) true up d f =
    (record { separate = d; front = f; down = refl }, refl, refl, refl)
check-at true true rs (tx ∷ queue) false up d f =
    (record { separate = d; front = refl; down = refl }, refl, refl, refl)
check-at true false rs (tx ∷ queue) false up d f =
    (record { separate = d; front = refl; down = refl }, refl, refl, refl)

pub contexts-append : (xs ys : List Transmission) → contexts (xs ++ ys) ≡ contexts xs ++ contexts ys
unfolding contexts
contexts-append [] ys = refl
contexts-append (x ∷ xs) ys = ap (λ zs. x.context ∷ zs) (contexts-append xs ys)

pub buffers-append : (xs ys : List Transmission) → buffers (xs ++ ys) ≡ buffers xs ++ buffers ys
unfolding buffers
buffers-append [] ys = refl
buffers-append (x ∷ xs) ys = ap (λ zs. x.buffer ∷ zs) (buffers-append xs ys)

unsent-append :
    (transmitting : Bool) (xs ys : List Transmission)
    → (transmitting && idle xs) ≡ false
    → unsent transmitting (xs ++ ys) ≡ unsent transmitting xs ++ buffers ys
unfolding unsent idle buffers
unsent-append true [] ys f = absurd (ground (arith, f))
unsent-append false [] [] f = refl
unsent-append false [] (y ∷ ys) f = refl
unsent-append true (x ∷ xs) ys f = buffers-append xs ys
unsent-append false (x ∷ xs) ys f = ap (λ zs. x.buffer ∷ zs) (buffers-append xs ys)

idle-append :
    (transmitting : Bool) (xs : List Transmission) (y : Transmission)
    → (transmitting && idle (xs ++ (y ∷ []))) ≡ false
unfolding idle
idle-append transmitting [] y = ground arith
idle-append transmitting (x ∷ xs) y = ground arith

-- A call keeps the invariant, and the channel stays up unless it goes down.
unfoldable pub Stepped :
    LinkLayerRouter → List Transmission → List Action × LinkLayerRouter → Type 0
Stepped l accepted x = Valid x.1 × (l.is_online ≡ true → (x.1.is_online ≡ true) × Kept l accepted x)

pub transmit-Stepped :
    (tx : Transmission) (can_write : Bool) (l : LinkLayerRouter)
    → Valid l
    → Stepped l (tx ∷ []) (begin_transmit tx.buffer tx.context can_write l)
unfolding Stepped begin_transmit Kept contexts buffers
transmit-Stepped tx can_write l v =
    if_intro (l.is_online) (Stepped l (tx ∷ []))
      (λ up.
        let q = l.transmit_queue ++ (tx ∷ []) in
        let c =
          check-at l.is_online can_write l.records q l.is_transmitting up v.separate
            (idle-append l.is_transmitting l.transmit_queue tx) in
        (
          c.0,
          λ u. (
            c.1,
            (
              sym (contexts-append l.transmit_queue (tx ∷ [])) ∙ c.2,
              sym (unsent-append l.is_transmitting l.transmit_queue (tx ∷ []) v.front) ∙ c.3,
            ),
          ),
        ))
      (λ off. (v, λ up. absurd (ground (arith, off, up))))

-- A call that neither writes nor answers.
pub quiet :
    (l l' : LinkLayerRouter) (actions : List Action)
    → l'.transmit_queue ≡ l.transmit_queue
    → l'.is_transmitting ≡ l.is_transmitting
    → results actions ≡ []
    → written actions ≡ []
    → Kept l [] (actions, l')
unfolding Kept contexts buffers
quiet l l' actions q t r w = (append-nil _ ∙ rw (q, r) refl, append-nil _ ∙ rw (q, t, w) refl)

waiting : (queue : List Transmission) → unsent false queue ≡ buffers queue
unfolding unsent buffers
waiting [] = refl
waiting (tx ∷ queue) = refl

pub sent-Stepped :
    (result can_write : Bool) (queue : List Transmission) (l : LinkLayerRouter)
    → l.transmit_queue ≡ queue
    → Valid l
    → l.is_transmitting ≡ true
    → (x : List Action × LinkLayerRouter) × (on_send_result result can_write l ≡ some x)
      × Stepped l [] x
unfolding on_send_result Stepped Kept contexts buffers results written unsent idle
sent-Stepped result can_write [] l e v t = absurd (ground (arith, t, v.front, ap idle e))
sent-Stepped result can_write (tx ∷ rest) l e v t =
    let up : l.is_online ≡ true = ground (arith, v.down, t) in
    let c = check-at l.is_online can_write l.records rest false up v.separate refl in
    let x = check_for_send can_write (at l.is_online l.records rest false) in
    (
      (transmit_result tx.context result ∷ x.0, x.1),
      rw e refl,
      (
        c.0,
        λ u. (
          c.1,
          (
            append-nil _ ∙ rw e (ap (λ ys. tx.context ∷ ys) c.2),
            append-nil _ ∙ rw (e, t) (sym (waiting rest) ∙ c.3),
          ),
        ),
      ),
    )
