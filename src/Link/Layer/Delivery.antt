-- ===== src/Link/Layer/Delivery.antt =====
-- What the layer passes up of repeated frames, and how long it repeats its own.
use dnp.Prelude.{
  ℕ, zero, suc, Bool, true, false, not, ◌&&◌, none, List, [], ◌∷◌, ◌≡◌, ◌≢◌, ◌↔◌, ◌⊎◌, inl, inr,
  refl, ap, ◌∙◌, ◌++◌, Bool-cases, arith,
}
use dnp.Link.Function.{LinkFunction, invalid}
use dnp.Link.Frame.{format_reset_link_states}
use dnp.Transport.Tx.{ITransportSegment}
use dnp.Link.Header.{LinkHeaderFields}
use dnp.Link.Context.{
  LinkContext, LinkConfig, Action, router_begin_transmit, upper_receive, post_send_result, reset,
  link_reset_transmit_wait, reset_link_wait, idle, tx_idle, tx_primary, queue_ack, queue_transmit,
  queue_reset_links, toggle_read_fcb, push_data_up, retry, start_response_timer,
  complete_send_operation, try_pending_pri, try_pending_sec, validate,
}
use dnp.Link.PriStates.{on_timeout, on_transmit_result, try_send_confirmed, try_send_unconfirmed}
use dnp.Link.SecStates.{on_confirmed_user_data, sec_on_transmit_result}
use dnp.Link.Layer.{
  expire_response_timer, on_response_timeout, on_tx_result, transmitted, try_start_transmission,
  try_start_keep_alive, try_start_segments, accept_frame, handle_frame, on_frame,
}

-- The data that was passed up, the last first.
abbrev pub received : List Action → List (List ℕ)
received [] = []
received (upper_receive userdata ∷ output) = userdata ∷ received output
received (_ ∷ output) = received output

module _ {S : Type 0} where
  received-queue_transmit :
      (buffer : List ℕ) (primary : Bool) (c : LinkContext S)
      → received (queue_transmit buffer primary c).output ≡ received c.output
  unfolding queue_transmit
  received-queue_transmit buffer primary c = ground arith

  queue_transmit-next_read_fcb :
      (buffer : List ℕ) (primary : Bool) (c : LinkContext S)
      → (queue_transmit buffer primary c).next_read_fcb ≡ c.next_read_fcb
  unfolding queue_transmit
  queue_transmit-next_read_fcb buffer primary c = ground arith

  -- Behind a confirmed frame the station in Reset is in Reset again once its reply is sent, and a further
  -- confirmed frame with the same FCB passes nothing up, in any context that expects the FCB that the
  -- first one left.
  pub confirmed_user_data_repeated :
      (fcb : Bool) (first again : List ℕ) (c d : LinkContext S)
      → d.next_read_fcb ≡ (on_confirmed_user_data reset fcb first c).0.next_read_fcb
      → (sec_on_transmit_result (on_confirmed_user_data reset fcb first c).1 ≡ reset)
        × (received (on_confirmed_user_data reset fcb again d).0.output ≡ received d.output)
  unfolding on_confirmed_user_data sec_on_transmit_result queue_ack toggle_read_fcb push_data_up
      queue_transmit
  confirmed_user_data_repeated fcb first again c d e = ground (arith, e)

-- A frame of the other kind of station, for the local address and from the remote one.
pub record ForUs {S : Type 0} (h : LinkHeaderFields) (c : LinkContext S) : Type 0 where
  pub online : c.is_online ≡ true
  pub other : h.is_from_master ≡ not c.config.is_master
  pub to_local : h.dest ≡ c.config.local_addr
  pub from_remote : h.src ≡ c.config.remote_addr

module _ {S : Type 0} (source : ITransportSegment S) where
  handled_function :
      (func : LinkFunction) (h : LinkHeaderFields) (userdata : List ℕ) (c : LinkContext S)
      → func ≢ invalid
      → (handle_frame source func h userdata c).1 ≡ true
  unfolding handle_frame
  handled_function invalid h userdata c ne = absurd (ne refl)
  handled_function _ h userdata c ne = refl

  accept_frame-ForUs :
      (now : ℕ) (h : LinkHeaderFields) (userdata : List ℕ) (c : LinkContext S)
      → ForUs h c
      → accept_frame source now h userdata c
        ≡ handle_frame source h.func h userdata (record c { last_message_timestamp = now })
  unfolding accept_frame validate
  accept_frame-ForUs now h userdata c f =
      ground (arith, f.online, f.other, f.to_local, f.from_remote)

  ForUs-cases :
      (now : ℕ) (h : LinkHeaderFields) (userdata : List ℕ) (c : LinkContext S)
      → ForUs h c ⊎ (accept_frame source now h userdata c ≡ (c, false))
  unfolding accept_frame validate
  ForUs-cases now h userdata c =
      elim (Bool-cases (c.is_online && validate h.is_from_master h.src h.dest c)) [
        | inl e ↦ inl (record {
          online = ground (arith, e);
          other = ground (arith, e);
          to_local = ground (arith, e);
          from_remote = ground (arith, e);
        })
        | inr e ↦ inr (ground (arith, e))
      ]

  on_frame-handled :
      (now : ℕ) (h : LinkHeaderFields) (userdata : List ℕ) (c : LinkContext S)
      → (on_frame source now h userdata c).1 ≡ (accept_frame source now h userdata c).1
  unfolding on_frame
  on_frame-handled now h userdata c =
      ground (arith, Bool-cases (accept_frame source now h userdata c).1)

  on_frame-refused :
      (now : ℕ) (h : LinkHeaderFields) (userdata : List ℕ) (c d : LinkContext S)
      → accept_frame source now h userdata c ≡ (d, false)
      → on_frame source now h userdata c ≡ (d, false)
  unfolding on_frame
  on_frame-refused now h userdata c d e = rw (e, on_frame) refl

  on_frame-unknown :
      (now : ℕ) (h : LinkHeaderFields) (userdata : List ℕ) (c : LinkContext S)
      → ForUs h c
      → h.func ≡ invalid
      → on_frame source now h userdata c ≡ (record c { last_message_timestamp = now }, false)
  unfolding handle_frame
  on_frame-unknown now h userdata c f i =
      let d = record c { last_message_timestamp = now } in
      on_frame-refused now h userdata c d (
        accept_frame-ForUs now h userdata c f
        ∙ ap (λ func. handle_frame source func h userdata d) i)

-- The layer handles a frame exactly when it is online, the frame is of the other kind of station,
-- for the local address and from the remote one, and the frame's function is known. A frame that
-- fails one of the first four changes nothing, whatever it carries, and one that fails only the last
-- changes nothing but the time of the last message.
pub on_frame_handled :
    {S : Type 0} (source : ITransportSegment S) (now : ℕ) (h : LinkHeaderFields) (userdata : List ℕ)
    (c : LinkContext S)
    → (((on_frame source now h userdata c).1 ≡ true) ↔ (ForUs h c × (h.func ≢ invalid)))
      × (¬ (ForUs h c) → on_frame source now h userdata c ≡ (c, false))
      × (ForUs h c
          → h.func ≡ invalid
          → on_frame source now h userdata c ≡ (record c { last_message_timestamp = now }, false))
on_frame_handled source now h userdata c = (
  (
    λ e. elim (ForUs-cases source now h userdata c) [
      | inl f ↦ (
        f,
        λ i.
            absurd
              (ground (arith, e, ap (λ x. x.1) (on_frame-unknown source now h userdata c f i))),
      )
      | inr r ↦
          absurd (ground (arith, e, ap (λ x. x.1) (on_frame-refused source now h userdata c c r)))
    ],
    λ both.
        on_frame-handled source now h userdata c
        ∙ ap (λ x. x.1) (accept_frame-ForUs source now h userdata c both.0)
        ∙ handled_function source h.func h userdata _ both.1,
  ),
  λ no. elim (ForUs-cases source now h userdata c) [
    | inl f ↦ absurd (no f)
    | inr r ↦ on_frame-refused source now h userdata c c r
  ],
  on_frame-unknown source now h userdata c,
)

-- The frame that resets the remote station, and n of them.
abbrev pub reset_frame : LinkConfig → List ℕ
reset_frame config = format_reset_link_states config.is_master config.remote_addr config.local_addr

unfoldable pub resets : ℕ → LinkConfig → List Action
resets zero config = []
resets (suc n) config = router_begin_transmit (reset_frame config) ∷ resets n config

-- The primary station waits for the reset's acknowledgement and has n retries left.
pub record Unanswered {S : Type 0} (n : ℕ) (c : LinkContext S) : Type 0 where
  pub waits : c.pri_state ≡ reset_link_wait
  pub timer : c.rsp_timeout_timer ≡ true
  pub retries : c.num_retry_remaining ≡ n
  pub free : c.tx_mode ≡ tx_idle
  pub no_pri : c.pending_pri_tx ≡ none
  pub no_sec : c.pending_sec_tx ≡ none
  pub no_keep_alive : c.keep_alive_timeout ≡ false

-- The repeated reset is on its way.
record Repeated {S : Type 0} (n : ℕ) (c : LinkContext S) : Type 0 where
  waits : c.pri_state ≡ link_reset_transmit_wait
  timer : c.rsp_timeout_timer ≡ false
  retries : c.num_retry_remaining ≡ n
  busy : c.tx_mode ≡ tx_primary
  no_pri : c.pending_pri_tx ≡ none
  no_sec : c.pending_sec_tx ≡ none
  no_keep_alive : c.keep_alive_timeout ≡ false

module _ {S : Type 0} (source : ITransportSegment S) where
  -- No reply comes: the timer expires, and the repeated frame is sent.
  abbrev pub repeat_reset : LinkContext S → LinkContext S
  repeat_reset c = on_tx_result source true (expire_response_timer source c)

  expire_response_timer-Repeated :
      (n : ℕ) (c : LinkContext S)
      → Unanswered (suc n) c
      → Repeated n (expire_response_timer source c)
  unfolding expire_response_timer on_response_timeout on_timeout retry queue_reset_links
      queue_transmit try_start_transmission try_start_keep_alive try_start_segments
      try_send_confirmed try_send_unconfirmed
  expire_response_timer-Repeated n c u = ground (arith, u)

  on_tx_result-Unanswered :
      (n : ℕ) (c : LinkContext S) → Repeated n c → Unanswered n (on_tx_result source true c)
  unfolding on_tx_result transmitted on_transmit_result start_response_timer try_pending_pri
      try_pending_sec try_start_transmission try_start_keep_alive try_start_segments
      try_send_confirmed try_send_unconfirmed
  on_tx_result-Unanswered n c u = ground (arith, u)

  repeat_reset-Unanswered :
      (n : ℕ) (c : LinkContext S) → Unanswered (suc n) c → Unanswered n (repeat_reset c)
  repeat_reset-Unanswered n c u = on_tx_result-Unanswered n _ (expire_response_timer-Repeated n c u)

  expire_response_timer-output :
      (n : ℕ) (c : LinkContext S)
      → Unanswered (suc n) c
      → ((expire_response_timer source c).output
          ≡ router_begin_transmit (reset_frame c.config) ∷ c.output)
        × ((expire_response_timer source c).config ≡ c.config)
  unfolding expire_response_timer on_response_timeout on_timeout retry queue_reset_links
      queue_transmit try_start_transmission try_start_keep_alive try_start_segments
      try_send_confirmed try_send_unconfirmed
  expire_response_timer-output n c u = ground (arith, u)

  on_tx_result-output :
      (n : ℕ) (c : LinkContext S)
      → Repeated n c
      → ((on_tx_result source true c).output ≡ c.output)
        × ((on_tx_result source true c).config ≡ c.config)
  unfolding on_tx_result transmitted on_transmit_result start_response_timer try_pending_pri
      try_pending_sec try_start_transmission try_start_keep_alive try_start_segments
      try_send_confirmed try_send_unconfirmed
  on_tx_result-output n c u = ground (arith, u)

  repeat_reset-output :
      (n : ℕ) (c : LinkContext S)
      → Unanswered (suc n) c
      → ((repeat_reset c).output ≡ router_begin_transmit (reset_frame c.config) ∷ c.output)
        × ((repeat_reset c).config ≡ c.config)
  repeat_reset-output n c u =
      let sent = expire_response_timer-output n c u in
      let done =
        on_tx_result-output n (expire_response_timer source c)
          (expire_response_timer-Repeated n c u) in
      (done.0 ∙ sent.0, done.1 ∙ sent.1)

  unfoldable pub repeat_resets : ℕ → LinkContext S → LinkContext S
  repeat_resets zero c = c
  repeat_resets (suc n) c = repeat_resets n (repeat_reset c)

  last_timeout :
      (c : LinkContext S)
      → Unanswered 0 c
      → let d = expire_response_timer source c in
        (d.pri_state ≡ idle)
        × (d.has_segments ≡ false)
        × (d.output ≡ post_send_result false ∷ c.output)
  unfolding expire_response_timer on_response_timeout on_timeout retry complete_send_operation
      try_start_transmission try_start_keep_alive try_start_segments try_send_confirmed
      try_send_unconfirmed
  last_timeout c u = ground (arith, u)

  resets-append :
      (n : ℕ) (config : LinkConfig) (output : List Action)
      → resets n config ++ (router_begin_transmit (reset_frame config) ∷ output)
        ≡ resets (suc n) config ++ output
  unfolding resets
  resets-append zero config output = refl
  resets-append (suc n) config output =
      ap (◌∷◌ (router_begin_transmit (reset_frame config))) (resets-append n config output)

  -- A primary station that waits for the acknowledgement of a reset, with n retries left, an idle
  -- transmitter and no keep-alive request: when no reply comes, it sends the frame that resets the
  -- remote station n more times, and nothing else, and the timeout behind them reports the failure
  -- and leaves it idle, without segments.
  pub repeat_resets-fails :
      (n : ℕ) (c : LinkContext S)
      → Unanswered n c
      → let d = expire_response_timer source (repeat_resets n c) in
        (d.pri_state ≡ idle)
        × (d.has_segments ≡ false)
        × (d.output ≡ post_send_result false ∷ (resets n c.config ++ c.output))
  unfolding repeat_resets resets
  repeat_resets-fails zero c u = last_timeout c u
  repeat_resets-fails (suc n) c u =
      let rest = repeat_resets-fails n (repeat_reset c) (repeat_reset-Unanswered n c u) in
      let sent = repeat_reset-output n c u in
      (
        rest.0,
        rest.1,
        rest.2
            ∙ ap (λ config. post_send_result false ∷ (resets n config ++ (repeat_reset c).output))
                sent.1
            ∙ ap (λ output. post_send_result false ∷ (resets n c.config ++ output)) sent.0
            ∙ ap (λ output. post_send_result false ∷ output) (resets-append n c.config c.output),
      )
