-- ===== src/Link/Layer/Progress.antt =====
-- The link layer's calls keep the invariant, and what there is to send is started.
use dnp.Prelude.{
  ℕ, Bool, true, false, not, List, [], ◌∷◌, ◌≡◌, refl, sym, subst, ◌+◌, leb, if◌then◌else◌,
  if_intro, arith,
}
use dnp.Transport.Tx.{ITransportSegment}
use dnp.Link.Function.{
  LinkFunction, pri_reset_link_states, pri_test_link_states, pri_confirmed_user_data,
  pri_unconfirmed_user_data, pri_request_link_status, sec_ack, sec_nack, sec_link_status,
  sec_not_supported, invalid,
}
use dnp.Link.Header.{LinkHeaderFields}
use dnp.Link.Context.{
  LinkContext, LinkConfig, PriState, idle, new_context, LinkTransmitMode, tx_primary, tx_secondary,
  set_tx_segment, tx_mode_is_idle, tx_mode_is_primary, start_keep_alive_timer, validate,
}
use dnp.Link.Layer.{
  on_lower_layer_up, on_lower_layer_down, try_start_keep_alive, try_start_segments,
  try_start_transmission, send, transmitted, on_tx_result, handle_frame, accept_frame, on_frame,
  on_keep_alive_timeout, on_response_timeout, expire_response_timer, expire_keep_alive_timer, Event,
  lower_layer_up, lower_layer_down, send_segments, transmit_result, frame, response_timer,
  keep_alive_timer_expired, step, run,
}
use dnp.Link.Layer.Safety.{
  Consistent, pri_is_idle, on_ack-Consistent, on_nack-Consistent, on_link_status-Consistent,
  on_not_supported-Consistent, on_timeout-Consistent, try_start_keep_alive-Consistent,
  try_start_segments-Consistent, on_reset_link_states-Consistent, on_request_link_status-Consistent,
  on_test_link_status-Consistent, on_confirmed_user_data-Consistent, freed, freed_pri, freed_sec,
  freed_pri-sending, freed_sec-sending, on_transmit_result-Consistent,
  sec_on_transmit_result-Consistent,
}

-- What holds between two calls: an idle primary station has nothing to send.
pub record Ready {S : Type 0} (c : LinkContext S) : Type 0 where
  pub consistent : Consistent c
  pub sends : pri_is_idle c.pri_state ≡ true → c.has_segments ≡ false
  pub keeps_alive : pri_is_idle c.pri_state ≡ true → c.keep_alive_timeout ≡ false

primary_mode : (m : LinkTransmitMode) → tx_mode_is_primary m ≡ true → m ≡ tx_primary
primary_mode _ h = ground (arith, h)

secondary_mode :
    (m : LinkTransmitMode)
    → tx_mode_is_idle m ≡ false
    → tx_mode_is_primary m ≡ false
    → m ≡ tx_secondary
secondary_mode _ h k = ground (arith, h, k)

module _ {S : Type 0} (source : ITransportSegment S) (c : LinkContext S) where
  try_start_keep_alive-started :
      (p : PriState)
      → c.pri_state ≡ p
      → pri_is_idle (try_start_keep_alive source c).pri_state ≡ true
      → (try_start_keep_alive source c).keep_alive_timeout ≡ false
  unfolding try_start_keep_alive
  try_start_keep_alive-started idle e = ground (arith, e)
  try_start_keep_alive-started _ e = ground (arith, e)

  try_start_segments-started :
      (p : PriState)
      → c.pri_state ≡ p
      → pri_is_idle (try_start_segments source c).pri_state ≡ true
      → (try_start_segments source c).has_segments ≡ false
  unfolding try_start_segments
  try_start_segments-started idle e = ground (arith, e)
  try_start_segments-started _ e = ground (arith, e)

  try_start_segments-keeps_alive :
      (p : PriState)
      → c.pri_state ≡ p
      → (pri_is_idle c.pri_state ≡ true → c.keep_alive_timeout ≡ false)
      → pri_is_idle (try_start_segments source c).pri_state ≡ true
      → (try_start_segments source c).keep_alive_timeout ≡ false
  unfolding try_start_segments
  try_start_segments-keeps_alive idle e h = ground (arith, e, h)
  try_start_segments-keeps_alive _ e h = ground (arith, e, h)

module _ {S : Type 0} (source : ITransportSegment S) (c : LinkContext S) where
  try_start_transmission-Ready : Consistent c → Ready (try_start_transmission source c)
  unfolding try_start_transmission
  try_start_transmission-Ready k =
      let c' = try_start_keep_alive source c in
      record {
        consistent =
            try_start_segments-Consistent source c'
              (try_start_keep_alive-Consistent source c k _ refl) _ refl;
        sends = try_start_segments-started source c' _ refl;
        keeps_alive =
            try_start_segments-keeps_alive source c' _ refl
              (try_start_keep_alive-started source c _ refl);
      }

  transmitted-Consistent :
      (success : Bool) → Consistent c → Consistent (transmitted source success c).0
  unfolding transmitted
  transmitted-Consistent success k =
      if_intro (tx_mode_is_idle c.tx_mode) (λ (result : LinkContext S × Bool). Consistent result.0)
        (λ _. k)
        (λ busy.
          if_intro (tx_mode_is_primary c.tx_mode) Consistent
            (λ pri.
              let e = primary_mode c.tx_mode pri in
              on_transmit_result-Consistent source (freed source c) _ success
                (freed_pri source c k e) refl (freed_pri-sending source c k e))
            (λ sec.
              let e = secondary_mode c.tx_mode busy sec in
              sec_on_transmit_result-Consistent source (freed source c) _ (freed_sec source c k e)
                refl (freed_sec-sending source c k e)))

  transmitted-unknown :
      (success : Bool)
      → (transmitted source success c).1 ≡ false
      → (transmitted source success c).0 ≡ c
  unfolding transmitted
  transmitted-unknown success =
      if_intro (tx_mode_is_idle c.tx_mode)
        (λ (result : LinkContext S × Bool). result.1 ≡ false → result.0 ≡ c) (λ _ _. refl)
        (λ _ e. absurd (ground (arith, e)))

  -- Only a frame without a known function is refused behind the tests of the addresses.
  handle_frame-refused :
      (func : LinkFunction) (h : LinkHeaderFields) (userdata : List ℕ)
      → Ready c
      → (handle_frame source func h userdata c).1 ≡ false
      → Ready (handle_frame source func h userdata c).0
  unfolding handle_frame
  handle_frame-refused invalid h userdata r e = r
  handle_frame-refused _ h userdata r e = absurd (ground (arith, e))

  handle_frame-Consistent :
      (func : LinkFunction) (h : LinkHeaderFields) (userdata : List ℕ)
      → c.is_online ≡ true
      → Consistent c
      → Consistent (handle_frame source func h userdata c).0
  unfolding handle_frame
  handle_frame-Consistent sec_ack h userdata o k = on_ack-Consistent source c k _ h.fcvdfc refl
  handle_frame-Consistent sec_nack h userdata o k = on_nack-Consistent source c k _ h.fcvdfc refl
  handle_frame-Consistent sec_link_status h userdata o k =
      on_link_status-Consistent source c k _ h.fcvdfc refl
  handle_frame-Consistent sec_not_supported h userdata o k =
      on_not_supported-Consistent source c k _ h.fcvdfc refl
  handle_frame-Consistent pri_test_link_states h userdata o k =
      on_test_link_status-Consistent source c k _ h.fcb o refl
  handle_frame-Consistent pri_reset_link_states h userdata o k =
      on_reset_link_states-Consistent source c k _ o refl
  handle_frame-Consistent pri_request_link_status h userdata o k =
      on_request_link_status-Consistent source c k _ o refl
  handle_frame-Consistent pri_confirmed_user_data h userdata o k =
      on_confirmed_user_data-Consistent source c k _ h.fcb userdata o refl
  handle_frame-Consistent pri_unconfirmed_user_data h userdata o k = ground (arith, k)
  handle_frame-Consistent invalid h userdata o k = k

module _ {S : Type 0} (source : ITransportSegment S) (c : LinkContext S) (r : Ready c) where
  on_tx_result-Ready : (success : Bool) → Ready (on_tx_result source success c)
  unfolding on_tx_result
  on_tx_result-Ready success =
      if_intro (transmitted source success c).1 Ready
        (λ _.
          try_start_transmission-Ready source _
            (transmitted-Consistent source c success r.consistent))
        (λ e. subst Ready (sym (transmitted-unknown source c success e)) r)

  accept_frame-Consistent :
      (now : ℕ) (h : LinkHeaderFields) (userdata : List ℕ)
      → Consistent (accept_frame source now h userdata c).0
  unfolding accept_frame
  accept_frame-Consistent now h userdata =
      if_intro (not c.is_online) (λ (result : LinkContext S × Bool). Consistent result.0)
        (λ _. r.consistent)
        (λ o.
          if_intro (validate h.is_from_master h.src h.dest c)
            (λ (result : LinkContext S × Bool). Consistent result.0)
            (λ _.
              handle_frame-Consistent source (record c { last_message_timestamp = now }) h.func h
                userdata (ground (arith, o)) (ground (arith, r.consistent)))
            (λ _. r.consistent))

  accept_frame-refused :
      (now : ℕ) (h : LinkHeaderFields) (userdata : List ℕ)
      → (accept_frame source now h userdata c).1 ≡ false
      → Ready (accept_frame source now h userdata c).0
  unfolding accept_frame
  accept_frame-refused now h userdata =
      if_intro (not c.is_online)
        (λ (result : LinkContext S × Bool). result.1 ≡ false → Ready result.0) (λ _ _. r)
        (λ o.
          if_intro (validate h.is_from_master h.src h.dest c)
            (λ (result : LinkContext S × Bool). result.1 ≡ false → Ready result.0)
            (λ _.
              handle_frame-refused source (record c { last_message_timestamp = now }) h.func h
                userdata
                (record {
                  consistent = ground (arith, r.consistent);
                  sends = r.sends;
                  keeps_alive = r.keeps_alive;
                }))
            (λ _ _. r))

  on_frame-Ready :
      (now : ℕ) (h : LinkHeaderFields) (userdata : List ℕ)
      → Ready (on_frame source now h userdata c).0
  unfolding on_frame
  on_frame-Ready now h userdata =
      let result = accept_frame source now h userdata c in
      if_intro result.1 (λ (done : LinkContext S × Bool). Ready done.0)
        (λ _. try_start_transmission-Ready source result.0 (accept_frame-Consistent now h userdata))
        (λ e. accept_frame-refused now h userdata e)

  send-Ready : (s : S) → Ready (send source s c)
  unfolding send set_tx_segment
  send-Ready s =
      if_intro (not c.is_online)
        (λ (result : LinkContext S × Bool).
          Ready (if result.1 then try_start_transmission source result.0 else result.0))
        (λ _. r)
        (λ o.
          if_intro c.has_segments
            (λ (result : LinkContext S × Bool).
              Ready (if result.1 then try_start_transmission source result.0 else result.0))
            (λ _. r)
            (λ free.
              try_start_transmission-Ready source (record c { segments = s; has_segments = true })
                (ground (arith, r.consistent, o))))

  expire_response_timer-Ready : Ready (expire_response_timer source c)
  unfolding expire_response_timer on_response_timeout
  expire_response_timer-Ready =
      if_intro c.rsp_timeout_timer Ready
        (λ t.
          try_start_transmission-Ready source _
            (on_timeout-Consistent source c r.consistent _ refl t))
        (λ _. r)

  expire_keep_alive_timer-Ready : (now : ℕ) → Ready (expire_keep_alive_timer source now c)
  unfolding expire_keep_alive_timer on_keep_alive_timeout start_keep_alive_timer
  expire_keep_alive_timer-Ready now =
      if_intro c.keep_alive_timer Ready
        (λ t.
          if_intro (leb (c.last_message_timestamp + c.config.keep_alive_timeout) now)
            (λ after.
              Ready (try_start_transmission source (record after { keep_alive_timer = true })))
            (λ _.
              try_start_transmission-Ready source
                (record c {
                  last_message_timestamp = now;
                  keep_alive_timeout = true;
                  keep_alive_timer = true;
                })
                (ground (arith, r.consistent, t)))
            (λ _.
              try_start_transmission-Ready source (record c { keep_alive_timer = true })
                (ground (arith, r.consistent, t))))
        (λ _. r)

  on_lower_layer_up-Ready : (now : ℕ) → Ready (on_lower_layer_up now c).0
  unfolding on_lower_layer_up
  on_lower_layer_up-Ready now = ground (arith, r.sends, r.keeps_alive, r.consistent)

  on_lower_layer_down-Ready : Ready (on_lower_layer_down c).0
  unfolding on_lower_layer_down
  on_lower_layer_down-Ready = ground (arith, r.sends, r.keeps_alive, r.consistent)

new_context-Ready :
    {S : Type 0} (config : LinkConfig) (now : ℕ) (s : S) → Ready (new_context config now s)
unfolding new_context
new_context-Ready config now s = ground arith

step-Ready :
    {S : Type 0} (source : ITransportSegment S) (e : Event S) (c : LinkContext S)
    → Ready c
    → Ready (step source e c)
unfolding step
step-Ready source (lower_layer_up now) c r = on_lower_layer_up-Ready source c r now
step-Ready source lower_layer_down c r = on_lower_layer_down-Ready source c r
step-Ready source (send_segments s) c r = send-Ready source c r s
step-Ready source (transmit_result success) c r = on_tx_result-Ready source c r success
step-Ready source (frame now h userdata) c r = on_frame-Ready source c r now h userdata
step-Ready source response_timer c r = expire_response_timer-Ready source c r
step-Ready source (keep_alive_timer_expired now) c r = expire_keep_alive_timer-Ready source c r now

run-Ready :
    {S : Type 0} (source : ITransportSegment S) (es : List (Event S)) (c : LinkContext S)
    → Ready c
    → Ready (run source es c)
unfolding run
run-Ready source [] c r = r
run-Ready source (e ∷ es) c r = run-Ready source es (step source e c) (step-Ready source e c r)

-- From a new layer, after any sequence of events: the primary station is in a TransmitWait state exactly
-- while its frame is at the router or waits behind the other station's, and so is the secondary station;
-- at most one frame is at the router; the response timer runs exactly in the three states that wait for
-- a reply and the keep-alive timer exactly while the layer is online; the null pointer was never read
-- through; an offline layer is in its first states, without segments; and a primary station that is
-- idle has neither segments nor a keep-alive request to send.
pub run-new_context :
    {S : Type 0} (source : ITransportSegment S) (config : LinkConfig) (now : ℕ) (s : S)
    (es : List (Event S))
    → Ready (run source es (new_context config now s))
run-new_context source config now s es = run-Ready source es _ (new_context-Ready config now s)
