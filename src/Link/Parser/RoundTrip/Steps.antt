-- ===== src/Link/Parser/RoundTrip/Steps.antt =====
-- The steps of a parser that has the bytes of a frame in front of it.
use dnp.Prelude.{
  ℕ, zero, suc, ◌+◌, ◌-◌, ◌≤◌, ◌<◌, ◌≡◌, refl, sym, ap, ◌∙◌, true, List, [], ◌++◌, arith, length,
  take, drop, get_or, lt→ltb, take-append, take_all, append-nil,
}
use dnp.Link.Crc.{is_correct_crc, add_crc}
use dnp.Link.Header.{
  LinkHeader, read_header, write_header, header_bytes, header_fields, valid_length,
}
use dnp.Link.HeaderLaws.{read-write_header}
use dnp.Link.Frame.{
  calc_frame_size, calc_user_data_size, write_user_data, validate_body_crc, read_blocks,
}
use dnp.Link.Blocks.{is_correct_crc-add_crc, length-write_blocks, validate_blocks-write_blocks}
use dnp.Link.InPlace.{Moved, extract, extract-write_blocks, read_blocks-Moved}
use dnp.Link.Validation.{user_data_length, validate_function_code, validate_payload}
use dnp.Link.Buffer.{ShiftableBuffer, num_bytes_read, read_buffer, sync, sync_loop}
use dnp.Link.Parser.{
  find_sync, read_header_state, read_body, complete, LinkLayerParser, parse_sync, parse_header,
  parse_body, read_frame_header, validate_header_parameters, validate_body, transfer_user_data,
  parse_one_step, pushed_frame,
}

sync_loop-here :
    (fuel : ℕ) (b : ShiftableBuffer)
    → 0 < fuel
    → 1 < num_bytes_read b
    → get_or (read_buffer b) 0 0 ≡ 0x05
    → get_or (read_buffer b) 1 0 ≡ 0x64
    → sync_loop fuel b ≡ (b, true)
unfolding sync_loop
sync_loop-here zero b f h e₀ e₁ = absurd (omega arith)
sync_loop-here (suc fuel) b f h e₀ e₁ = rw (lt→ltb 1 (num_bytes_read b) h, e₀, e₁)

-- A header that the parser accepts, in front of the data that its length counts.
pub record Accepted (h : LinkHeader) (payload : List ℕ) : Type 0 where
  pub counted : h.length ≡ length payload + 5
  pub short : length payload ≤ 250
  pub addresses : (h.dest < 65536) × (h.src < 65536)
  pub function : validate_function_code h ≡ true
  pub carried : validate_payload h ≡ true

-- The bytes of a frame.
abbrev pub frame_bytes : LinkHeader → List ℕ → List ℕ
frame_bytes h payload = write_header h ++ write_user_data payload (length payload)

module _ (h : LinkHeader) (payload : List ℕ) (a : Accepted h payload) where
  pub length-frame_bytes : length (frame_bytes h payload) ≡ calc_frame_size (length payload)
  unfolding write_header add_crc calc_frame_size
  length-frame_bytes = omega (
    arith,
    length-write_blocks (length payload) payload (length payload) (omega arith) (omega arith),
  )

  header_correct : is_correct_crc (frame_bytes h payload) 8 ≡ true
  unfolding write_header
  header_correct = is_correct_crc-add_crc (header_bytes h) _ 8 refl

  header_read : read_header (frame_bytes h payload) ≡ h
  header_read = read-write_header h _ a.addresses.0 a.addresses.1

  start_05 : get_or (frame_bytes h payload) 0 0 ≡ 0x05
  unfolding write_header
  start_05 = refl

  start_64 : get_or (frame_bytes h payload) 1 0 ≡ 0x64
  unfolding write_header
  start_64 = refl

  body_of_frame :
      (tail : List ℕ)
      → drop 10 (frame_bytes h payload ++ tail) ≡ write_user_data payload (length payload) ++ tail
  unfolding write_header add_crc
  body_of_frame tail = refl

  user_data_length-eq : user_data_length h ≡ length payload
  user_data_length-eq = omega (arith, a.counted, a.short)

  pub frame_size-ge : 10 ≤ calc_frame_size (length payload)
  unfolding calc_frame_size
  frame_size-ge = omega arith

  pub frame_size-le : calc_frame_size (length payload) ≤ 292
  unfolding calc_frame_size calc_user_data_size
  frame_size-le = ground (arith, a.short)

pub size-bound : (n : ℕ) → n ≤ 250 → 10 + calc_user_data_size n ≤ 292
unfolding calc_user_data_size
size-bound n h = ground (arith, h)

-- A parser with a frame, and nothing else, in front of it.
pub record Holding (p : LinkLayerParser) (h : LinkHeader) (payload : List ℕ) : Type 0 where
  pub tail : List ℕ
  pub memory : p.buffer.bytes ≡ frame_bytes h payload ++ tail
  pub start : p.buffer.read_pos ≡ 0
  pub whole : p.buffer.write_pos ≡ calc_frame_size (length payload)
  pub large : length p.buffer.bytes ≡ 292

module _ (p : LinkLayerParser) (h : LinkHeader) (payload : List ℕ) (a : Accepted h payload)
    (c : Holding p h payload) where
  held_num : num_bytes_read p.buffer ≡ calc_frame_size (length payload)
  held_num = omega (arith, c.start, c.whole)

  held_bytes : read_buffer p.buffer ≡ frame_bytes h payload
  held_bytes =
      ap (λ n. take n (drop p.buffer.read_pos p.buffer.bytes)) {y = p.buffer.write_pos}
        (omega (arith, c.start))
      ∙ ap (λ i. take p.buffer.write_pos (drop i p.buffer.bytes)) c.start
      ∙ ap (λ b. take p.buffer.write_pos b) c.memory
      ∙ take-append p.buffer.write_pos (frame_bytes h payload) c.tail
          (omega (arith, length-frame_bytes h payload a, c.whole))

  pub step_sync : p.state ≡ find_sync → parse_one_step p ≡ record p { state = read_header_state }
  unfolding parse_one_step parse_sync sync
  step_sync e = ground (
    arith,
    held_num,
    frame_size-ge h payload a,
    sync_loop-here (num_bytes_read p.buffer) p.buffer
        (omega (arith, held_num, frame_size-ge h payload a))
        (omega (arith, held_num, frame_size-ge h payload a))
        (ap (λ b. get_or b 0 0) held_bytes ∙ start_05 h payload a)
        (ap (λ b. get_or b 1 0) held_bytes ∙ start_64 h payload a),
  )

  pub step_header :
      p.state ≡ read_header_state
      → parse_one_step p
        ≡ record p { header = h; frame_size = calc_frame_size (length payload); state = read_body }
  unfolding parse_one_step parse_header read_frame_header validate_header_parameters valid_length
  step_header e = ground (
    arith,
    held_num,
    frame_size-ge h payload a,
    ap read_header held_bytes ∙ header_read h payload a,
    ap (λ b. is_correct_crc b 8) held_bytes ∙ header_correct h payload a,
    a.counted,
    a.function,
    a.carried,
    user_data_length-eq h payload a,
  )

  held_body : drop 10 (read_buffer p.buffer) ≡ write_user_data payload (length payload)
  held_body =
      ap (drop 10) held_bytes
      ∙ ap (drop 10) (sym (append-nil (frame_bytes h payload)))
      ∙ body_of_frame h payload a []
      ∙ append-nil _

  body_correct : validate_body_crc (drop 10 (read_buffer p.buffer)) (length payload) ≡ true
  body_correct =
      ap (λ body. validate_body_crc body (length payload))
        (held_body ∙ sym (append-nil (write_user_data payload (length payload))))
      ∙ validate_blocks-write_blocks (length payload) payload [] (length payload) (omega arith)
          (omega arith)

  pub step_body :
      p.state ≡ read_body
      → p.header ≡ h
      → p.frame_size ≡ calc_frame_size (length payload)
      → parse_one_step p ≡ record (transfer_user_data p) { state = complete }
  unfolding parse_one_step parse_body validate_body
  step_body e f g = ground (
    arith,
    held_num,
    g,
    ap (λ n. validate_body_crc (drop 10 (read_buffer p.buffer)) n) {x = p.header.length - 5}
          {y = length payload} (omega (arith, ap (λ (l : LinkHeader). l.length) f, a.counted))
        ∙ body_correct,
  )

  moved :
      Moved
        (length payload)
        p.buffer.bytes
        10
        0
        (length payload)
        (read_blocks (length payload) p.buffer.bytes 10 0 (length payload))
  moved =
      read_blocks-Moved (length payload) p.buffer.bytes 10 0 (length payload) (omega arith)
        (omega arith) (omega (arith, c.large, a.short, size-bound (length payload) a.short))

  -- The data that the parser hands on is the payload.
  moved_payload :
      take (length payload) (read_blocks (length payload) p.buffer.bytes 10 0 (length payload))
      ≡ payload
  moved_payload =
      ap (λ n. take n (read_blocks (length payload) p.buffer.bytes 10 0 (length payload)))
        {x = length payload} {y = 0 + length payload} (omega arith)
      ∙ moved.front
      ∙ ap (λ b. extract (length payload) (drop 10 b) (length payload)) c.memory
      ∙ ap (λ b. extract (length payload) b (length payload)) (body_of_frame h payload a c.tail)
      ∙ extract-write_blocks (length payload) payload c.tail (length payload) (omega arith)
          (omega arith)
      ∙ take_all (length payload) payload (omega arith)

  pub pushed :
      p.header ≡ h
      → p.buffer.read_pos ≡ 0
      → pushed_frame (record (transfer_user_data p) { state = complete })
        ≡ (header_fields h, payload)
  unfolding pushed_frame transfer_user_data
  pushed f g =
      ap
        (λ n. (
          header_fields p.header,
          take n (read_blocks n p.buffer.bytes (p.buffer.read_pos + 10) 0 n),
        ))
        {x = p.header.length - 5} {y = length payload}
        (omega (arith, ap (λ (l : LinkHeader). l.length) f, a.counted))
      ∙ ap
          (λ r. (
            header_fields p.header,
            take (length payload)
                (read_blocks (length payload) p.buffer.bytes r 0 (length payload)),
          ))
          {x = p.buffer.read_pos + 10} {y = 10} (omega (arith, g))
      ∙ ap
          (λ l. (
            header_fields l,
            take (length payload)
                (read_blocks (length payload) p.buffer.bytes 10 0 (length payload)),
          ))
          f
      ∙ ap (λ d. (header_fields h, d)) moved_payload
