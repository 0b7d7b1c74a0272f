-- ===== src/Transfer/Files/Chunks.antt =====
-- The subpackets of a file's data: what `SendFile` writes, `ReceiveFile` stores.
use virt_bbs.Prelude.{
  ℕ, zero, suc, ◌+◌, ◌-◌, ◌%◌, ◌≤◌, ◌<◌, ◌≡◌, refl, sym, ap, ◌∙◌, inl, inr, Bool, true, false, [],
  ◌∷◌, ◌++◌, append_assoc, append-nil, Bytes, length, take, drop, leb, ltb, ltb→lt, Bool-cases,
  if◌then◌else◌, All, IsByte, arith, All-take, All-drop, length-drop, take-append-drop, take_long,
  drop_long, length-take_short, length-append,
}
use virt_bbs.Prelude.Int.{pos, ◌-ℤ◌}
use virt_bbs.Transfer.Frames.{
  hex_header, zack, zcrcg, zcrcw, zdle, data_subpacket, escape_data, crc_bytes,
}
use virt_bbs.Transfer.Reader.{ok, Frame, is_marker, read_data_subpacket}
use virt_bbs.Transfer.Scan.{read_any_frame}
use virt_bbs.Transfer.Subpackets.{read_data_subpacket-data_subpacket}
use virt_bbs.Transfer.Files.Base.{Link, transmit}
use virt_bbs.Transfer.Files.Send.{send_chunks}
use virt_bbs.Transfer.Files.Receive.{Received, Outcome, append_to, store_run}

-- The marker behind the first piece of what is left of a file.
abbrev pub marker_of : Bytes → ℕ
marker_of rest = if leb (length rest) 1024 then zcrcw else zcrcg

-- The subpackets of the file from `rest` on.
unfoldable pub chunk_stream : ℕ → Bytes → Bytes
chunk_stream zero rest = []
chunk_stream (suc g) [] = []
chunk_stream (suc g) (b ∷ rest) =
    data_subpacket (take 1024 (b ∷ rest)) (marker_of (b ∷ rest)) true
    ++ chunk_stream g (drop 1024 (b ∷ rest))

chunk_stream-nil : (g : ℕ) → chunk_stream g [] ≡ []
unfolding chunk_stream
chunk_stream-nil zero = refl
chunk_stream-nil (suc g) = refl

not_short : (n : ℕ) → ltb n 1024 ≡ false → 1024 ≤ n
not_short n h = ground arith

module _ (b : ℕ) (rest : Bytes) where
  marker_of_last : length rest < 1024 → marker_of (b ∷ rest) ≡ zcrcw
  marker_of_last h = ground arith

  marker_of_more : 1024 ≤ length rest → marker_of (b ∷ rest) ≡ zcrcg
  marker_of_more h = ground arith

  abbrev whole : Bytes
  whole = b ∷ rest

  spent :
      length rest < 1024 → (pos (suc (length rest)) -ℤ pos (suc (length (take 1023 rest)))) ≡ pos 0
  unfolding ◌-ℤ◌
  spent h = rw (take_long 1023 rest (omega arith)) (ground arith)

  left_over :
      1024 ≤ length rest
      → (pos (suc (length rest)) -ℤ pos (suc (length (take 1023 rest))))
        ≡ pos (suc (length rest - 1024))
  unfolding ◌-ℤ◌
  left_over h = rw (length-take_short 1023 rest (omega arith)) (ground arith)

  length-drop_rest : 1024 ≤ length rest → suc (length rest - 1024) ≡ length (drop 1023 rest)
  length-drop_rest h = omega (arith, length-drop 1023 rest)

  send_chunks_last :
      (fuel : ℕ) (l : Link) (frame : Frame) (after : Bytes)
      → length rest < 1024
      → read_any_frame l.input ≡ ok (frame, after)
      → send_chunks (suc fuel) whole (pos (length whole)) true l
        ≡ (ok tt, record { input = after; sent = l.sent ++ data_subpacket whole zcrcw true })
  unfolding send_chunks
  send_chunks_last fuel l frame after h e = rw (spent h, take_long 1023 rest (omega arith), e) refl

  send_chunks_more :
      (fuel : ℕ) (l : Link)
      → 1024 ≤ length rest
      → send_chunks (suc fuel) whole (pos (length whole)) true l
        ≡ send_chunks fuel
            (drop 1023 rest)
            (pos (length (drop 1023 rest)))
            true
            (transmit (data_subpacket (b ∷ take 1023 rest) zcrcg true) l)
  unfolding send_chunks
  send_chunks_more fuel l h = rw (left_over h, length-drop_rest h) refl

  chunk_stream_last :
      (g : ℕ) → length rest < 1024 → chunk_stream (suc g) whole ≡ data_subpacket whole zcrcw true
  unfolding chunk_stream
  chunk_stream_last g h =
      rw
        (
          take_long 1023 rest (omega arith),
          drop_long 1023 rest (omega arith),
          marker_of_last h,
          chunk_stream-nil g,
          append-nil,
        )
        refl

  chunk_stream_more :
      (g : ℕ)
      → 1024 ≤ length rest
      → chunk_stream (suc g) whole
        ≡ data_subpacket (b ∷ take 1023 rest) zcrcg true ++ chunk_stream g (drop 1023 rest)
  unfolding chunk_stream
  chunk_stream_more g h = rw (marker_of_more h) refl

-- `SendFile` sends what is left of the file, and reads the acknowledgement of it.
pub send_chunks-chunk_stream :
    (fuel : ℕ) (rest : Bytes) (l : Link) (frame : Frame) (after : Bytes)
    → length rest < fuel
    → 0 < length rest
    → read_any_frame l.input ≡ ok (frame, after)
    → send_chunks fuel rest (pos (length rest)) true l
      ≡ (ok tt, record { input = after; sent = l.sent ++ chunk_stream fuel rest })
send_chunks-chunk_stream zero rest l frame after h k e = elim h [ ]
send_chunks-chunk_stream (suc fuel) [] l frame after h k e = elim k [ ]
send_chunks-chunk_stream (suc fuel) (b ∷ rest) l frame after h k e =
    elim (Bool-cases (ltb (length rest) 1024)) [
      | inl short ↦
          send_chunks_last b rest fuel l frame after (ltb→lt (length rest) 1024 short) e
          ∙ ap (λ bytes. (ok tt, record { input = after; sent = l.sent ++ bytes }))
              (sym (chunk_stream_last b rest fuel (ltb→lt (length rest) 1024 short)))
      | inr long ↦
          let enough = not_short (length rest) long in
          let sent = data_subpacket (b ∷ take 1023 rest) zcrcg true in
          send_chunks_more b rest fuel l enough
          ∙ send_chunks-chunk_stream fuel (drop 1023 rest) (transmit sent l) frame after
              (omega (arith, length-drop 1023 rest)) (omega (arith, length-drop 1023 rest)) e
          ∙ ap (λ bytes. (ok tt, record { input = after; sent = bytes }))
              (append_assoc l.sent sent (chunk_stream fuel (drop 1023 rest))
                ∙ ap (λ bytes. l.sent ++ bytes) (sym (chunk_stream_more b rest fuel enough)))
    ]

pub chunk_stream-cons :
    (g : ℕ) (rest : Bytes)
    → 0 < length rest
    → chunk_stream (suc g) rest
      ≡ data_subpacket (take 1024 rest) (marker_of rest) true ++ chunk_stream g (drop 1024 rest)
unfolding chunk_stream
chunk_stream-cons g [] h = elim h [ ]
chunk_stream-cons g (b ∷ rest) h = refl

pub marker_of-is_marker : (rest : Bytes) → is_marker (marker_of rest) ≡ true
unfolding is_marker
marker_of-is_marker rest = ground arith

module _ (next : Received → Link → Outcome) (f : Received) where
  store_run_last :
      (fuel : ℕ) (pkt : Bytes) (l : Link)
      → store_run next (suc fuel) f pkt zcrcw l
        ≡ next
            (append_to f pkt)
            (transmit (hex_header zack ((f.received + length pkt) % 4294967296)) l)
  unfolding store_run
  store_run_last fuel pkt l = refl

  store_run_more :
      (fuel : ℕ) (pkt : Bytes) (l : Link) (more : Bytes) (marker : ℕ) (after : Bytes)
      → read_data_subpacket true l.input ≡ ok ((more, marker), after)
      → store_run next (suc fuel) f pkt zcrcg l
        ≡ store_run next fuel (append_to f pkt) more marker (record l { input = after })
  unfolding store_run read_data_subpacket
  store_run_more fuel pkt l more marker after e = rw e refl

-- The file after the pieces of `rest` have been stored.
abbrev pub append_all : Received → Bytes → Received
append_all f rest = record f { contents = f.contents ++ rest; received = f.received + length rest }

received_all :
    (f : Received) (rest : Bytes)
    → f.received + length (take 1024 rest) + length (drop 1024 rest) ≡ f.received + length rest
received_all f rest =
    omega (
      arith,
      ap length (take-append-drop 1024 rest),
      length-append (take 1024 rest) (drop 1024 rest),
    )

append_to-take :
    (f : Received) (rest : Bytes)
    → append_all (append_to f (take 1024 rest)) (drop 1024 rest) ≡ append_all f rest
append_to-take f rest = λ i. record f {
  contents =
      (append_assoc f.contents (take 1024 rest) (drop 1024 rest)
          ∙ ap (λ s. f.contents ++ s) (take-append-drop 1024 rest))
        i;
  received = received_all f rest i;
}

read_chunk :
    (g : ℕ) (rest tail : Bytes)
    → 0 < length rest
    → All IsByte rest
    → read_data_subpacket true (chunk_stream (suc g) rest ++ tail)
      ≡ ok ((take 1024 rest, marker_of rest), chunk_stream g (drop 1024 rest) ++ tail)
read_chunk g rest tail p bytes =
    let more = chunk_stream g (drop 1024 rest) in
    let first = data_subpacket (take 1024 rest) (marker_of rest) true in
    ap (λ s. read_data_subpacket true (s ++ tail)) (chunk_stream-cons g rest p)
    ∙ ap (read_data_subpacket true) (append_assoc first more tail)
    ∙ read_data_subpacket-data_subpacket true (take 1024 rest) (marker_of rest) (more ++ tail)
        (All-take IsByte 1024 rest bytes) (marker_of-is_marker rest)

-- The run goes on behind the stored file `f'`, which `n` bytes were appended to.
abbrev pub stored : (Received → Link → Outcome) → Received → ℕ → Bytes → Bytes → Received → Outcome
stored next f n tail sent f' =
    next f'
      (record { input = tail; sent = sent ++ hex_header zack ((f.received + n) % 4294967296) })

stored_whole :
    (next : Received → Link → Outcome) (f : Received) (rest tail sent : Bytes)
    → stored next
        (append_to f (take 1024 rest))
        (length (drop 1024 rest))
        tail
        sent
        (append_all (append_to f (take 1024 rest)) (drop 1024 rest))
      ≡ stored next f (length rest) tail sent (append_all f rest)
stored_whole next f rest tail sent =
    ap
      (λ n.
        next (append_all (append_to f (take 1024 rest)) (drop 1024 rest))
          (record { input = tail; sent = sent ++ hex_header zack (n % 4294967296) }))
      (received_all f rest)
    ∙ ap (λ f'. stored next f (length rest) tail sent f') (append_to-take f rest)

-- `ReceiveFile` stores what is left of the file, and acknowledges it.
pub store_run-chunk_stream :
    (next : Received → Link → Outcome) (fuel g : ℕ) (rest : Bytes) (f : Received)
    (tail sent : Bytes)
    → length (drop 1024 rest) < fuel
    → length rest ≤ g
    → 0 < length rest
    → All IsByte rest
    → store_run next fuel f
        (take 1024 rest)
        (marker_of rest)
        (record { input = chunk_stream g (drop 1024 rest) ++ tail; sent = sent })
      ≡ stored next f (length rest) tail sent (append_all f rest)
store_run-chunk_stream next zero g (b ∷ rest) f tail sent h k p bytes = elim h [ ]
store_run-chunk_stream next fuel zero (b ∷ rest) f tail sent h k p bytes = absurd (omega arith)
store_run-chunk_stream next fuel g [] f tail sent h k p bytes = elim p [ ]
store_run-chunk_stream next (suc fuel) (suc g) (b ∷ rest) f tail sent h k p bytes =
    elim (Bool-cases (ltb (length rest) 1024)) [
      | inl short ↦
          let marker = marker_of_last b rest (ltb→lt (length rest) 1024 short) in
          let few : length rest ≤ 1023 = omega (arith, ltb→lt (length rest) 1024 short) in
          rw (take_long 1023 rest few, drop_long 1023 rest few, marker, chunk_stream-nil (suc g))
            (store_run_last next f fuel (b ∷ rest) (record { input = tail; sent = sent }))
      | inr long ↦
          let enough = not_short (length rest) long in
          let marker = marker_of_more b rest enough in
          let left = drop 1023 rest in
          let many : 0 < length left = omega (arith, length-drop 1023 rest) in
          let left_bytes = All-drop IsByte 1024 (b ∷ rest) bytes in
          let f' = append_to f (b ∷ take 1023 rest) in
          rw marker (
            store_run_more next f fuel (b ∷ take 1023 rest)
              (record { input = chunk_stream (suc g) left ++ tail; sent = sent }) (take 1024 left)
              (marker_of left) (chunk_stream g (drop 1024 left) ++ tail)
              (read_chunk g left tail many left_bytes))
          ∙ store_run-chunk_stream next fuel g left f' tail sent
              (omega (arith, length-drop 1024 left)) (omega (arith, length-drop 1023 rest)) many
              left_bytes
          ∙ stored_whole next f (b ∷ rest) tail sent
    ]

escape_data_longer : (payload : Bytes) → length payload ≤ length (escape_data payload)
unfolding escape_data
escape_data_longer [] = omega arith
escape_data_longer (b ∷ payload) = ground (arith, escape_data_longer payload)

data_subpacket_longer :
    (payload : Bytes) (m : ℕ) (use32 : Bool)
    → length payload ≤ length (data_subpacket payload m use32)
unfolding data_subpacket
data_subpacket_longer payload m use32 = omega (
  arith,
  escape_data_longer payload,
  length-append (escape_data payload)
      (zdle ∷ m ∷ escape_data (crc_bytes use32 (payload ++ m ∷ []))),
)

-- The stream of a file's subpackets is at least as long as the file.
pub chunk_stream_longer :
    (g : ℕ) (rest : Bytes) → length rest ≤ g → length rest ≤ length (chunk_stream g rest)
unfolding chunk_stream
chunk_stream_longer zero rest h = omega arith
chunk_stream_longer (suc g) [] h = omega arith
chunk_stream_longer (suc g) (b ∷ rest) h =
    let first = data_subpacket (b ∷ take 1023 rest) (marker_of (b ∷ rest)) true in
    let left = drop 1023 rest in
    omega (
      arith,
      ap length (take-append-drop 1023 rest),
      length-append (take 1023 rest) left,
      length-append first (chunk_stream g left),
      data_subpacket_longer (b ∷ take 1023 rest) (marker_of (b ∷ rest)) true,
      chunk_stream_longer g left (omega (arith, length-drop 1023 rest)),
    )
