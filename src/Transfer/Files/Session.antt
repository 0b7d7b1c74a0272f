-- ===== src/Transfer/Files/Session.antt =====
-- `SendFile` and `ReceiveFile` connected: each is given what the other writes.
use virt_bbs.Prelude.{
  ℕ, suc, ◌%◌, ◌<◌, ◌≡◌, ◌≢◌, refl, sym, ap, ◌∙◌, Bool, true, false, [], ◌∷◌, ◌++◌, append_assoc,
  append-nil, Bytes, length, drop, drop-append, length-append, IsByte, arith,
}
use virt_bbs.Prelude.Int.{ℤ, pos, ◌-ℤ◌}
use virt_bbs.Transfer.Frames.{
  hex_header, zrinit, zack, zfile, zfin, zrpos, zdata, zeof, zcrcw, data_subpacket, le32,
}
use virt_bbs.Transfer.Reader.{ok, Frame}
use virt_bbs.Transfer.Scan.{read_any_frame, read_any_frame_opts}
use virt_bbs.Transfer.Subpackets.{from_le32_lem}
use virt_bbs.Transfer.Headers.{eol, read_any_frame_opts-eol, read_any_frame_opts-hex_header}
use virt_bbs.Transfer.Files.Base.{Link, transmit, base}
use virt_bbs.Transfer.Files.Send.{
  send_from, send_file, send_name, file_data, wait_loop, wait_for_receiver_init,
}
use virt_bbs.Transfer.Files.Receive.{zrinit_flags}
use virt_bbs.Transfer.Files.Chunks.{chunk_stream, send_chunks-chunk_stream}

-- A header that no data follow, behind the end of the line of the one before it.
read_header :
    (use32 : Bool) (t position : ℕ) (rest : Bytes)
    → IsByte t
    → t ≢ zfile
    → t ≢ zdata
    → read_any_frame_opts use32 (eol ++ (hex_header t position ++ rest))
      ≡ ok (record { frame_type = t; payload = le32 position; marker = 0 }, eol ++ rest)
read_header use32 t position rest h f d =
    read_any_frame_opts-eol use32 (hex_header t position ++ rest)
    ∙ read_any_frame_opts-hex_header use32 t position rest h f d

-- What the receiver writes, for a file of `size` bytes that it goes on with at `offset`.
abbrev pub replies : ℕ → ℕ → Bytes
replies offset size =
    hex_header zrinit zrinit_flags
    ++ (hex_header zrpos offset
        ++ (hex_header zack (size % 4294967296) ++ hex_header zrinit zrinit_flags))

-- What the sender writes.
abbrev pub transmission : Bytes → ℕ → Bytes → ℕ → Bytes
transmission text offset rest size =
    hex_header zfile 0
    ++ (data_subpacket text zcrcw true
        ++ (hex_header zdata offset
            ++ (chunk_stream (suc (length rest)) rest
                ++ (hex_header zeof (size % 4294967296) ++ hex_header zfin 0))))

read_reply :
    (t position : ℕ) (rest : Bytes)
    → IsByte t
    → t ≢ zfile
    → t ≢ zdata
    → read_any_frame (eol ++ (hex_header t position ++ rest))
      ≡ ok (record { frame_type = t; payload = le32 position; marker = 0 }, eol ++ rest)
unfolding read_any_frame
read_reply t position rest = read_header false t position rest

pub read_last :
    (t position : ℕ)
    → IsByte t
    → t ≢ zfile
    → t ≢ zdata
    → read_any_frame (eol ++ hex_header t position)
      ≡ ok (record { frame_type = t; payload = le32 position; marker = 0 }, eol)
read_last t position h f d =
    ap (λ header. read_any_frame (eol ++ header)) (sym (append-nil (hex_header t position)))
    ∙ read_reply t position [] h f d

wait_loop-zrinit :
    (fuel : ℕ) (input rest : Bytes)
    → read_any_frame input
      ≡ ok (record { frame_type = zrinit; payload = le32 zrinit_flags; marker = 0 }, rest)
    → wait_loop (suc fuel) input ≡ ok (true, rest)
unfolding wait_loop
wait_loop-zrinit fuel input rest e = ground (arith, e)

pub wait_for_receiver_init-zrinit :
    (rest : Bytes)
    → wait_for_receiver_init (hex_header zrinit zrinit_flags ++ rest) ≡ ok (true, eol ++ rest)
unfolding wait_for_receiver_init
wait_for_receiver_init-zrinit rest =
    let input = hex_header zrinit zrinit_flags ++ rest in
    wait_loop-zrinit (length input) input (eol ++ rest) (
      unfold read_any_frame in
      read_any_frame_opts-hex_header false zrinit zrinit_flags rest (omega arith) (omega arith)
        (omega arith))

send_name_lem :
    (text : Bytes) (l : Link) (frame : Frame) (rest : Bytes)
    → read_any_frame l.input ≡ ok (frame, rest)
    → send_name text true l ≡ (
      ok frame,
      record {
        input = rest;
        sent = (l.sent ++ hex_header zfile 0) ++ data_subpacket text zcrcw true;
      },
    )
send_name_lem text l frame rest e = rw e refl

module _ (held rest : Bytes) where
  abbrev content : Bytes
  content = held ++ rest

  abbrev offset : ℕ
  offset = length held

  remaining_lem : (pos (length content) -ℤ pos offset) ≡ pos (length rest)
  unfolding ◌-ℤ◌
  remaining_lem = rw (length-append held rest) (ground arith)

  send_from-zrpos :
      (l : Link) (frame last : Frame) (after_data after_eof : Bytes)
      → offset < 4294967296
      → 0 < length rest
      → read_any_frame l.input ≡ ok (frame, after_data)
      → read_any_frame after_data ≡ ok (last, after_eof)
      → send_from content true (record { frame_type = zrpos; payload = le32 offset; marker = 0 }) l
        ≡ (
          ok tt,
          record {
            input = drop 2 after_eof;
            sent =
                (((l.sent ++ hex_header zdata offset) ++ chunk_stream (suc (length rest)) rest)
                  ++ hex_header zeof (length content % 4294967296))
                ++ hex_header zfin 0;
          },
        )
  unfolding send_from
  send_from-zrpos l frame last after_data after_eof fits some_rest e e' =
      rw
        (
          from_le32_lem offset fits,
          drop-append held rest,
          remaining_lem,
          send_chunks-chunk_stream (suc (length rest)) rest (transmit (hex_header zdata offset) l)
              frame after_data (omega arith) some_rest e,
          e',
        )
        refl

-- `SendFile` that is given the replies of a receiver which holds the first part of the file sends
-- the rest of it.
pub send_file-replies :
    (path held rest : Bytes) (mtime : ℤ)
    → length held < 4294967296
    → 0 < length rest
    → send_file path
        (held ++ rest)
        mtime
        (record { input = replies (length held) (length (held ++ rest)); sent = [] })
      ≡ (
        ok tt,
        record {
          input = 0x11 ∷ [];
          sent =
              transmission
                (file_data (base path) (length (held ++ rest)) mtime)
                (length held)
                rest
                (length (held ++ rest));
        },
      )
unfolding send_file
send_file-replies path held rest mtime fits some_rest =
    let size = length (held ++ rest) in
    let last = hex_header zrinit zrinit_flags in
    let acked = hex_header zack (size % 4294967296) in
    let offered = hex_header zrpos (length held) in
    let text = file_data (base path) size mtime in
    rw
      (
        wait_for_receiver_init-zrinit (offered ++ (acked ++ last)),
        read_reply zrpos (length held) (acked ++ last) (omega arith) (omega arith) (omega arith),
        send_from-zrpos held rest
            (record {
              input = eol ++ (acked ++ last);
              sent = hex_header zfile 0 ++ data_subpacket text zcrcw true;
            })
            (record { frame_type = zack; payload = le32 (size % 4294967296); marker = 0 })
            (record { frame_type = zrinit; payload = le32 zrinit_flags; marker = 0 }) (eol ++ last)
            (eol ++ []) fits some_rest
            (read_reply zack (size % 4294967296) last (omega arith) (omega arith) (omega arith))
            (read_last zrinit zrinit_flags (omega arith) (omega arith) (omega arith)),
      )
      (simp append_assoc)
