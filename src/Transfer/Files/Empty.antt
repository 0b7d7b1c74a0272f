-- ===== src/Transfer/Files/Empty.antt =====
-- The transfer of an empty file: no subpacket follows the ZDATA header.
use virt_bbs.Prelude.{
  ℕ, suc, ◌≡◌, refl, ap, ◌∙◌, inl, true, Option, none, [], ◌++◌, ◌%◌, append_assoc, Bytes, length,
  All, arith,
}
use virt_bbs.Prelude.Int.{ℤ}
use virt_bbs.Transfer.Crc.{crc16}
use virt_bbs.Transfer.Frames.{
  hex_header, zrinit, zfile, zrpos, zdata, zeof, zcrcw, data_subpacket, le32,
}
use virt_bbs.Transfer.Reader.{err, eof, is_marker, read_hex_frame}
use virt_bbs.Transfer.Scan.{read_any_frame, read_any_frame_opts}
use virt_bbs.Transfer.Headers.{eol, StartsPlain, read_any_frame_opts-data_subpacket}
use virt_bbs.Transfer.Files.Base.{Link, transmit, base}
use virt_bbs.Transfer.Files.Names.{base-base, base_not_nil}
use virt_bbs.Transfer.Files.Send.{send_file, send_from, file_data}
use virt_bbs.Transfer.Files.Receive.{
  Received, opened, failure, zrinit_flags, receive_file, on_name, data_loop,
}
use virt_bbs.Transfer.Files.Session.{read_last, wait_for_receiver_init-zrinit}
use virt_bbs.Transfer.Files.Delivery.{
  IsNameByte, until_nul-file_data, file_data-All, file_data_plain, name_loop_file, on_name_lem,
}

-- The reader takes the ZEOF header for the data that a ZDATA header announces.
read_zeof : read_any_frame_opts true (hex_header zdata 0 ++ hex_header zeof 0) ≡ err eof
unfolding read_any_frame_opts hex_header crc16 read_hex_frame
read_zeof = refl

read_eol : read_any_frame eol ≡ err eof
unfolding read_any_frame
read_eol = refl

-- What each side has written when it waits for the other.
abbrev pub offer : Bytes
offer = hex_header zrinit zrinit_flags ++ hex_header zrpos 0

abbrev pub announcement : Bytes → Bytes
announcement text =
    hex_header zfile 0
    ++ (data_subpacket text zcrcw true ++ (hex_header zdata 0 ++ hex_header zeof 0))

send_from_empty :
    (l : Link)
    → read_any_frame l.input ≡ err eof
    → send_from [] true (record { frame_type = zrpos; payload = le32 0; marker = 0 }) l
      ≡ (err eof, record l { sent = (l.sent ++ hex_header zdata 0) ++ hex_header zeof 0 })
unfolding send_from
send_from_empty l e = rw e refl

send_file_empty :
    (path : Bytes) (mtime : ℤ)
    → send_file path [] mtime (record { input = offer; sent = [] })
      ≡ (err eof, record { input = eol; sent = announcement (file_data (base path) 0 mtime) })
unfolding send_file
send_file_empty path mtime =
    let text = file_data (base path) 0 mtime in
    rw
      (
        wait_for_receiver_init-zrinit (hex_header zrpos 0),
        read_last zrpos 0 (omega arith) (omega arith) (omega arith),
        send_from_empty
            (record { input = eol; sent = hex_header zfile 0 ++ data_subpacket text zcrcw true })
            read_eol,
      )
      (simp append_assoc)

data_loop_empty :
    (fuel : ℕ) (f : Received) (l : Link)
    → read_any_frame_opts true l.input ≡ err eof
    → data_loop (suc fuel) f l ≡ failure f eof l
unfolding data_loop
data_loop_empty fuel f l e = rw (e, data_loop) refl

receive_file_empty :
    (disk : Bytes → Option Bytes) (path : Bytes) (mtime : ℤ)
    → disk (base path) ≡ none
    → All IsNameByte (base path)
    → StartsPlain (base path)
    → receive_file disk (record { input = announcement (file_data (base path) 0 mtime); sent = [] })
      ≡ failure
          (record { name = base path; contents = []; received = 0 })
          eof
          (record { input = hex_header zdata 0 ++ hex_header zeof 0; sent = offer })
unfolding receive_file
receive_file_empty disk path mtime new named start =
    let name = base path in
    let text = file_data name 0 mtime in
    let s2 = hex_header zdata 0 ++ hex_header zeof 0 in
    let s1 = announcement text in
    let greeting = hex_header zrinit zrinit_flags in
    let l1 : Link = record { input = s1; sent = greeting } in
    let l2 : Link = record { input = s2; sent = greeting } in
    let f : Received = record { name = name; contents = []; received = 0 } in
    let found : opened name (disk name) ≡ f = ap (opened name) new in
    name_loop_file (length s1) disk l1 text zcrcw s2 (
      read_any_frame_opts-data_subpacket true zfile 0 zcrcw text s2 (inl refl)
        (file_data-All name 0 mtime named) (file_data_plain name 0 mtime start)
        (unfold is_marker in refl))
    ∙ ap (λ n. on_name disk n l2) (until_nul-file_data name 0 mtime named)
    ∙ on_name_lem disk name l2 (base_not_nil path) (base-base path)
    ∙ ap
        (λ f'.
          data_loop (suc (length s2)) f'
            (transmit (hex_header zrpos (f'.received % 4294967296)) l2))
        found
    ∙ data_loop_empty (length s2) f (transmit (hex_header zrpos 0) l2) read_zeof

-- An empty file that is new to the receiver is not transferred: `SendFile`, given all that
-- `ReceiveFile` writes, waits for more, and so does `ReceiveFile`, given all that `SendFile` writes.
pub send_file-receive_file_empty :
    (disk : Bytes → Option Bytes) (path : Bytes) (mtime : ℤ)
    → disk (base path) ≡ none
    → All IsNameByte (base path)
    → StartsPlain (base path)
    → (send_file path [] mtime (record { input = offer; sent = [] })
        ≡ (err eof, record { input = eol; sent = announcement (file_data (base path) 0 mtime) }))
      × (receive_file disk
            (record { input = announcement (file_data (base path) 0 mtime); sent = [] })
          ≡ failure
              (record { name = base path; contents = []; received = 0 })
              eof
              (record { input = hex_header zdata 0 ++ hex_header zeof 0; sent = offer }))
send_file-receive_file_empty disk path mtime new named start =
    (send_file_empty path mtime, receive_file_empty disk path mtime new named start)
