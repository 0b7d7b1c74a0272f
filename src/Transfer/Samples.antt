-- ===== src/Transfer/Samples.antt =====
-- Inputs at which the theorems on the ZMODEM protocol apply, and tests.
use virt_bbs.Prelude.{
  ◌≡◌, ◌≢◌, refl, inr, true, false, Option, none, some, [], ◌∷◌, ◌++◌, Bytes, codes, ◌==◌,
  if◌then◌else◌, arith,
}
use virt_bbs.Prelude.Int.{pos}
use virt_bbs.Transfer.Crc.{crc16, crc32b}
use virt_bbs.Transfer.Frames.{
  escape_data, data_subpacket, hex_header, zcrcg, zcrcw, zdata, zdle, zfin, zeof,
}
use virt_bbs.Transfer.Reader.{ok, err, eof, bad_crc, out_of_fuel, is_marker, read_data_subpacket}
use virt_bbs.Transfer.Scan.{read_any_frame_opts}
use virt_bbs.Transfer.Subpackets.{
  sum_bytes, crc_of, read_data_subpacket-sum, read_data_subpacket-data_subpacket,
}
use virt_bbs.Transfer.Headers.{eol, read_any_frame_opts-data_subpacket}
use virt_bbs.Transfer.LineFeed.{read_any_frame_opts-line_feed}
use virt_bbs.Transfer.Total.{Within, read_any_frame_opts-Within}
use virt_bbs.Transfer.Files.Base.{Link, base}
use virt_bbs.Transfer.Files.Send.{send_file, file_data}
use virt_bbs.Transfer.Files.Receive.{receive_file, ended, failure}
use virt_bbs.Transfer.Files.Session.{transmission, replies, send_file-replies}
use virt_bbs.Transfer.Files.Delivery.{receive_file-transmission}
use virt_bbs.Transfer.Files.Safety.{IsSafe, InFile, receive_file-IsSafe}
use virt_bbs.Transfer.Files.Ending.{receive_file-Ends}
use virt_bbs.Transfer.Files.Empty.{offer, announcement, send_file-receive_file_empty}

-- The check values of the two checksums.
crc16_check : crc16 (codes "123456789") ≡ 0x31C3
unfolding crc16
crc16_check = refl

crc32_check : crc32b (codes "123456789") ≡ 0xCBF43926
unfolding crc32b
crc32_check = refl

abbrev payload : Bytes
payload = 1 ∷ 0x18 ∷ 0x11 ∷ 255 ∷ []

read_data_subpacket-sum_example :
    read_data_subpacket false
      (escape_data payload ++ (zdle ∷ zcrcg ∷ (escape_data (sum_bytes false 7) ++ codes "**")))
    ≡ (if crc_of false (payload ++ zcrcg ∷ []) == 7
        then ok ((payload, zcrcg), codes "**")
        else err bad_crc)
read_data_subpacket-sum_example =
    read_data_subpacket-sum false payload zcrcg 7 (codes "**") (omega arith)
      (unfold is_marker in refl) (omega arith)

read_data_subpacket-data_subpacket_example :
    read_data_subpacket true (data_subpacket payload zcrcw true ++ codes "**")
    ≡ ok ((payload, zcrcw), codes "**")
read_data_subpacket-data_subpacket_example =
    read_data_subpacket-data_subpacket true payload zcrcw (codes "**") (omega arith)
      (unfold is_marker in refl)

read_any_frame_opts-data_subpacket_example :
    read_any_frame_opts true
      (hex_header zdata 5 ++ (data_subpacket payload zcrcg true ++ codes "x"))
    ≡ ok (record { frame_type = zdata; payload = payload; marker = zcrcg }, codes "x")
read_any_frame_opts-data_subpacket_example =
    read_any_frame_opts-data_subpacket true zdata 5 zcrcg payload (codes "x") (inr refl)
      (omega arith) (omega arith) (unfold is_marker in refl)

line_feed_counts :
    crc_of true (codes "hi" ++ zcrcw ∷ []) ≢ crc_of true ((0x0A ∷ codes "hi") ++ zcrcw ∷ [])
unfolding crc32b
line_feed_counts = omega arith

read_any_frame_opts-line_feed_example :
    read_any_frame_opts true
      (hex_header zdata 0 ++ (data_subpacket (0x0A ∷ codes "hi") zcrcw true ++ codes "x"))
    ≡ err bad_crc
read_any_frame_opts-line_feed_example =
    read_any_frame_opts-line_feed true zdata 0 zcrcw (codes "hi") (codes "x") (inr refl)
      (omega arith) (omega arith) (unfold is_marker in refl) line_feed_counts

read_any_frame_opts-Within_example : Within 2 (read_any_frame_opts false (codes "**"))
read_any_frame_opts-Within_example = read_any_frame_opts-Within false 2 (codes "**") (omega arith)

abbrev path : Bytes
path = codes "/srv/hi.txt"

-- The receiver has the first two bytes of the file.
abbrev disk : Bytes → Option Bytes
disk name = some (codes "ab")

abbrev empty_disk : Bytes → Option Bytes
empty_disk name = none

send_file-replies_example :
    send_file path
      (codes "ab" ++ codes "cde")
      (pos 1000)
      (record { input = replies 2 5; sent = [] })
    ≡ (
      ok tt,
      record {
        input = 0x11 ∷ [];
        sent = transmission (file_data (base path) 5 (pos 1000)) 2 (codes "cde") 5;
      },
    )
send_file-replies_example =
    send_file-replies path (codes "ab") (codes "cde") (pos 1000) (omega arith) (omega arith)

receive_file-transmission_example :
    receive_file disk (record {
      input = transmission (file_data (base path) 5 (pos 1000)) 2 (codes "cde") 5;
      sent = [];
    })
    ≡ ended
        (record { name = base path; contents = codes "abcde"; received = 5 })
        (record { input = eol ++ hex_header zfin 0; sent = replies 2 5 })
receive_file-transmission_example =
    receive_file-transmission disk path (codes "ab") (codes "cde") (pos 1000) refl (omega arith)
      (omega arith) (omega arith) (omega arith) (unfold base in omega arith)
      (unfold base in omega arith)

abbrev sent_file : Link
sent_file = record {
  input = transmission (file_data (base path) 5 (pos 1000)) 2 (codes "cde") 5;
  sent = [];
}

receive_file-IsSafe_example : InFile (IsSafe disk) (receive_file disk sent_file).file
receive_file-IsSafe_example = receive_file-IsSafe disk sent_file

receive_file-Ends_example : (receive_file disk sent_file).failed ≢ some out_of_fuel
receive_file-Ends_example = receive_file-Ends disk sent_file

send_file-receive_file_empty_example :
    (send_file path [] (pos 0) (record { input = offer; sent = [] })
      ≡ (err eof, record { input = eol; sent = announcement (file_data (base path) 0 (pos 0)) }))
    × (receive_file empty_disk
          (record { input = announcement (file_data (base path) 0 (pos 0)); sent = [] })
        ≡ failure
            (record { name = base path; contents = []; received = 0 })
            eof
            (record { input = hex_header zdata 0 ++ hex_header zeof 0; sent = offer }))
send_file-receive_file_empty_example =
    send_file-receive_file_empty empty_disk path (pos 0) refl (unfold base in omega arith)
      (unfold base in omega arith)
