-- ===== src/Telnet/Samples.antt =====
-- Runs of the Telnet connection on concrete streams, and the theorems at concrete inputs.
use virt_bbs.Prelude.{◌<◌, ◌≡◌, refl, List, [], ◌∷◌, arith, Bytes, codes, ℕ, ◌++◌, replicate}
use virt_bbs.Telnet.{
  new_conn, escape, handle_option, handle_subneg, find_se, scan, loop, decode, raw_read, read, iac,
  sb, se, opt_naws, opt_term_type, will,
}
use virt_bbs.Telnet.Reads.{NoOverrun, taken, reads, delivered, stream, reads-decode}
use virt_bbs.Telnet.Held.{IsHeldBack, reads_short}
use virt_bbs.Telnet.Escape.{reads-escape, read_overrun, reads_one_byte}
use virt_bbs.Telnet.Window.{reads-naws, reads-naws_doubled}

-- `a`, a window report cut inside, then `b` and the start of a command.
abbrev cut_stream : List Bytes
cut_stream =
    (0x61 ∷ iac ∷ sb ∷ opt_naws ∷ 0 ∷ []) ∷ (132 ∷ 0 ∷ 43 ∷ iac ∷ []) ∷ (se ∷ 0x62 ∷ iac ∷ []) ∷ []

-- Slices of two bytes and more, the last segment being taken in two calls.
abbrev cut_slices : List ℕ
cut_slices = 3 ∷ 2 ∷ 1 ∷ 1 ∷ []

cut_stream_read :
    reads cut_slices new_conn cut_stream
    ≡ (record new_conn { width = 132; height = 43; buf = iac ∷ [] }, [], codes "ab")
unfolding read raw_read decode loop scan find_se handle_subneg
cut_stream_read = refl

term_type_asked :
    decode new_conn (iac ∷ will ∷ opt_term_type ∷ [])
    ≡ (record new_conn { sent = (iac ∷ sb ∷ opt_term_type ∷ 1 ∷ iac ∷ se ∷ []) ∷ [] }, [])
unfolding decode loop scan handle_option
term_type_asked = refl

cut_stream-NoOverrun : NoOverrun cut_slices new_conn cut_stream
unfolding read raw_read decode loop scan find_se handle_subneg
cut_stream-NoOverrun = omega arith

reads-decode_example :
    (delivered cut_slices new_conn cut_stream ≡ decode new_conn (taken cut_slices cut_stream))
    × (taken cut_slices cut_stream ++ stream (reads cut_slices new_conn cut_stream).1
        ≡ stream cut_stream)
reads-decode_example = reads-decode cut_slices new_conn cut_stream cut_stream-NoOverrun

-- The bytes `a`, 255 doubled and `b`, cut between the two.
abbrev escaped_segments : List Bytes
escaped_segments = (0x61 ∷ iac ∷ []) ∷ (iac ∷ 0x62 ∷ []) ∷ []

taken-escaped_segments : taken (2 ∷ 2 ∷ []) escaped_segments ≡ escape (0x61 ∷ iac ∷ 0x62 ∷ [])
unfolding raw_read escape
taken-escaped_segments = refl

reads_short_example :
    NoOverrun (2 ∷ 2 ∷ []) new_conn escaped_segments
    × IsHeldBack (reads (2 ∷ 2 ∷ []) new_conn escaped_segments).0.buf
reads_short_example = reads_short (2 ∷ 2 ∷ []) new_conn escaped_segments tt (omega arith)

reads-escape_example :
    delivered (2 ∷ 2 ∷ []) new_conn escaped_segments ≡ (new_conn, 0x61 ∷ iac ∷ 0x62 ∷ [])
reads-escape_example =
    reads-escape new_conn (0x61 ∷ iac ∷ 0x62 ∷ []) (2 ∷ 2 ∷ []) escaped_segments refl (omega arith)
      taken-escaped_segments

read_overrun_example : 2 < (read 2 new_conn (codes "abc" ∷ [])).count
read_overrun_example =
    read_overrun 2 new_conn (codes "abc") [] refl (omega arith) (omega arith) (omega arith)

reads_one_byte_example :
    reads (1 ∷ 1 ∷ []) new_conn (codes "pass" ∷ []) ≡ (new_conn, [], codes "ps")
reads_one_byte_example =
    reads_one_byte new_conn ((0x70, 0x61) ∷ (0x73, 0x73) ∷ []) refl (omega arith)

-- Read as a session does, a byte at a time; the report comes in two segments.
abbrev report_slices : List ℕ
report_slices = replicate 5 1

abbrev report : List Bytes
report = (iac ∷ sb ∷ opt_naws ∷ []) ∷ (0 ∷ 132 ∷ 0 ∷ 43 ∷ iac ∷ se ∷ []) ∷ []

taken-report : taken report_slices report ≡ iac ∷ sb ∷ opt_naws ∷ 0 ∷ 132 ∷ 0 ∷ 43 ∷ iac ∷ se ∷ []
unfolding raw_read
taken-report = refl

reads-naws_example :
    delivered report_slices new_conn report ≡ (record new_conn { width = 132; height = 43 }, [])
reads-naws_example =
    reads-naws report_slices new_conn report 0 132 0 43 refl taken-report (omega arith)
      (omega arith) (omega arith) (omega arith)

abbrev doubled_report : List Bytes
doubled_report = (iac ∷ sb ∷ opt_naws ∷ 0 ∷ iac ∷ iac ∷ 0 ∷ 24 ∷ iac ∷ se ∷ []) ∷ []

taken-doubled_report :
    taken (5 ∷ []) doubled_report ≡ iac ∷ sb ∷ opt_naws ∷ 0 ∷ iac ∷ iac ∷ 0 ∷ 24 ∷ iac ∷ se ∷ []
unfolding raw_read
taken-doubled_report = refl

reads-naws_doubled_example :
    delivered (5 ∷ []) new_conn doubled_report
    ≡ (record new_conn { width = 255; height = 65280 }, [])
reads-naws_doubled_example =
    reads-naws_doubled (5 ∷ []) new_conn doubled_report 0 0 24 refl taken-doubled_report
      (omega arith) (omega arith) (omega arith) (omega arith)
