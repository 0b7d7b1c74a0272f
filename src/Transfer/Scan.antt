-- ===== src/Transfer/Scan.antt =====
-- internal/transfer/zmodem.go: `readAnyFrame`, which looks for the start of a frame.
use virt_bbs.Prelude.{
  ℕ, zero, suc, Bool, true, false, [], ◌∷◌, Bytes, length, ◌==◌, leb, if◌then◌else◌,
}
use virt_bbs.Transfer.Frames.{zcan, zpad, zdle, zbin, zhex, zbin32}
use virt_bbs.Transfer.Reader.{
  Frame, Reader, Result, ok, err, eof, out_of_fuel, read_hex_frame, read_bin_frame,
}

-- A round of the loop of `readAnyFrameOpts` ends it, or goes on with a count of `CAN` bytes.
pub data Round : Type 0 where
  stop : Result (Frame × Bytes) → Round
  again : ℕ → Bytes → Round

unfoldable pub encoding : Bool → Bytes → Round
encoding use32 [] = stop (err eof)
encoding use32 (enc ∷ input) =
    if enc == zhex
    then stop (read_hex_frame use32 input)
    else if enc == zbin
    then stop (read_bin_frame false input)
    else if enc == zbin32
    then stop (read_bin_frame true input)
    else again 0 input

-- `b2` is the byte behind one or two `ZPAD`; where it is a third one it is read again.
unfoldable pub after_pad : Bool → ℕ → Bytes → Round
unfolding encoding
after_pad use32 b2 input =
    if b2 == zdle then encoding use32 input else again 0 (if b2 == zpad then b2 ∷ input else input)

unfoldable pub second_pad : Bool → Bytes → Round
unfolding after_pad
second_pad use32 [] = stop (err eof)
second_pad use32 (b2 ∷ input) = after_pad use32 b2 input

unfoldable pub first_pad : Bool → Bytes → Round
unfolding second_pad
first_pad use32 [] = stop (err eof)
first_pad use32 (b2 ∷ input) =
    if b2 == zpad then second_pad use32 input else after_pad use32 b2 input

unfoldable pub scan_round : Bool → ℕ → Bytes → Round
unfolding first_pad
scan_round use32 can_count [] = stop (err eof)
scan_round use32 can_count (b ∷ input) =
    if b == 0x18
    then if leb 5 (suc can_count)
      then stop (ok (record { frame_type = zcan; payload = []; marker = 0 }, input))
      else again (suc can_count) input
    else if b == zpad
    then first_pad use32 input
    else again 0 input

unfoldable pub scan_frames : ℕ → Bool → ℕ → Reader Frame
unfolding scan_round
scan_frames zero use32 can_count input = err out_of_fuel
scan_frames (suc fuel) use32 can_count input = elim (scan_round use32 can_count input) [
  | stop result ↦ result
  | again can_count' rest ↦ scan_frames fuel use32 can_count' rest
]

unfoldable pub read_any_frame_opts : Bool → Reader Frame
unfolding scan_frames
read_any_frame_opts use32 input = scan_frames (suc (length input)) use32 0 input

unfoldable pub read_any_frame : Reader Frame
unfolding read_any_frame_opts
read_any_frame = read_any_frame_opts false
