-- ===== src/Transfer/LineFeed.antt =====
-- A subpacket that starts with a line feed: the reader takes it for the end of the header's line.
use virt_bbs.Prelude.{
  ℕ, ◌≡◌, ◌≢◌, refl, ◌∙◌, ◌⊎◌, Bool, true, false, [], ◌∷◌, ◌++◌, append_assoc, Bytes, ◌==◌, All,
  IsByte, arith,
}
use virt_bbs.Transfer.Frames.{hex_header, escape_data, data_subpacket, zdle, zfile, zdata}
use virt_bbs.Transfer.Reader.{ok, err, bad_crc, skip_eol, payload_frame, is_marker}
use virt_bbs.Transfer.Scan.{read_any_frame_opts}
use virt_bbs.Transfer.Subpackets.{
  crc_of, crc_of_lt, crc_bytes_lem, sum_bytes, read_data_subpacket-sum,
}
use virt_bbs.Transfer.Headers.{
  StartsPlain, eol, frame_start, hex_frame-payload, skip_eol-escape_data,
}

module _ (use32 : Bool) (m : ℕ) (payload rest : Bytes) where
  -- The line feed is skipped, and the checksum behind the rest of the data counts it in.
  abbrev crc : ℕ
  crc = crc_of use32 ((0x0A ∷ payload) ++ m ∷ [])

  abbrev tail : Bytes
  tail = m ∷ (escape_data (sum_bytes use32 crc) ++ rest)

  data_subpacket-line_feed :
      data_subpacket (0x0A ∷ payload) m use32 ++ rest
      ≡ 0x0A ∷ (escape_data payload ++ (zdle ∷ tail))
  unfolding data_subpacket
  data_subpacket-line_feed = rw (append_assoc, crc_bytes_lem) refl

  skip_eol-line_feed :
      StartsPlain payload
      → skip_eol (eol ++ (data_subpacket (0x0A ∷ payload) m use32 ++ rest))
        ≡ ok (escape_data payload ++ (zdle ∷ tail))
  unfolding skip_eol
  skip_eol-line_feed h = rw data_subpacket-line_feed (skip_eol-escape_data payload tail h)

-- A ZFILE or ZDATA header and a subpacket whose data start with one line feed: reading the frame
-- fails with a wrong checksum, if the checksums of the data with and without the line feed differ.
pub read_any_frame_opts-line_feed :
    (use32 : Bool) (t pos m : ℕ) (payload rest : Bytes)
    → (t ≡ zfile) ⊎ (t ≡ zdata)
    → All IsByte payload
    → StartsPlain payload
    → is_marker m ≡ true
    → crc_of use32 (payload ++ m ∷ []) ≢ crc_of use32 ((0x0A ∷ payload) ++ m ∷ [])
    → read_any_frame_opts use32
        (hex_header t pos ++ (data_subpacket (0x0A ∷ payload) m use32 ++ rest))
      ≡ err bad_crc
unfolding payload_frame
read_any_frame_opts-line_feed use32 t pos m payload rest kind h plain k differ =
    let sub = data_subpacket (0x0A ∷ payload) m use32 ++ rest in
    let sum = crc use32 m payload rest in
    let unequal : (crc_of use32 (payload ++ m ∷ []) == sum) ≡ false = ground (arith, differ) in
    frame_start use32 t pos sub (ground (arith, kind))
    ∙ hex_frame-payload use32 t pos (eol ++ sub) (ground (arith, kind))
    ∙ rw
        (
          skip_eol-line_feed use32 m payload rest plain,
          read_data_subpacket-sum use32 payload m sum rest h k (crc_of_lt use32 _),
          unequal,
        )
        refl
