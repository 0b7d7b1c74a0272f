-- ===== src/Transfer/Total.antt =====
-- Every reader ends, and leaves no more bytes than it was given.
use virt_bbs.Prelude.{
  ℕ, zero, suc, ◌+◌, ◌*◌, ◌≤◌, ◌<◌, ◌≢◌, Bool, true, false, ◌||◌, Option, none, some, inl, inr, [],
  ◌∷◌, ◌++◌, Bytes, length, ◌==◌, leb, ltb, Bool-cases, if◌then◌else◌, arith,
}
use virt_bbs.Transfer.Crc.{crc16, crc32b}
use virt_bbs.Transfer.Frames.{zfile, zdata, zhex, zbin, zbin32, zdle, zpad}
use virt_bbs.Transfer.Reader.{
  from_le32, out_of_fuel, Result, ok, err, ◌>>=◌, ◌>>◌, guard_crc, hex_pair, from_hex_nibble,
  read_escaped_byte, read_escaped, check_crc, is_marker, unescape, subpacket_from,
  read_data_subpacket, hex_pairs, hex_decode, read_bytes, skip_eol, payload_frame, hex_frame,
  read_hex_frame, bin_frame, read_bin_frame,
}
use virt_bbs.Transfer.Scan.{
  Round, stop, again, encoding, after_pad, first_pad, scan_round, scan_frames, read_any_frame_opts,
}

-- The result is an error of the code, or leaves at most `n` bytes.
abbrev pub Within {ℓ} : {A : Type ℓ} → ℕ → Result (A × Bytes) → Type 0
Within n (ok r) = length r.1 ≤ n
Within n (err e) = e ≢ out_of_fuel

>>=-Within {ℓ κ} :
    {A : Type ℓ} {B : Type κ} (n : ℕ) (m : Result (A × Bytes)) (f : A × Bytes → Result (B × Bytes))
    → Within n m
    → ((r : A × Bytes) → length r.1 ≤ n → Within n (f r))
    → Within n (m >>= f)
>>=-Within n (ok r) f h k = k r h
>>=-Within n (err e) f h k = h

if-Within {ℓ} :
    {A : Type ℓ} (n : ℕ) (test : Bool) (r s : Result (A × Bytes))
    → Within n r
    → Within n s
    → Within n (if test then r else s)
if-Within n true r s h k = h
if-Within n false r s h k = k

guard_crc-Within {ℓ} :
    {A : Type ℓ} (n : ℕ) (test : Bool) (r : Result (A × Bytes))
    → Within n r
    → Within n (guard_crc test >> r)
guard_crc-Within n true r h = h
guard_crc-Within n false r h = cc

-- An error of the code, whatever is returned otherwise.
abbrev IsNamed {ℓ} : {A : Type ℓ} → Result A → Type 0
IsNamed (ok a) = Unit
IsNamed (err e) = e ≢ out_of_fuel

>>=-IsNamed {ℓ κ} :
    {A : Type ℓ} {B : Type κ} (m : Result A) (f : A → Result B)
    → IsNamed m
    → ((a : A) → IsNamed (f a))
    → IsNamed (m >>= f)
>>=-IsNamed (ok a) f h k = k a
>>=-IsNamed (err e) f h k = h

then-Within {ℓ κ} :
    {A : Type ℓ} {B : Type κ} (n : ℕ) (m : Result A) (f : A → Result (B × Bytes))
    → IsNamed m
    → ((a : A) → Within n (f a))
    → Within n (m >>= f)
then-Within n (ok a) f h k = k a
then-Within n (err e) f h k = h

hex_pair-IsNamed : (hi lo : Option ℕ) → IsNamed (hex_pair hi lo)
hex_pair-IsNamed (some hi) (some lo) = tt
hex_pair-IsNamed (some hi) none = cc
hex_pair-IsNamed none lo = cc

hex_pairs-IsNamed : (n : ℕ) (h : Bytes) → IsNamed (hex_pairs n h)
unfolding hex_pairs
hex_pairs-IsNamed zero h = tt
hex_pairs-IsNamed (suc n) (hi ∷ lo ∷ h) =
    >>=-IsNamed (hex_pair (from_hex_nibble hi) (from_hex_nibble lo)) _ (hex_pair-IsNamed _ _)
      λ b. >>=-IsNamed (hex_pairs n h) _ (hex_pairs-IsNamed n h) λ rest. tt
hex_pairs-IsNamed (suc n) (hi ∷ []) = cc
hex_pairs-IsNamed (suc n) [] = cc

hex_decode-IsNamed : (h : Bytes) → IsNamed (hex_decode h)
unfolding hex_decode
hex_decode-IsNamed h = elim (Bool-cases (ltb (length h) 14)) [
  | inl e ↦ rw e (cc)
  | inr e ↦ rw e (hex_pairs-IsNamed 7 h)
]

module _ (n : ℕ) where
  read_escaped_byte-Within : (s : Bytes) → length s ≤ n → Within n (read_escaped_byte s)
  unfolding read_escaped_byte
  read_escaped_byte-Within [] h = cc
  read_escaped_byte-Within (b ∷ []) h = if-Within n (b == 0x18) _ _ (cc) (omega arith)
  read_escaped_byte-Within (b ∷ b2 ∷ s) h = if-Within n (b == 0x18) _ _ (omega arith) (omega arith)

  read_escaped-Within : (k : ℕ) (s : Bytes) → length s ≤ n → Within n (read_escaped k s)
  unfolding read_escaped
  read_escaped-Within zero s h = h
  read_escaped-Within (suc k) s h =
      >>=-Within n (read_escaped_byte s) _ (read_escaped_byte-Within s h) λ first hf.
        >>=-Within n (read_escaped k first.1) _ (read_escaped-Within k first.1 hf) λ rest hr. hr

  check_crc-Within :
      (use32 : Bool) (payload : Bytes) (m : ℕ) (s : Bytes)
      → length s ≤ n
      → Within n (check_crc use32 payload m s)
  unfolding check_crc
  check_crc-Within true payload m s h =
      >>=-Within n (read_escaped_byte s) _ (read_escaped_byte-Within s h) λ c0 h0.
        >>=-Within n (read_escaped_byte c0.1) _ (read_escaped_byte-Within c0.1 h0) λ c1 h1.
          >>=-Within n (read_escaped_byte c1.1) _ (read_escaped_byte-Within c1.1 h1) λ c2 h2.
            >>=-Within n (read_escaped_byte c2.1) _ (read_escaped_byte-Within c2.1 h2) λ c3 h3.
              guard_crc-Within {A = Bytes × ℕ} n
                (crc32b (payload ++ m ∷ []) == from_le32 c0.0 c1.0 c2.0 c3.0)
                (ok ((payload, m), c3.1)) h3
  check_crc-Within false payload m s h =
      >>=-Within n (read_escaped_byte s) _ (read_escaped_byte-Within s h) λ c1 h1.
        >>=-Within n (read_escaped_byte c1.1) _ (read_escaped_byte-Within c1.1 h1) λ c2 h2.
          guard_crc-Within {A = Bytes × ℕ} n (crc16 (payload ++ m ∷ []) == c1.0 * 256 + c2.0)
            (ok ((payload, m), c2.1)) h2

  subpacket_from-Within :
      (use32 : Bool) (acc s : Bytes) → length s ≤ n → Within n (subpacket_from use32 acc s)
  unfolding subpacket_from
  subpacket_from-Within use32 acc [] h = cc
  subpacket_from-Within use32 acc (b ∷ []) h = if-Within n (b == 0x18) _ _ (cc) (cc)
  subpacket_from-Within use32 acc (b ∷ b2 ∷ s) h =
      if-Within n (b == 0x18) _ _
        (if-Within n (is_marker b2) _ _ (check_crc-Within use32 acc b2 s (omega arith))
          (subpacket_from-Within use32 (acc ++ unescape b2 ∷ []) s (omega arith)))
        (subpacket_from-Within use32 (acc ++ b ∷ []) (b2 ∷ s) (omega arith))

  payload_frame-Within :
      (t : ℕ) (use32 : Bool) (s : Bytes) → length s ≤ n → Within n (payload_frame t use32 s)
  unfolding payload_frame read_data_subpacket
  payload_frame-Within t use32 s h =
      >>=-Within n (subpacket_from use32 [] s) _ (subpacket_from-Within use32 [] s h) λ sub hs. hs

  skip_eol-then :
      {A : Type 0} (f : Bytes → Result (A × Bytes)) (s : Bytes)
      → ((r : Bytes) → length r ≤ n → Within n (f r))
      → length s ≤ n
      → Within n (skip_eol s >>= f)
  unfolding skip_eol
  skip_eol-then f [] k h = cc
  skip_eol-then f (b ∷ s) k h = elim (Bool-cases (b == 0x0D || b == 0x0A || b == 0x11)) [
    | inl e ↦ rw e (skip_eol-then f s k (omega arith))
    | inr e ↦ rw e (k (b ∷ s) h)
  ]

  read_bytes-Within : (k : ℕ) (s : Bytes) → length s ≤ n → Within n (read_bytes k s)
  unfolding read_bytes
  read_bytes-Within zero s h = h
  read_bytes-Within (suc k) [] h = cc
  read_bytes-Within (suc k) (b ∷ s) h =
      >>=-Within n (read_bytes k s) _ (read_bytes-Within k s (omega arith)) λ rest hr. hr

  hex_frame-Within :
      (use32 : Bool) (raw s : Bytes) → length s ≤ n → Within n (hex_frame use32 raw s)
  unfolding hex_frame
  hex_frame-Within use32 (t ∷ p0 ∷ p1 ∷ p2 ∷ p3 ∷ c1 ∷ c2 ∷ []) s h =
      if-Within n (crc16 (t ∷ p0 ∷ p1 ∷ p2 ∷ p3 ∷ []) == c1 * 256 + c2) _ _
        (if-Within n (t == zfile || t == zdata) _ _
          (skip_eol-then (payload_frame t use32) s (payload_frame-Within t use32) h) h)
        (cc)
  hex_frame-Within use32 raw s h = cc

  bin_frame-Within :
      (use32 : Bool) (raw s : Bytes) → length s ≤ n → Within n (bin_frame use32 raw s)
  unfolding bin_frame
  bin_frame-Within true (t ∷ p0 ∷ p1 ∷ p2 ∷ p3 ∷ c0 ∷ c1 ∷ c2 ∷ c3 ∷ []) s h =
      if-Within n (crc32b (t ∷ p0 ∷ p1 ∷ p2 ∷ p3 ∷ []) == from_le32 c0 c1 c2 c3) _ _
        (if-Within n (t == zfile || t == zdata) _ _ (payload_frame-Within t true s h) h) (cc)
  bin_frame-Within false (t ∷ p0 ∷ p1 ∷ p2 ∷ p3 ∷ c1 ∷ c2 ∷ []) s h =
      if-Within n (crc16 (t ∷ p0 ∷ p1 ∷ p2 ∷ p3 ∷ []) == c1 * 256 + c2) _ _
        (if-Within n (t == zfile || t == zdata) _ _ (payload_frame-Within t false s h) h) (cc)
  bin_frame-Within use32 raw s h = cc

  read_hex_frame-Within :
      (use32 : Bool) (s : Bytes) → length s ≤ n → Within n (read_hex_frame use32 s)
  unfolding read_hex_frame
  read_hex_frame-Within use32 s h =
      >>=-Within n (read_bytes 14 s) _ (read_bytes-Within 14 s h) λ hex_buf hs.
        then-Within n (hex_decode hex_buf.0) _ (hex_decode-IsNamed hex_buf.0)
          λ raw. hex_frame-Within use32 raw hex_buf.1 hs

  read_bin_frame-Within :
      (use32 : Bool) (s : Bytes) → length s ≤ n → Within n (read_bin_frame use32 s)
  unfolding read_bin_frame
  read_bin_frame-Within use32 s h =
      >>=-Within n (read_escaped (if use32 then 9 else 7) s) _
        (read_escaped-Within (if use32 then 9 else 7) s h)
        λ raw hs. bin_frame-Within use32 raw.0 raw.1 hs

  -- A round that ends the loop, or goes on with at most `n` bytes.
  abbrev Continues : Round → Type 0
  Continues (stop result) = Within n result
  Continues (again count rest) = length rest ≤ n

  if-Continues :
      (test : Bool) (r s : Round) → Continues r → Continues s → Continues (if test then r else s)
  if-Continues true r s h k = h
  if-Continues false r s h k = k

  encoding-Continues : (use32 : Bool) (s : Bytes) → length s ≤ n → Continues (encoding use32 s)
  unfolding encoding
  encoding-Continues use32 [] h = cc
  encoding-Continues use32 (enc ∷ s) h =
      let fits : length s ≤ n = omega arith in
      if-Continues (enc == zhex) _ _ (read_hex_frame-Within use32 s fits) (
        if-Continues (enc == zbin) _ _ (read_bin_frame-Within false s fits)
          (if-Continues (enc == zbin32) _ _ (read_bin_frame-Within true s fits) fits))

  after_pad-Continues :
      (use32 : Bool) (b2 : ℕ) (s : Bytes) → length s < n → Continues (after_pad use32 b2 s)
  unfolding after_pad
  after_pad-Continues use32 b2 s h =
      if-Continues (b2 == zdle) _ _ (encoding-Continues use32 s (omega arith)) (ground arith)

  first_pad-Continues : (use32 : Bool) (s : Bytes) → length s ≤ n → Continues (first_pad use32 s)
  unfolding first_pad
  first_pad-Continues use32 [] h = cc
  first_pad-Continues use32 (b2 ∷ []) h =
      if-Continues (b2 == zpad) _ _ (cc) (after_pad-Continues use32 b2 [] h)
  first_pad-Continues use32 (b2 ∷ b3 ∷ s) h =
      if-Continues (b2 == zpad) _ _ (after_pad-Continues use32 b3 s (omega arith))
        (after_pad-Continues use32 b2 (b3 ∷ s) h)

  scan_round-Continues :
      (use32 : Bool) (count : ℕ) (s : Bytes)
      → length s ≤ suc n
      → Continues (scan_round use32 count s)
  unfolding scan_round
  scan_round-Continues use32 count [] h = cc
  scan_round-Continues use32 count (b ∷ s) h =
      let fits : length s ≤ n = omega arith in
      if-Continues (b == 0x18) _ _ (if-Continues (leb 5 (suc count)) _ _ fits fits)
        (if-Continues (b == zpad) _ _ (first_pad-Continues use32 s fits) fits)

scan_frames_done :
    (fuel : ℕ) (use32 : Bool) (round : Round) (n : ℕ)
    → Continues n round
    → ((count : ℕ) (rest : Bytes) → length rest ≤ n → Within n (scan_frames fuel use32 count rest))
    → Within n
        (elim round [ stop result ↦ result | again count rest ↦ scan_frames fuel use32 count rest ])
scan_frames_done fuel use32 (stop result) n h k = h
scan_frames_done fuel use32 (again count rest) n h k = k count rest h

weaken-Within {ℓ} :
    {A : Type ℓ} (n m : ℕ) (r : Result (A × Bytes)) → n ≤ m → Within n r → Within m r
weaken-Within n m (ok r) h k = omega arith
weaken-Within n m (err e) h k = k

scan_frames-Within :
    (fuel : ℕ) (use32 : Bool) (count : ℕ) (s : Bytes) (n : ℕ)
    → length s < fuel
    → length s ≤ suc n
    → Within n (scan_frames fuel use32 count s)
unfolding scan_frames
scan_frames-Within zero use32 count s n h k = elim h [ ]
scan_frames-Within (suc fuel) use32 count [] n h k = cc
scan_frames-Within (suc fuel) use32 count (b ∷ s) n h k =
    weaken-Within (length s) n (scan_frames (suc fuel) use32 count (b ∷ s)) (omega arith) (
      scan_frames_done fuel use32 (scan_round use32 count (b ∷ s)) (length s)
        (scan_round-Continues (length s) use32 count (b ∷ s) (omega arith))
        λ count' rest fits.
          scan_frames-Within fuel use32 count' rest (length s) (omega arith) (omega arith))

-- `readAnyFrame` returns on every input, with a frame or an error of the code; from at most n + 1
-- bytes, a frame leaves at most n.
pub read_any_frame_opts-Within :
    (use32 : Bool) (n : ℕ) (s : Bytes) → length s ≤ suc n → Within n (read_any_frame_opts use32 s)
unfolding read_any_frame_opts
read_any_frame_opts-Within use32 n s h =
    scan_frames-Within (suc (length s)) use32 0 s n (omega arith) h

pub read_data_subpacket-Within :
    (use32 : Bool) (n : ℕ) (s : Bytes) → length s ≤ suc n → Within n (read_data_subpacket use32 s)
unfolding read_data_subpacket subpacket_from
read_data_subpacket-Within use32 n [] h = cc
read_data_subpacket-Within use32 n (b ∷ []) h = if-Within n (b == zdle) _ _ (cc) (cc)
read_data_subpacket-Within use32 n (b ∷ b2 ∷ s) h =
    if-Within n (b == zdle) _ _
      (if-Within n (is_marker b2) _ _ (check_crc-Within n use32 [] b2 s (omega arith))
        (subpacket_from-Within n use32 (unescape b2 ∷ []) s (omega arith)))
      (subpacket_from-Within n use32 (b ∷ []) (b2 ∷ s) (omega arith))
