-- ===== src/Transfer/Files/Send.antt =====
-- internal/transfer/zmodem.go: `SendFile`.
use Prim.Native.Nat.{bit_and}
use virt_bbs.Prelude.{
  ℕ, zero, suc, ◌%◌, Bool, true, false, not, Option, none, some, [], ◌∷◌, ◌++◌, Bytes, codes,
  length, take, drop, ◌==◌, if◌then◌else◌,
}
use virt_bbs.Prelude.Int.{ℤ, pos, negsuc, ◌-ℤ◌}
use virt_bbs.Prelude.Decimal.{show_nat, show_int}
use virt_bbs.Transfer.Frames.{
  zrqinit, zrinit, zfile, zskip, zfin, zrpos, zdata, zeof, zcrcg, zcrcw, canfc32, hex_header,
  data_subpacket,
}
use virt_bbs.Transfer.Reader.{Error, not_zrpos, out_of_fuel, Result, ok, err, Frame, Reader}
use virt_bbs.Transfer.Scan.{read_any_frame}
use virt_bbs.Transfer.Files.Base.{Link, transmit, base, uint32_of}

-- A step of the protocol returns its value or its error, with the connection.
abbrev pub M : Type 0 → Type 0
M A = Link → Result A × Link

abbrev pub after : {V W : Type 0} → (V → M W) → Result V × Link → Result W × Link
after go_on (err problem, l) = (err problem, l)
after go_on (ok value, l) = go_on value l

infixl 5 ◌>>=◌
abbrev pub ◌>>=◌ : {V W : Type 0} → M V → (V → M W) → M W
(step >>= go_on) l = after go_on (step l)

abbrev pub pure : {A : Type 0} → A → M A
pure a l = (ok a, l)

abbrev pub fail : {A : Type 0} → Error → M A
fail e l = (err e, l)

infixl 5 ◌>>◌
abbrev pub ◌>>◌ : {V W : Type 0} → M V → M W → M W
step >> next = step >>= λ _. next

abbrev pub send : Bytes → M (Unit {0})
send bytes l = (ok tt, transmit bytes l)

abbrev pub received : {A : Type 0} → Link → Result (A × Bytes) → Result A × Link
received l (ok r) = (ok r.0, record l { input = r.1 })
received l (err e) = (err e, l)

abbrev pub receive : {A : Type 0} → Reader A → M A
receive reader l = received l (reader l.input)

-- `flags&CANFC32 != 0`, of a header that has its four bytes.
abbrev pub flags_use32 : Bool → Option ℕ → Bool
flags_use32 default none = default
flags_use32 default (some flags) = not (bit_and flags canfc32 == 0)

unfoldable pub wait_loop : ℕ → Reader Bool
wait_loop zero input = err out_of_fuel
wait_loop (suc fuel) input = elim (read_any_frame input) [
  | err e ↦ err e
  | ok r ↦
      if r.0.frame_type == zrqinit
      then ok (false, r.1)
      else if r.0.frame_type == zrinit
      then ok (flags_use32 false (uint32_of r.0.payload), r.1)
      else wait_loop fuel r.1
]

unfoldable pub wait_for_receiver_init : Reader Bool
unfolding wait_loop
wait_for_receiver_init input = wait_loop (suc (length input)) input

-- The text in the subpacket of a ZFILE header.
unfoldable pub file_data : Bytes → ℕ → ℤ → Bytes
file_data name size mtime =
    name ++ (0 ∷ (show_nat size ++ (b' ' ∷ (show_int mtime ++ codes " 0 0"))))

abbrev pub is_spent : ℤ → Bool
is_spent (pos zero) = true
is_spent (pos (suc n)) = false
is_spent (negsuc n) = true

-- The loop over the pieces of the file, of at most 1024 bytes, with what `f` has still to read.
unfoldable pub send_chunks : ℕ → Bytes → ℤ → Bool → M (Unit {0})
send_chunks zero rest remaining use32 = fail out_of_fuel
send_chunks (suc fuel) [] remaining use32 = pure tt
send_chunks (suc fuel) (b ∷ rest) remaining use32 =
    let chunk = take 1024 (b ∷ rest) in
    let remaining' = remaining -ℤ pos (length chunk) in
    let go_on = send_chunks fuel (drop 1024 (b ∷ rest)) remaining' use32 in
    if is_spent remaining'
    then send (data_subpacket chunk zcrcw use32) >> (receive read_any_frame >> pure tt)
    else send (data_subpacket chunk zcrcg use32) >> go_on

-- The two bytes that are read last, whatever they are.
abbrev pub read_oo : M (Unit {0})
read_oo l = (ok tt, record l { input = drop 2 l.input })

abbrev pub offset_of : Option ℕ → ℕ
offset_of none = 0
offset_of (some offset) = offset

abbrev pub finish_sending : ℕ → M (Unit {0})
finish_sending size = do
  send (hex_header zeof (size % 4294967296))
  receive read_any_frame
  send (hex_header zfin 0)
  read_oo

-- `SendFile` from the answer to the file's name on.
unfoldable pub send_from : Bytes → Bool → Frame → M (Unit {0})
unfolding send_chunks
send_from content use32 frame =
    let offset = offset_of (uint32_of frame.payload) in
    let rest = drop offset content in
    let remaining = pos (length content) -ℤ pos offset in
    if frame.frame_type == zrpos
    then send (hex_header zdata offset)
      >> send_chunks (suc (length rest)) rest remaining use32
      >> finish_sending (length content)
    else fail not_zrpos

abbrev pub send_name : Bytes → Bool → M Frame
send_name text use32 = do
  send (hex_header zfile 0)
  send (data_subpacket text zcrcw use32)
  receive read_any_frame

-- The second attempt, where the receiver answers with its flags.
abbrev pub send_again : Bytes → Bytes → Bool → M (Unit {0})
send_again text content use32 = send_name text use32 >>= send_from content use32

-- What `SendFile` does with the receiver's answer to the name.
abbrev pub answer : Bytes → Bytes → Bool → Frame → M (Unit {0})
answer text content use32 frame =
    if frame.frame_type == zskip
    then pure tt
    else if frame.frame_type == zrinit
    then send_again text content (flags_use32 use32 (uint32_of frame.payload))
    else send_from content use32 frame

unfoldable pub send_file : Bytes → Bytes → ℤ → M (Unit {0})
send_file path content mtime =
    let text = file_data (base path) (length content) mtime in
    do
      use32 ← receive wait_for_receiver_init
      frame ← send_name text use32
      answer text content use32 frame
