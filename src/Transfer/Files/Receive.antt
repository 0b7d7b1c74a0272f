-- ===== src/Transfer/Files/Receive.antt =====
-- internal/transfer/zmodem.go: `ReceiveFile`.
use virt_bbs.Prelude.{
  ℕ, zero, suc, ◌+◌, ◌%◌, true, false, ◌||◌, Option, none, some, [], ◌∷◌, ◌++◌, Bytes, codes,
  length, ◌==◌, if◌then◌else◌,
}
use virt_bbs.Transfer.Frames.{
  zrinit, zack, zfile, zfin, zrpos, zdata, zeof, zcan, zcrcq, zcrcw, hex_header,
}
use virt_bbs.Transfer.Reader.{
  Error, empty_filename, cancelled, out_of_fuel, ok, err, Frame, read_data_subpacket,
}
use virt_bbs.Transfer.Scan.{read_any_frame_opts}
use virt_bbs.Transfer.Files.Base.{Link, transmit, base}

-- A file of the receiver's directory, with the count of bytes that the code keeps.
pub record Received : Type 0 where
  pub name : Bytes
  pub contents : Bytes
  pub received : ℕ

-- How `ReceiveFile` ends: the file that it opened, its error, and the connection.
pub record Outcome : Type 0 where
  pub file : Option Received
  pub failed : Option Error
  pub link : Link

abbrev pub ended : Received → Link → Outcome
ended f l = record { file = some f; failed = none; link = l }

abbrev pub failure : Received → Error → Link → Outcome
failure f e l = record { file = some f; failed = some e; link = l }

-- `zrinitFlags` as a number: CANOVIO and CANFC32.
abbrev pub zrinit_flags : ℕ
zrinit_flags = 0x22

abbrev pub append_to : Received → Bytes → Received
append_to f pkt = record f { contents = f.contents ++ pkt; received = f.received + length pkt }

abbrev pub acknowledge : ℕ → Received → Link → Link
acknowledge marker f l =
    if marker == zcrcw || marker == zcrcq
    then transmit (hex_header zack (f.received % 4294967296)) l
    else l

-- The run of subpackets behind a ZDATA header; `next` is what follows it.
unfoldable pub store_run : (Received → Link → Outcome) → ℕ → Received → Bytes → ℕ → Link → Outcome
store_run next zero f pkt marker l = failure f out_of_fuel l
store_run next (suc fuel) f pkt marker l =
    let f' = append_to f pkt in
    let l' = acknowledge marker f' l in
    elim (marker == zcrcw) [
      | true ↦ next f' l'
      | false ↦ elim (read_data_subpacket true l'.input) [
        | err e ↦ failure f' e l'
        | ok r ↦ store_run next fuel f' r.0.0 r.0.1 (record l' { input = r.1 })
      ]
    ]

-- What the loop over the data does with a frame; `next` is its next round.
unfoldable pub on_frame : (Received → Link → Outcome) → Received → Frame → Link → Outcome
unfolding store_run
on_frame next f frame l =
    if frame.frame_type == zdata
    then store_run next (suc (length l.input)) f frame.payload frame.marker l
    else if frame.frame_type == zeof
    then ended f (transmit (hex_header zrinit zrinit_flags) l)
    else if frame.frame_type == zfin
    then ended f (transmit (codes "OO") (transmit (hex_header zfin 0) l))
    else if frame.frame_type == zcan
    then failure f cancelled l
    else next f l

unfoldable pub data_loop : ℕ → Received → Link → Outcome
data_loop zero f l = failure f out_of_fuel l
data_loop (suc fuel) f l = elim (read_any_frame_opts true l.input) [
  | err e ↦ failure f e l
  | ok r ↦ on_frame (data_loop fuel) f r.0 (record l { input = r.1 })
]

-- The bytes in front of the first NUL.
unfoldable pub until_nul : Bytes → Bytes
until_nul [] = []
until_nul (c ∷ s) = if c == 0 then [] else c ∷ until_nul s

-- A file that is there is gone on with, unless it is empty.
abbrev pub opened : Bytes → Option Bytes → Received
opened name none = record { name = name; contents = []; received = 0 }
opened name (some held) = record { name = name; contents = held; received = length held }

-- The name in a ZFILE subpacket, and the transfer of its file.
unfoldable pub on_name : (Bytes → Option Bytes) → Bytes → Link → Outcome
on_name disk [] l = record { file = none; failed = some empty_filename; link = l }
on_name disk (c ∷ name) l =
    let f = opened (base (c ∷ name)) (disk (base (c ∷ name))) in
    let l' = transmit (hex_header zrpos (f.received % 4294967296)) l in
    data_loop (suc (length l'.input)) f l'

-- The loop that waits for a ZFILE header.
unfoldable pub name_loop : ℕ → (Bytes → Option Bytes) → Link → Outcome
name_loop zero disk l = record { file = none; failed = some out_of_fuel; link = l }
name_loop (suc fuel) disk l = elim (read_any_frame_opts true l.input) [
  | err e ↦ record { file = none; failed = some e; link = l }
  | ok r ↦
      let l' : Link = record l { input = r.1 } in
      let wait = name_loop fuel disk l' in
      if r.0.frame_type == zfile
      then on_name disk (until_nul r.0.payload) l'
      else if r.0.frame_type == zfin
      then record { file = none; failed = none; link = transmit (hex_header zfin 0) l' }
      else wait
]

unfoldable pub receive_file : (Bytes → Option Bytes) → Link → Outcome
receive_file disk l =
    let l' = transmit (hex_header zrinit zrinit_flags) l in
    name_loop (suc (length l'.input)) disk l'
