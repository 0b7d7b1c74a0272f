-- ===== src/Transfer/Files/Ending.antt =====
-- `ReceiveFile` returns, whatever the peer sends: its loops have fuel enough.
use virt_bbs.Prelude.{
  ℕ, zero, suc, ◌<◌, ◌≡◌, ◌≢◌, refl, sym, ap, true, Option, some, [], ◌∷◌, Bytes, length, ◌==◌,
  arith, subst,
}
use virt_bbs.Transfer.Frames.{zdata, zeof, zfin, zcan, zfile, zcrcw}
use virt_bbs.Transfer.Reader.{
  Error, out_of_fuel, Result, ok, err, Frame, read_data_subpacket, subpacket_from,
}
use virt_bbs.Transfer.Scan.{read_any_frame_opts}
use virt_bbs.Transfer.Total.{Within, read_any_frame_opts-Within, read_data_subpacket-Within}
use virt_bbs.Transfer.Files.Base.{Link}
use virt_bbs.Transfer.Files.Cases.{by_test, by_if}
use virt_bbs.Transfer.Files.Receive.{
  Received, Outcome, acknowledge, append_to, store_run, on_frame, data_loop, until_nul, on_name,
  name_loop, receive_file,
}

abbrev Ends : Outcome → Type 0
Ends o = o.failed ≢ some out_of_fuel

named_error : (e : Error) → e ≢ out_of_fuel → ◌≢◌ {A = Option Error} (some e) (some out_of_fuel)
named_error e h = λ q. h (cc q)

-- A reader ends, and takes bytes off where it returns a value.
abbrev Takes : {A : Type 0} → Bytes → Result (A × Bytes) → Type 0
Takes s (ok r) = length r.1 < length s
Takes s (err e) = e ≢ out_of_fuel

some_byte-Takes :
    {A : Type 0} (b : ℕ) (s : Bytes) (r : Result (A × Bytes))
    → Within (length s) r
    → Takes (b ∷ s) r
some_byte-Takes b s (ok r) h = omega arith
some_byte-Takes b s (err e) h = h

read_data_subpacket-Takes : (s : Bytes) → Takes s (read_data_subpacket true s)
read_data_subpacket-Takes [] = unfold read_data_subpacket subpacket_from in cc
read_data_subpacket-Takes (b ∷ s) =
    some_byte-Takes b s (read_data_subpacket true (b ∷ s))
      (read_data_subpacket-Within true (length s) (b ∷ s) (omega arith))

read_any_frame_opts-Takes : (s : Bytes) → Takes s (read_any_frame_opts true s)
read_any_frame_opts-Takes [] = unfold read_any_frame_opts in cc
read_any_frame_opts-Takes (b ∷ s) =
    some_byte-Takes b s (read_any_frame_opts true (b ∷ s))
      (read_any_frame_opts-Within true (length s) (b ∷ s) (omega arith))

-- The two outcomes of a reader, in a function that ends if it ends on fewer bytes.
by_reader :
    {A : Type 0} (s : Bytes) (r : Result (A × Bytes)) (on_err : Error → Outcome)
    (on_ok : A × Bytes → Outcome)
    → Takes s r
    → ((e : Error) → (on_err e).failed ≡ some e)
    → ((a : A × Bytes) → length a.1 < length s → Ends (on_ok a))
    → Ends (elim r [ err e ↦ on_err e | ok a ↦ on_ok a ])
by_reader s (ok a) on_err on_ok t h k = k a t
by_reader s (err e) on_err on_ok t h k =
    subst (λ o. o ≢ some out_of_fuel) (sym (h e)) (named_error e t)

acknowledge_input : (m : ℕ) (f : Received) (l : Link) → (acknowledge m f l).input ≡ l.input
acknowledge_input m f l = ground arith

-- A run of subpackets ends, if what follows it ends with fewer than `n` bytes.
store_run-Ends :
    (next : Received → Link → Outcome) (n : ℕ)
    → ((f : Received) (l : Link) → length l.input < n → Ends (next f l))
    → (fuel : ℕ) (f : Received) (pkt : Bytes) (marker : ℕ) (l : Link) → length l.input < fuel
    → length l.input < n
    → Ends (store_run next fuel f pkt marker l)
unfolding store_run
store_run-Ends next n h zero f pkt marker l k p = elim k [ ]
store_run-Ends next n h (suc fuel) f pkt marker l k p =
    let f' = append_to f pkt in
    let l' = acknowledge marker f' l in
    let size = ap (λ s. length s) (acknowledge_input marker f' l) in
    by_test Ends (marker == zcrcw) _ _ (λ _. h f' l' (omega (arith, size)))
      λ _.
        by_reader l'.input (read_data_subpacket true l'.input) _ _
          (read_data_subpacket-Takes l'.input) (λ e. refl)
          λ r fewer.
            store_run-Ends next n h fuel f' r.0.0 r.0.1 (record l' { input = r.1 })
              (omega (arith, size, fewer)) (omega (arith, size, fewer))

on_frame-Ends :
    (next : Received → Link → Outcome) (n : ℕ)
    → ((f : Received) (l : Link) → length l.input < n → Ends (next f l))
    → (f : Received) (frame : Frame) (l : Link) → length l.input < n
    → Ends (on_frame next f frame l)
unfolding on_frame
on_frame-Ends next n h f frame l p =
    by_if Ends (frame.frame_type == zdata) _ _
      (store_run-Ends next n h (suc (length l.input)) f frame.payload frame.marker l (omega arith)
        p)
      (by_if Ends (frame.frame_type == zeof) _ _ (cc) (
        by_if Ends (frame.frame_type == zfin) _ _ (cc)
          (by_if Ends (frame.frame_type == zcan) _ _ (cc) (h f l p))))

data_loop-Ends :
    (fuel : ℕ) (f : Received) (l : Link) → length l.input < fuel → Ends (data_loop fuel f l)
unfolding data_loop
data_loop-Ends zero f l h = elim h [ ]
data_loop-Ends (suc fuel) f l h =
    by_reader l.input (read_any_frame_opts true l.input) _ _ (read_any_frame_opts-Takes l.input)
      (λ e. refl)
      λ r fewer.
        on_frame-Ends (data_loop fuel) fuel (data_loop-Ends fuel) f r.0 (record l { input = r.1 })
          (omega (arith, fewer))

on_name-Ends : (disk : Bytes → Option Bytes) (name : Bytes) (l : Link) → Ends (on_name disk name l)
unfolding on_name
on_name-Ends disk [] l = cc
on_name-Ends disk (c ∷ name) l = data_loop-Ends _ _ _ (omega arith)

name_loop-Ends :
    (fuel : ℕ) (disk : Bytes → Option Bytes) (l : Link)
    → length l.input < fuel
    → Ends (name_loop fuel disk l)
unfolding name_loop
name_loop-Ends zero disk l h = elim h [ ]
name_loop-Ends (suc fuel) disk l h =
    by_reader l.input (read_any_frame_opts true l.input) _ _ (read_any_frame_opts-Takes l.input)
      (λ e. refl)
      λ r fewer.
        by_if Ends (r.0.frame_type == zfile) _ _ (on_name-Ends disk (until_nul r.0.payload) _) (
          by_if Ends (r.0.frame_type == zfin) _ _ (cc)
            (name_loop-Ends fuel disk (record l { input = r.1 }) (omega (arith, fewer))))

-- `ReceiveFile` ends on every stream, and with an error of the code if with any.
pub receive_file-Ends :
    (disk : Bytes → Option Bytes) (l : Link) → (receive_file disk l).failed ≢ some out_of_fuel
unfolding receive_file
receive_file-Ends disk l = name_loop-Ends (suc (length l.input)) disk _ (omega arith)
