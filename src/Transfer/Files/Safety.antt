-- ===== src/Transfer/Files/Safety.antt =====
-- What `ReceiveFile` may do to the disk, whatever the peer sends.
use virt_bbs.Prelude.{
  ℕ, zero, suc, ◌≡◌, refl, sym, ap, ◌∙◌, ◌⊎◌, true, Option, none, some, [], ◌∷◌, ◌++◌, append_assoc,
  append-nil, Bytes, length, length-append, ◌==◌, All, arith,
}
use virt_bbs.Transfer.Frames.{zdata, zeof, zfin, zcan, zfile, zcrcw}
use virt_bbs.Transfer.Reader.{Frame, read_data_subpacket}
use virt_bbs.Transfer.Scan.{read_any_frame_opts}
use virt_bbs.Transfer.Files.Base.{Link, base}
use virt_bbs.Transfer.Files.Names.{IsPlain, base-IsPlain}
use virt_bbs.Transfer.Files.Cases.{by_result, by_test, by_if}
use virt_bbs.Transfer.Files.Delivery.{held_of, opened_lem}
use virt_bbs.Transfer.Files.Receive.{
  Received, Outcome, acknowledge, append_to, opened, store_run, on_frame, data_loop, until_nul,
  on_name, name_loop, receive_file,
}

module _ (P : Received → Type 0) where
  abbrev pub InFile : Option Received → Type 0
  InFile none = Unit
  InFile (some f) = P f

  abbrev Holds : Outcome → Type 0
  Holds o = InFile o.file

module _ (P : Received → Type 0)
    (keep : (f : Received) (pkt : Bytes) → P f → P (append_to f pkt)) where
  store_run-Holds :
      (next : Received → Link → Outcome)
      → ((f : Received) (l : Link) → P f → Holds P (next f l))
      → (fuel : ℕ) (f : Received) (pkt : Bytes) (marker : ℕ) (l : Link) → P f
      → Holds P (store_run next fuel f pkt marker l)
  unfolding store_run
  store_run-Holds next h zero f pkt marker l p = p
  store_run-Holds next h (suc fuel) f pkt marker l p =
      let p' = keep f pkt p in
      by_test (Holds P) (marker == zcrcw) _ _ (λ _. h (append_to f pkt) _ p')
        λ _.
          by_result (Holds P)
            (read_data_subpacket true (acknowledge marker (append_to f pkt) l).input) _ _
            (λ _ _. p') λ r _. store_run-Holds next h fuel (append_to f pkt) r.0.0 r.0.1 _ p'

  on_frame-Holds :
      (next : Received → Link → Outcome)
      → ((f : Received) (l : Link) → P f → Holds P (next f l))
      → (f : Received) (frame : Frame) (l : Link) → P f
      → Holds P (on_frame next f frame l)
  unfolding on_frame
  on_frame-Holds next h f frame l p =
      by_if (Holds P) (frame.frame_type == zdata) _ _
        (store_run-Holds next h (suc (length l.input)) f frame.payload frame.marker l p)
        (by_if (Holds P) (frame.frame_type == zeof) _ _ p (
          by_if (Holds P) (frame.frame_type == zfin) _ _ p
            (by_if (Holds P) (frame.frame_type == zcan) _ _ p (h f l p))))

  data_loop-Holds : (fuel : ℕ) (f : Received) (l : Link) → P f → Holds P (data_loop fuel f l)
  unfolding data_loop
  data_loop-Holds zero f l p = p
  data_loop-Holds (suc fuel) f l p =
      by_result (Holds P) (read_any_frame_opts true l.input) _ _ (λ _ _. p)
        λ r _. on_frame-Holds (data_loop fuel) (data_loop-Holds fuel) f r.0 _ p

-- The file has a name of the receiver's directory, the bytes that `disk` held of it stand in front,
-- and the code's count of its bytes is right.
pub record IsSafe (disk : Bytes → Option Bytes) (f : Received) : Type 0 where
  pub inside : (f.name ≡ b'/' ∷ []) ⊎ All IsPlain f.name
  pub kept : (new : Bytes) × (f.contents ≡ held_of (disk f.name) ++ new)
  pub counted : f.received ≡ length f.contents

module _ (disk : Bytes → Option Bytes) where
  append_to-IsSafe : (f : Received) (pkt : Bytes) → IsSafe disk f → IsSafe disk (append_to f pkt)
  append_to-IsSafe f pkt s = record {
    inside = s.inside;
    kept = (
      s.kept.0 ++ pkt,
      ap (λ t. t ++ pkt) s.kept.1 ∙ append_assoc (held_of (disk f.name)) s.kept.0 pkt,
    );
    counted = omega (arith, s.counted, length-append f.contents pkt);
  }

  opened-IsSafe : (path : Bytes) → IsSafe disk (opened (base path) (disk (base path)))
  opened-IsSafe path = rw (opened_lem (base path) (disk (base path))) (record {
    inside = base-IsPlain path;
    kept = ([], sym (append-nil (held_of (disk (base path)))));
    counted = refl;
  })

  on_name-IsSafe : (name : Bytes) (l : Link) → Holds (IsSafe disk) (on_name disk name l)
  unfolding on_name
  on_name-IsSafe [] l = tt
  on_name-IsSafe (c ∷ name) l =
      data_loop-Holds (IsSafe disk) append_to-IsSafe _ _ _ (opened-IsSafe (c ∷ name))

  name_loop-IsSafe : (fuel : ℕ) (l : Link) → Holds (IsSafe disk) (name_loop fuel disk l)
  unfolding name_loop
  name_loop-IsSafe zero l = tt
  name_loop-IsSafe (suc fuel) l =
      by_result (Holds (IsSafe disk)) (read_any_frame_opts true l.input) _ _ (λ _ _. tt)
        λ r _.
          by_if (Holds (IsSafe disk)) (r.0.frame_type == zfile) _ _
            (on_name-IsSafe (until_nul r.0.payload) _)
            (by_if (Holds (IsSafe disk)) (r.0.frame_type == zfin) _ _ tt (name_loop-IsSafe fuel _))

-- Whatever the peer sends, the file that `ReceiveFile` writes has a name without a slash, or that
-- of the directory itself; what the disk held of the file stays in front of what is added; and the
-- count that the code keeps is the size of the file.
pub receive_file-IsSafe :
    (disk : Bytes → Option Bytes) (l : Link) → InFile (IsSafe disk) (receive_file disk l).file
unfolding receive_file
receive_file-IsSafe disk l = name_loop-IsSafe disk _ _
