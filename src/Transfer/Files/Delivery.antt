-- ===== src/Transfer/Files/Delivery.antt =====
-- `ReceiveFile` that is given what `SendFile` writes.
use virt_bbs.Prelude.{
  ℕ, suc, ◌+◌, ◌-◌, ◌%◌, ◌<◌, ◌≡◌, ◌≢◌, refl, sym, ap, ◌∙◌, inl, inr, true, false, Option, none,
  some, [], ◌∷◌, ◌++◌, append_assoc, Bytes, length, take, drop, length-append, All-take,
  length-drop, ◌==◌, All, All-append, IsByte, arith, codes,
}
use virt_bbs.Prelude.Int.{ℤ, pos}
use virt_bbs.Prelude.Decimal.{show_nat, show_int, show_int-IsDecimal, IsDecimal}
use virt_bbs.Transfer.Frames.{
  hex_header, zrinit, zack, zfile, zfin, zrpos, zdata, zeof, zcrcw, data_subpacket, le32,
}
use virt_bbs.Transfer.Reader.{ok, is_marker}
use virt_bbs.Transfer.Scan.{read_any_frame_opts}
use virt_bbs.Transfer.Headers.{
  eol, StartsPlain, read_any_frame_opts-hex_header, read_any_frame_opts-data_subpacket,
}
use virt_bbs.Transfer.Files.Base.{Link, transmit, base}
use virt_bbs.Transfer.Files.Names.{base-base, base_not_nil}
use virt_bbs.Transfer.Files.Send.{file_data}
use virt_bbs.Transfer.Files.Receive.{
  Received, opened, zrinit_flags, receive_file, name_loop, on_name, on_frame, store_run, ended,
  data_loop, until_nul,
}
use virt_bbs.Transfer.Files.Chunks.{
  chunk_stream, store_run-chunk_stream, chunk_stream-cons, marker_of, marker_of-is_marker,
  chunk_stream_longer, append_all,
}
use virt_bbs.Transfer.Files.Session.{replies, transmission}

-- What the receiver has of the file.
abbrev pub held_of : Option Bytes → Bytes
held_of none = []
held_of (some held) = held

pub opened_lem :
    (name : Bytes) (file : Option Bytes)
    → opened name file
      ≡ record { name = name; contents = held_of file; received = length (held_of file) }
opened_lem name none = refl
opened_lem name (some held) = refl

-- A byte of a file's name.
abbrev pub IsNameByte : ℕ → Type 0
IsNameByte c = (0 < c) × (c < 256)

pub until_nul-file_data :
    (name : Bytes) (n : ℕ) (mtime : ℤ)
    → All IsNameByte name
    → until_nul (file_data name n mtime) ≡ name
unfolding until_nul file_data
until_nul-file_data [] n mtime h = refl
until_nul-file_data (c ∷ name) n mtime h =
    let other : (c == 0) ≡ false = ground (arith, h.0) in
    rw other (ap (λ s. c ∷ s) (until_nul-file_data name n mtime h.1))

IsNameByte-IsByte : (name : Bytes) → All IsNameByte name → All IsByte name
IsNameByte-IsByte [] h = tt
IsNameByte-IsByte (c ∷ name) h = (h.0.1, IsNameByte-IsByte name h.1)

IsDecimal-IsByte : (digits : Bytes) → All IsDecimal digits → All IsByte digits
IsDecimal-IsByte [] h = tt
IsDecimal-IsByte (c ∷ digits) h = (omega (arith, h.0.1), IsDecimal-IsByte digits h.1)

show_nat_bytes : (n : ℕ) → All IsByte (show_nat n)
show_nat_bytes n = IsDecimal-IsByte (show_nat n) (unfold show_int in show_int-IsDecimal (pos n))

pub file_data-All :
    (name : Bytes) (n : ℕ) (mtime : ℤ) → All IsNameByte name → All IsByte (file_data name n mtime)
unfolding file_data
file_data-All name n mtime h = All-append IsByte name _ (IsNameByte-IsByte name h) (
  omega arith,
  All-append IsByte (show_nat n) _ (show_nat_bytes n) (
    omega arith,
    All-append IsByte (show_int mtime) (codes " 0 0")
        (IsDecimal-IsByte (show_int mtime) (show_int-IsDecimal mtime)) (omega arith),
  ),
)

pub file_data_plain :
    (name : Bytes) (n : ℕ) (mtime : ℤ) → StartsPlain name → StartsPlain (file_data name n mtime)
unfolding file_data
file_data_plain [] n mtime h = omega arith
file_data_plain (c ∷ name) n mtime h = h

module _ (f : Received) (l : Link) (fuel : ℕ) where
  data_loop_data :
      (pkt : Bytes) (m : ℕ) (after : Bytes)
      → read_any_frame_opts true l.input
        ≡ ok (record { frame_type = zdata; payload = pkt; marker = m }, after)
      → data_loop (suc fuel) f l
        ≡ store_run (data_loop fuel) (suc (length after)) f pkt m (record l { input = after })
  unfolding data_loop on_frame
  data_loop_data pkt m after e = rw (e, data_loop) refl

  data_loop_end :
      (position : Bytes) (after : Bytes)
      → read_any_frame_opts true l.input
        ≡ ok (record { frame_type = zeof; payload = position; marker = 0 }, after)
      → data_loop (suc fuel) f l
        ≡ ended f (record { input = after; sent = l.sent ++ hex_header zrinit zrinit_flags })
  unfolding data_loop on_frame
  data_loop_end position after e = rw (e, data_loop) refl

pub name_loop_file :
    (fuel : ℕ) (disk : Bytes → Option Bytes) (l : Link) (text : Bytes) (m : ℕ) (after : Bytes)
    → read_any_frame_opts true l.input
      ≡ ok (record { frame_type = zfile; payload = text; marker = m }, after)
    → name_loop (suc fuel) disk l ≡ on_name disk (until_nul text) (record l { input = after })
unfolding name_loop
name_loop_file fuel disk l text m after e = rw (e, name_loop) refl

pub on_name_lem :
    (disk : Bytes → Option Bytes) (name : Bytes) (l : Link)
    → name ≢ []
    → base name ≡ name
    → on_name disk name l
      ≡ data_loop
          (suc (length l.input))
          (opened name (disk name))
          (transmit (hex_header zrpos ((opened name (disk name)).received % 4294967296)) l)
unfolding on_name
on_name_lem disk [] l h e = absurd (h refl)
on_name_lem disk (c ∷ name) l h e = rw e refl

header_not_empty : (t position : ℕ) (s : Bytes) → 0 < length (hex_header t position ++ s)
unfolding hex_header
header_not_empty t position s = omega arith

suc_of : (n : ℕ) → 0 < n → n ≡ suc (n - 1)
suc_of n h = omega arith

take_plain : (rest : Bytes) → StartsPlain rest → StartsPlain (take 1024 rest)
take_plain [] h = tt
take_plain (b ∷ rest) h = h

module _ (held rest : Bytes) where
  abbrev ending : Bytes
  ending = hex_header zeof (length (held ++ rest) % 4294967296) ++ hex_header zfin 0

  abbrev after_first : Bytes
  after_first = chunk_stream (length rest) (drop 1024 rest) ++ ending

  abbrev data_part : Bytes
  data_part = hex_header zdata (length held) ++ (chunk_stream (suc (length rest)) rest ++ ending)

  module _ (plain : StartsPlain rest) (bytes : All IsByte rest) (some_rest : 0 < length rest) where
    read_data_part :
        read_any_frame_opts true data_part
        ≡ ok (
          record { frame_type = zdata; payload = take 1024 rest; marker = marker_of rest },
          after_first,
        )
    read_data_part =
        let first = data_subpacket (take 1024 rest) (marker_of rest) true in
        let more = chunk_stream (length rest) (drop 1024 rest) in
        ap (λ s. read_any_frame_opts true (hex_header zdata (length held) ++ (s ++ ending)))
          (chunk_stream-cons (length rest) rest some_rest)
        ∙ ap (λ s. read_any_frame_opts true (hex_header zdata (length held) ++ s))
            (append_assoc first more ending)
        ∙ read_any_frame_opts-data_subpacket true zdata (length held) (marker_of rest)
            (take 1024 rest) after_first (inr refl) (All-take IsByte 1024 rest bytes)
            (take_plain rest plain) (marker_of-is_marker rest)

    read_ending :
        read_any_frame_opts true ending
        ≡ ok (
          record {
            frame_type = zeof;
            payload = le32 (length (held ++ rest) % 4294967296);
            marker = 0;
          },
          eol ++ hex_header zfin 0,
        )
    read_ending =
        read_any_frame_opts-hex_header true zeof (length (held ++ rest) % 4294967296)
          (hex_header zfin 0) (omega arith) (omega arith) (omega arith)

    data_loop-data_part :
        (name sent : Bytes)
        → data_loop
            (suc (length data_part))
            (record { name = name; contents = held; received = length held })
            (record { input = data_part; sent = sent })
          ≡ ended
              (record { name = name; contents = held ++ rest; received = length (held ++ rest) })
              (record {
                input = eol ++ hex_header zfin 0;
                sent =
                    (sent ++ hex_header zack (length (held ++ rest) % 4294967296))
                    ++ hex_header zrinit zrinit_flags;
              })
    data_loop-data_part name sent =
        let f : Received = record { name = name; contents = held; received = length held } in
        let l : Link = record { input = data_part; sent = sent } in
        let acked : Link = record {
          input = ending;
          sent = sent ++ hex_header zack ((length held + length rest) % 4294967296);
        } in
        data_loop_data f l (length data_part) (take 1024 rest) (marker_of rest) after_first
          read_data_part
        ∙ store_run-chunk_stream (data_loop (length data_part)) (suc (length after_first))
            (length rest) rest f ending sent
            (omega (
              arith,
              length-drop 1024 rest,
              length-append (chunk_stream (length rest) (drop 1024 rest)) ending,
              chunk_stream_longer (length rest) (drop 1024 rest)
                  (omega (arith, length-drop 1024 rest)),
            ))
            (omega arith) some_rest bytes
        ∙ ap (λ n. data_loop n (append_all f rest) acked)
            (suc_of (length data_part) (
              header_not_empty zdata (length held)
                (chunk_stream (suc (length rest)) rest ++ ending)))
        ∙ data_loop_end (append_all f rest) acked (length data_part - 1)
            (le32 (length (held ++ rest) % 4294967296)) (eol ++ hex_header zfin 0) read_ending
        ∙ ap
            (λ n.
              ended (record { name = name; contents = held ++ rest; received = n })
                (record {
                  input = eol ++ hex_header zfin 0;
                  sent =
                      (sent ++ hex_header zack (n % 4294967296)) ++ hex_header zrinit zrinit_flags;
                }))
            (sym (length-append held rest))

-- `ReceiveFile`, given what `SendFile` writes, stores the file under its base name, goes on with
-- what it holds of it, and writes the replies that `SendFile` was given. The data sent must not
-- start with a line feed.
pub receive_file-transmission :
    (disk : Bytes → Option Bytes) (path held rest : Bytes) (mtime : ℤ)
    → held_of (disk (base path)) ≡ held
    → length (held ++ rest) < 4294967296
    → 0 < length rest
    → All IsByte rest
    → StartsPlain rest
    → All IsNameByte (base path)
    → StartsPlain (base path)
    → receive_file disk (record {
      input =
          transmission
            (file_data (base path) (length (held ++ rest)) mtime)
            (length held)
            rest
            (length (held ++ rest));
      sent = [];
    })
      ≡ ended
          (record { name = base path; contents = held ++ rest; received = length (held ++ rest) })
          (record {
            input = eol ++ hex_header zfin 0;
            sent = replies (length held) (length (held ++ rest));
          })
unfolding receive_file
receive_file-transmission disk path held rest mtime holds fits some_rest bytes plain named start =
    let name = base path in
    let text = file_data name (length (held ++ rest)) mtime in
    let s2 = data_part held rest in
    let s1 = hex_header zfile 0 ++ (data_subpacket text zcrcw true ++ s2) in
    let greeting = hex_header zrinit zrinit_flags in
    let l1 : Link = record { input = s1; sent = greeting } in
    let l2 : Link = record { input = s2; sent = greeting } in
    let f : Received = record { name = name; contents = held; received = length held } in
    let found : opened name (disk name) ≡ f =
      opened_lem name (disk name)
      ∙ ap (λ h. record { name = name; contents = h; received = length h }) holds in
    let whole : length held % 4294967296 ≡ length held = omega (arith, length-append held rest) in
    name_loop_file (length s1) disk l1 text zcrcw s2 (
      read_any_frame_opts-data_subpacket true zfile 0 zcrcw text s2 (inl refl)
        (file_data-All name (length (held ++ rest)) mtime named)
        (file_data_plain name (length (held ++ rest)) mtime start) (unfold is_marker in refl))
    ∙ ap (λ n. on_name disk n l2) (until_nul-file_data name (length (held ++ rest)) mtime named)
    ∙ on_name_lem disk name l2 (base_not_nil path) (base-base path)
    ∙ ap
        (λ f'.
          data_loop (suc (length s2)) f'
            (transmit (hex_header zrpos (f'.received % 4294967296)) l2))
        found
    ∙ ap (λ n. data_loop (suc (length s2)) f (transmit (hex_header zrpos n) l2)) whole
    ∙ data_loop-data_part held rest plain bytes some_rest name
        (greeting ++ hex_header zrpos (length held))
    ∙ ap
        (λ sent.
          ended (record { name = name; contents = held ++ rest; received = length (held ++ rest) })
            (record { input = eol ++ hex_header zfin 0; sent = sent }))
        (simp append_assoc)
