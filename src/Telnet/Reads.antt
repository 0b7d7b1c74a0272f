-- ===== src/Telnet/Reads.antt =====
-- internal/telnet/server.go: reads in a row, each into a slice of its own length.
use virt_bbs.Prelude.{
  ◌≡◌, refl, sym, ap, ◌∙◌, ℕ, ◌*◌, ◌≤◌, List, [], ◌∷◌, ◌++◌, append_assoc, Bytes, length, take,
  drop, take_long, take-append-drop, leb, Bool-cases, inl, inr, arith,
}
use virt_bbs.Telnet.{Conn, decode, raw_read, read}
use virt_bbs.Telnet.Segments.{decode-nil, decode-append}

abbrev pub stream : List Bytes → Bytes
stream [] = []
stream (segment ∷ pending) = segment ++ stream pending

-- Calls of `Read`, one for each length of a slice: the connection and the segments that wait behind
-- them, and the bytes of the slices, one after another.
abbrev pub reads : List ℕ → Conn → List Bytes → Conn × List Bytes × Bytes
reads [] c pending = (c, pending, [])
reads (len_p ∷ slices) c pending =
    let d = read len_p c pending in
    let (c', left, more) = reads slices d.conn d.pending in (c', left, d.slice ++ more)

-- The bytes that these calls take from the network.
abbrev pub taken : List ℕ → List Bytes → Bytes
taken [] pending = []
taken (len_p ∷ slices) pending =
    let (raw, left) = raw_read (len_p * 2) pending in raw ++ taken slices left

-- No call returns more than its slice holds.
abbrev pub NoOverrun : List ℕ → Conn → List Bytes → Type 0
NoOverrun [] c pending = Unit
NoOverrun (len_p ∷ slices) c pending =
    let d = read len_p c pending in (d.count ≤ len_p) × NoOverrun slices d.conn d.pending

raw_read-stream :
    (room : ℕ) (pending : List Bytes)
    → (raw_read room pending).0 ++ stream (raw_read room pending).1 ≡ stream pending
unfolding raw_read
raw_read-stream room [] = refl
raw_read-stream room (a ∷ pending) = elim (Bool-cases (leb (length a) room)) [
  | inl e ↦ rw e (ap (λ t. t ++ stream pending) (take_long room a (ground (arith, e))))
  | inr e ↦ rw e (
      sym (append_assoc (take room a) (drop room a) (stream pending))
      ∙ ap (λ t. t ++ stream pending) (take-append-drop room a))
]

-- All bytes are taken from the front, or wait.
taken-stream :
    (slices : List ℕ) (c : Conn) (pending : List Bytes)
    → taken slices pending ++ stream (reads slices c pending).1 ≡ stream pending
unfolding read
taken-stream [] c pending = refl
taken-stream (len_p ∷ slices) c pending =
    let (raw, left) = raw_read (len_p * 2) pending in
    let d = read len_p c pending in
    append_assoc raw (taken slices left) (stream (reads slices d.conn d.pending).1)
    ∙ ap (λ t. raw ++ t) (taken-stream slices d.conn left)
    ∙ raw_read-stream (len_p * 2) pending

-- All of the data that the loops find in them, whatever the slices hold.
abbrev found : List ℕ → Conn → List Bytes → Conn × Bytes
found [] c pending = (c, [])
found (len_p ∷ slices) c pending =
    let (raw, left) = raw_read (len_p * 2) pending in
    let (c', out) = decode c raw in let (c'', more) = found slices c' left in (c'', out ++ more)

found-decode :
    (slices : List ℕ) (c : Conn) (pending : List Bytes)
    → found slices c pending ≡ decode c (taken slices pending)
found-decode [] c pending = sym (decode-nil c)
found-decode (len_p ∷ slices) c pending =
    let (raw, left) = raw_read (len_p * 2) pending in
    let (c', out) = decode c raw in
    ap (λ q. (q.0, out ++ q.1)) (found-decode slices c' left)
    ∙ sym (decode-append c raw (taken slices left))

-- The connection, and the data that the slices hold.
abbrev pub delivered : List ℕ → Conn → List Bytes → Conn × Bytes
delivered slices c pending = let (c', left, held) = reads slices c pending in (c', held)

delivered-found :
    (slices : List ℕ) (c : Conn) (pending : List Bytes)
    → NoOverrun slices c pending
    → delivered slices c pending ≡ found slices c pending
unfolding read
delivered-found [] c pending h = refl
delivered-found (len_p ∷ slices) c pending (h, more) =
    let (raw, left) = raw_read (len_p * 2) pending in
    let (c', out) = decode c raw in
    ap (λ q. (q.0, take len_p out ++ q.1)) (delivered-found slices c' left more)
    ∙ ap (λ t. ((found slices c' left).0, t ++ (found slices c' left).1)) (take_long len_p out h)

-- However the network cuts a stream into segments, and whatever the lengths of the slices are: if no
-- call of Read returns more than its slice holds, the calls deliver the data, and end in the state,
-- of one pass over all of the bytes that they take, so that no part of a command that is cut is
-- delivered or lost; and every byte is taken, in order, or waits.
pub reads-decode :
    (slices : List ℕ) (c : Conn) (pending : List Bytes)
    → NoOverrun slices c pending
    → (delivered slices c pending ≡ decode c (taken slices pending))
      × (taken slices pending ++ stream (reads slices c pending).1 ≡ stream pending)
reads-decode slices c pending h = (
  delivered-found slices c pending h ∙ found-decode slices c pending,
  taken-stream slices c pending,
)

nil_left : (s t : Bytes) → s ++ t ≡ [] → s ≡ []
nil_left [] t h = refl
nil_left (b ∷ s) t h = cc

nil_right : (s t : Bytes) → s ++ t ≡ [] → t ≡ []
nil_right [] t h = h
nil_right (b ∷ s) t h = cc

take_nil : (n : ℕ) (s : Bytes) → s ≡ [] → take n s ≡ []
take_nil n [] h = take_long n [] (omega arith)
take_nil n (b ∷ s) h = cc

delivered_none :
    (slices : List ℕ) (c : Conn) (pending : List Bytes)
    → (found slices c pending).1 ≡ []
    → delivered slices c pending ≡ found slices c pending
unfolding read
delivered_none [] c pending h = refl
delivered_none (len_p ∷ slices) c pending h =
    let (raw, left) = raw_read (len_p * 2) pending in
    let (c', out) = decode c raw in
    let rest = found slices c' left in
    let none_here : out ≡ [] = nil_left out rest.1 h in
    let none_later : rest.1 ≡ [] = nil_right out rest.1 h in
    ap (λ q. (q.0, take len_p out ++ q.1)) (delivered_none slices c' left none_later)
    ∙ ap (λ t. (rest.0, t ++ rest.1)) (take_nil len_p out none_here ∙ sym none_here)

-- Where the bytes that are taken hold no data, no condition on the slices is needed.
pub delivered_silent :
    (slices : List ℕ) (c c' : Conn) (pending : List Bytes)
    → decode c (taken slices pending) ≡ (c', [])
    → delivered slices c pending ≡ (c', [])
delivered_silent slices c c' pending h =
    let same = found-decode slices c pending ∙ h in
    delivered_none slices c pending (ap (λ q. q.1) same) ∙ same
