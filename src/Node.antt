-- ===== src/Node.antt =====
-- internal/node/registry.go: the handles of the live sessions. The handles stand in a list, and an
-- index is the pointer to one: a session keeps its handle after it has left the registry.
pub mod Safety
pub mod Chat
mod Samples
use virt_bbs.Prelude.{
  ℕ, zero, suc, ◌+◌, Bool, true, false, Option, none, some, List, [], ◌∷◌, ◌++◌, map, Bytes, codes,
  length, get_elem?, ltb, if◌then◌else◌, ◌≡◌,
}
use virt_bbs.Prelude.Int.{ℤ, eqb_ℤ}

-- `NodeControl`: the texts in the channel `Messages`, whether `done` is closed, whether `closeOnce`
-- has run, and how often `closeFn` was called.
pub record Control : Type 0 where
  pub messages : List Bytes
  pub done : Bool
  pub kicked : Bool
  pub closes : ℕ

abbrev pub capacity : ℕ
capacity = 64

unfoldable pub send_message : Bytes → Control → Control × Bool
send_message text nc =
    if ltb (length nc.messages) capacity
    then (record nc { messages = nc.messages ++ text ∷ [] }, true)
    else (nc, false)

unfoldable pub kick : Control → Control
kick nc = if nc.kicked then nc else record nc { kicked = true; closes = nc.closes + 1 }

pub record State : Type 0 where
  pub controls : List Control
  pub regs : List (ℤ × ℕ)

unfoldable pub lookup : ℤ → List (ℤ × ℕ) → Option ℕ
lookup node_id [] = none
lookup node_id ((key, nc) ∷ regs) = if eqb_ℤ key node_id then some nc else lookup node_id regs

unfoldable pub delete : ℤ → List (ℤ × ℕ) → List (ℤ × ℕ)
delete node_id [] = []
delete node_id ((key, nc) ∷ regs) =
    let rest = delete node_id regs in if eqb_ℤ key node_id then rest else (key, nc) ∷ rest

abbrev pub insert : ℤ → ℕ → List (ℤ × ℕ) → List (ℤ × ℕ)
insert node_id nc regs = (node_id, nc) ∷ delete node_id regs

unfoldable pub update_at : ℕ → (Control → Control) → List Control → List Control
update_at nc f [] = []
update_at zero f (c ∷ controls) = f c ∷ controls
update_at (suc nc) f (c ∷ controls) = c ∷ update_at nc f controls

abbrev pub new_control : Control
new_control = record { messages = []; done = false; kicked = false; closes = 0 }

unfoldable pub register_control : ℤ → State → State × ℕ
register_control node_id s = (
  record {
    controls = s.controls ++ new_control ∷ [];
    regs = insert node_id (length s.controls) s.regs;
  },
  length s.controls,
)

unfoldable pub unregister_control : ℤ → State → State
unregister_control node_id s = record s { regs = delete node_id s.regs }

unfoldable pub active_ids : State → List ℤ
active_ids s = map (λ r. r.0) s.regs

pub data Refusal : Type 0 where
  not_active : ℤ → Refusal
  buffer_full : ℤ → Refusal

-- What `KickNode` does with the handle that it found.
abbrev pub kick_found : ℤ → State → Option ℕ → State × Option Refusal
kick_found node_id s none = (s, some (not_active node_id))
kick_found node_id s (some nc) = (record s { controls = update_at nc kick s.controls }, none)

unfoldable pub kick_node : ℤ → State → State × Option Refusal
kick_node node_id s = kick_found node_id s (lookup node_id s.regs)

abbrev pub broadcast_text : Bytes → Bytes → Bytes
broadcast_text from msg =
    (13 ∷ 10 ∷ 27 ∷ codes "[1;33m*** ")
    ++ (from
        ++ (codes " broadcasts: "
            ++ (msg ++ (codes " ***" ++ (27 ∷ (codes "[0m" ++ 13 ∷ 10 ∷ []))))))

unfoldable pub send_all : Bytes → List (ℤ × ℕ) → List Control → List Control
send_all text [] controls = controls
send_all text ((key, nc) ∷ regs) controls =
    send_all text regs (update_at nc (λ c. (send_message text c).0) controls)

unfoldable pub broadcast_all : Bytes → Bytes → State → State
broadcast_all from msg s = record s {
  controls = send_all (broadcast_text from msg) s.regs s.controls;
}

abbrev pub chat_text : Bytes → Bytes → Bytes
chat_text from_name msg =
    (13 ∷ 10 ∷ 27 ∷ codes "[1;36m*** Chat from ")
    ++ (from_name
        ++ (codes ": " ++ (msg ++ (codes " ***" ++ (27 ∷ (codes "[0m" ++ 13 ∷ 10 ∷ []))))))

-- The result of `SendMessage` on a handle.
abbrev pub sent_to : Bytes → Option Control → Bool
sent_to text none = false
sent_to text (some nc) = (send_message text nc).1

abbrev pub send_at : ℕ → Bytes → State → State
send_at nc text s = record s { controls = update_at nc (λ c. (send_message text c).0) s.controls }

-- What `ChatNode` does with the handle that it found.
abbrev pub chat_found : ℤ → Bytes → State → Option ℕ → State × Option Refusal
chat_found to_node_id text s none = (s, some (not_active to_node_id))
chat_found to_node_id text s (some nc) = (
  send_at nc text s,
  if sent_to text (get_elem? s.controls nc) then none else some (buffer_full to_node_id),
)

unfoldable pub chat_node : ℤ → Bytes → Bytes → State → State × Option Refusal
chat_node to_node_id from_name msg s =
    chat_found to_node_id (chat_text from_name msg) s (lookup to_node_id s.regs)

abbrev pub without_first : List Bytes → List Bytes
without_first [] = []
without_first (text ∷ messages) = messages

-- A session takes a text out of its channel.
unfoldable pub receive : ℕ → State → State
receive nc s = record s {
  controls = update_at nc (λ c. record c { messages = without_first c.messages }) s.controls;
}

-- `close(nc.done)` of the handle that `nc` points to: `none` is the panic where `done` is closed.
abbrev pub close_done : ℕ → State → Option Control → Option State
close_done nc s none = some s
close_done nc s (some c) =
    if c.done
    then none
    else some (record s { controls = update_at nc (λ d. record d { done = true }) s.controls })

-- `Finish`; there is no handle behind the end of the list.
unfoldable pub finish : ℕ → State → Option State
finish nc s = close_done nc s (get_elem? s.controls nc)

-- What sessions and callers of the registry do, in any order; a panic ends the program.
pub data Step (s t : State) : Type 0 where
  registers : (node_id : ℤ) → t ≡ (register_control node_id s).0 → Step s t
  unregisters : (node_id : ℤ) → t ≡ unregister_control node_id s → Step s t
  kicks : (node_id : ℤ) → t ≡ (kick_node node_id s).0 → Step s t
  broadcasts : (from msg : Bytes) → t ≡ broadcast_all from msg s → Step s t
  chats : (node_id : ℤ) (from msg : Bytes) → t ≡ (chat_node node_id from msg s).0 → Step s t
  receives : (nc : ℕ) → t ≡ receive nc s → Step s t
  finishes : (nc : ℕ) → finish nc s ≡ some t → Step s t

pub data Reach (s : State) : State → Type 0 where
  here : Reach s s
  next : {t u : State} → Reach s t → Step t u → Reach s u
