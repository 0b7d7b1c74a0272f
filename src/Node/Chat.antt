-- ===== src/Node/Chat.antt =====
-- Where the text of a chat goes.
use virt_bbs.Prelude.{
  ℕ, zero, suc, ◌<◌, ◌≡◌, ◌≢◌, refl, ap, ◌∙◌, Bool, true, none, some, List, [], ◌∷◌, ◌++◌, Bytes,
  length, get_elem?, ltb, if◌then◌else◌, arith,
}
use virt_bbs.Prelude.Int.{ℤ}
use virt_bbs.Node.{
  Control, State, send_message, lookup, update_at, buffer_full, chat_text, sent_to, chat_found,
  chat_node,
}

get_elem?-update_at :
    (f : Control → Control) (nc : ℕ) (controls : List Control) (c : Control)
    → get_elem? controls nc ≡ some c
    → get_elem? (update_at nc f controls) nc ≡ some (f c)
unfolding update_at
get_elem?-update_at f nc [] c h = cc
get_elem?-update_at f zero (d ∷ controls) c h = cc (h)
get_elem?-update_at f (suc nc) (d ∷ controls) c h = get_elem?-update_at f nc controls c h

get_elem?-update_at_other :
    (f : Control → Control) (nc j : ℕ) (controls : List Control)
    → j ≢ nc
    → get_elem? (update_at nc f controls) j ≡ get_elem? controls j
unfolding update_at
get_elem?-update_at_other f nc j [] h = refl
get_elem?-update_at_other f zero zero (c ∷ controls) h = absurd (h refl)
get_elem?-update_at_other f zero (suc j) (c ∷ controls) h = refl
get_elem?-update_at_other f (suc nc) zero (c ∷ controls) h = refl
get_elem?-update_at_other f (suc nc) (suc j) (c ∷ controls) h =
    get_elem?-update_at_other f nc j controls (λ e. h (ap suc e))

send_message-room :
    (text : Bytes) (c : Control)
    → length c.messages < 64
    → send_message text c ≡ (record c { messages = c.messages ++ text ∷ [] }, true)
unfolding send_message
send_message-room text c h =
    let room : ltb (length c.messages) 64 ≡ true = ground (arith, h) in rw room

module _ (node_id : ℤ) (from msg : Bytes) (s : State) (nc : ℕ) (c : Control)
    (found : lookup node_id s.regs ≡ some nc) (at_nc : get_elem? s.controls nc ≡ some c) where
  abbrev text : Bytes
  text = chat_text from msg

  chat_node-found : chat_node node_id from msg s ≡ chat_found node_id text s (some nc)
  unfolding chat_node
  chat_node-found = ap (chat_found node_id text s) found

  -- The error, by the result of `SendMessage`.
  chat_error :
      (r : Control × Bool)
      → send_message text c ≡ r
      → (chat_node node_id from msg s).1 ≡ (if r.1 then none else some (buffer_full node_id))
  chat_error r e =
      ap (λ q. q.1) chat_node-found
      ∙ ap (λ o. if sent_to text o then none else some (buffer_full node_id)) at_nc
      ∙ ap (λ q. if q.1 then none else some (buffer_full node_id)) e

  chat_target :
      (r : Control × Bool)
      → send_message text c ≡ r
      → get_elem? (chat_node node_id from msg s).0.controls nc ≡ some r.0
  chat_target r e =
      ap (λ q. get_elem? q.0.controls nc) chat_node-found
      ∙ get_elem?-update_at (λ d. (send_message text d).0) nc s.controls c at_nc
      ∙ ap (λ q. some q.0) e

  chat_others :
      (j : ℕ)
      → j ≢ nc
      → get_elem? (chat_node node_id from msg s).0.controls j ≡ get_elem? s.controls j
  chat_others j h =
      ap (λ q. get_elem? q.0.controls j) chat_node-found
      ∙ get_elem?-update_at_other (λ d. (send_message text d).0) nc j s.controls h

-- A chat to a registered node with room in its channel puts its text behind the others of that
-- channel, and changes neither another handle nor a registration.
pub chat_node-room :
    (node_id : ℤ) (from msg : Bytes) (s : State) (nc j : ℕ) (c : Control)
    → lookup node_id s.regs ≡ some nc
    → get_elem? s.controls nc ≡ some c
    → length c.messages < 64
    → j ≢ nc
    → ((chat_node node_id from msg s).1 ≡ none)
      × (get_elem? (chat_node node_id from msg s).0.controls nc
          ≡ some (record c { messages = c.messages ++ chat_text from msg ∷ [] }))
      × (get_elem? (chat_node node_id from msg s).0.controls j ≡ get_elem? s.controls j)
      × ((chat_node node_id from msg s).0.regs ≡ s.regs)
chat_node-room node_id from msg s nc j c found at_nc room other =
    let sent = send_message-room (chat_text from msg) c room in
    (
      chat_error node_id from msg s nc c found at_nc _ sent,
      chat_target node_id from msg s nc c found at_nc _ sent,
      chat_others node_id from msg s nc c found at_nc j other,
      ap (λ q. q.0.regs) (chat_node-found node_id from msg s nc c found at_nc),
    )
