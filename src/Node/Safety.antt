-- ===== src/Node/Safety.antt =====
-- Every reachable state of the registry is in order.
use virt_bbs.Prelude.{
  ℕ, zero, suc, ◌≤◌, ◌<◌, ◌≡◌, refl, sym, subst, ap, ◌∙◌, get_elem?, true, if◌then◌else◌, inl, inr,
  false, Bool-cases, Option, none, some, List, [], ◌∷◌, Bytes, length, length-append, All,
  All-append, arith,
}
use mathlib.Core.Option.{some-injective, none-ne-some}
use virt_bbs.Prelude.Int.{ℤ, eqb_ℤ}
use virt_bbs.Node.{
  Control, State, send_message, kick, lookup, delete, update_at, new_control, register_control,
  unregister_control, kick_found, kick_node, send_all, broadcast_all, broadcast_text, chat_text,
  chat_found, chat_node, without_first, receive, close_done, finish, Step, registers, unregisters,
  kicks, broadcasts, chats, receives, finishes, Reach, here, next,
}

-- A channel is never over its capacity, and the connection is closed at most once.
pub record IsOrderly (c : Control) : Type 0 where
  pub fits : length c.messages ≤ 64
  pub once : c.closes ≤ 1
  pub unkicked : c.kicked ≡ false → c.closes ≡ 0

send_message-IsOrderly :
    (text : Bytes) (c : Control) → IsOrderly c → IsOrderly (send_message text c).0
unfolding send_message
send_message-IsOrderly text c h = ground (arith, length-append c.messages (text ∷ []))

kick-IsOrderly : (c : Control) → IsOrderly c → IsOrderly (kick c)
unfolding kick
kick-IsOrderly c h = ground (arith, h.unkicked)

without_first_shorter : (messages : List Bytes) → length (without_first messages) ≤ length messages
without_first_shorter [] = omega arith
without_first_shorter (text ∷ messages) = omega arith

receive-IsOrderly :
    (c : Control) → IsOrderly c → IsOrderly (record c { messages = without_first c.messages })
receive-IsOrderly c h = record {
  fits = omega (arith, h.fits, without_first_shorter c.messages);
  once = h.once;
  unkicked = h.unkicked;
}

module _ (f : Control → Control) (keep : (c : Control) → IsOrderly c → IsOrderly (f c)) where
  update_at-All :
      (nc : ℕ) (controls : List Control)
      → All IsOrderly controls
      → All IsOrderly (update_at nc f controls)
  unfolding update_at
  update_at-All nc [] h = tt
  update_at-All zero (c ∷ controls) h = (keep c h.0, h.1)
  update_at-All (suc nc) (c ∷ controls) h = (h.0, update_at-All nc controls h.1)

length-update_at :
    (f : Control → Control) (nc : ℕ) (controls : List Control)
    → length (update_at nc f controls) ≡ length controls
unfolding update_at
length-update_at f nc [] = refl
length-update_at f zero (c ∷ controls) = refl
length-update_at f (suc nc) (c ∷ controls) = ap suc (length-update_at f nc controls)

-- A registered pointer points to a handle.
abbrev IsHeld : ℕ → ℤ × ℕ → Type 0
IsHeld n r = r.1 < n

delete-All :
    (n : ℕ) (node_id : ℤ) (regs : List (ℤ × ℕ))
    → All (IsHeld n) regs
    → All (IsHeld n) (delete node_id regs)
unfolding delete
delete-All n node_id [] h = tt
delete-All n node_id ((key, nc) ∷ regs) h = elim (Bool-cases (eqb_ℤ key node_id)) [
  | inl e ↦ rw e (delete-All n node_id regs h.1)
  | inr e ↦ rw e (h.0, delete-All n node_id regs h.1)
]

weaken-All : (n m : ℕ) (regs : List (ℤ × ℕ)) → n ≤ m → All (IsHeld n) regs → All (IsHeld m) regs
weaken-All n m [] k h = tt
weaken-All n m (r ∷ regs) k h = (omega (arith, h.0), weaken-All n m regs k h.1)

pub record IsSafe (s : State) : Type 0 where
  pub orderly : All IsOrderly s.controls
  pub held : All (IsHeld (length s.controls)) s.regs

updated-IsSafe :
    (s : State) (nc : ℕ) (f : Control → Control)
    → ((c : Control) → IsOrderly c → IsOrderly (f c))
    → IsSafe s
    → IsSafe (record s { controls = update_at nc f s.controls })
updated-IsSafe s nc f keep h = record {
  orderly = update_at-All f keep nc s.controls h.orderly;
  held =
      weaken-All (length s.controls) (length (update_at nc f s.controls)) s.regs
        (omega (arith, length-update_at f nc s.controls)) h.held;
}

send_all-All :
    (text : Bytes) (regs : List (ℤ × ℕ)) (controls : List Control)
    → All IsOrderly controls
    → All IsOrderly (send_all text regs controls)
unfolding send_all
send_all-All text [] controls h = h
send_all-All text ((key, nc) ∷ regs) controls h =
    send_all-All text regs _
      (update_at-All (λ c. (send_message text c).0) (send_message-IsOrderly text) nc controls h)

length-send_all :
    (text : Bytes) (regs : List (ℤ × ℕ)) (controls : List Control)
    → length (send_all text regs controls) ≡ length controls
unfolding send_all
length-send_all text [] controls = refl
length-send_all text ((key, nc) ∷ regs) controls =
    length-send_all text regs _ ∙ length-update_at (λ c. (send_message text c).0) nc controls

register_control-IsSafe :
    (node_id : ℤ) (s : State) → IsSafe s → IsSafe (register_control node_id s).0
unfolding register_control
register_control-IsSafe node_id s h = record {
  orderly =
      All-append IsOrderly s.controls (new_control ∷ []) h.orderly
        (record { fits = omega arith; once = omega arith; unkicked = λ e. refl }, tt);
  held = (
    omega (arith, length-append s.controls (new_control ∷ [])),
    delete-All _ node_id s.regs
        (weaken-All _ _ s.regs (omega (arith, length-append s.controls (new_control ∷ []))) h.held),
  );
}

kick_found-IsSafe :
    (node_id : ℤ) (s : State) (nc : Option ℕ) → IsSafe s → IsSafe (kick_found node_id s nc).0
kick_found-IsSafe node_id s none h = h
kick_found-IsSafe node_id s (some nc) h = updated-IsSafe s nc kick kick-IsOrderly h

broadcast_all-IsSafe : (from msg : Bytes) (s : State) → IsSafe s → IsSafe (broadcast_all from msg s)
unfolding broadcast_all
broadcast_all-IsSafe from msg s h = record {
  orderly = send_all-All _ s.regs s.controls h.orderly;
  held =
      weaken-All _ _ s.regs
        (omega (arith, length-send_all (broadcast_text from msg) s.regs s.controls)) h.held;
}

chat_found-IsSafe :
    (node_id : ℤ) (text : Bytes) (s : State) (nc : Option ℕ)
    → IsSafe s
    → IsSafe (chat_found node_id text s nc).0
chat_found-IsSafe node_id text s none h = h
chat_found-IsSafe node_id text s (some nc) h = updated-IsSafe s nc _ (send_message-IsOrderly text) h

close_done-IsSafe :
    (nc : ℕ) (s t : State) (c : Option Control) → IsSafe s → close_done nc s c ≡ some t → IsSafe t
close_done-IsSafe nc s t none h e = subst IsSafe (some-injective s t e) h
close_done-IsSafe nc s t (some c) h e =
    let closed = record s { controls = update_at nc (λ d. record d { done = true }) s.controls } in
    let safe =
      updated-IsSafe s nc _ (λ d k. record { fits = k.fits; once = k.once; unkicked = k.unkicked })
        h in
    elim (Bool-cases c.done) [
      | inl k ↦ absurd (none-ne-some t (sym (ap (λ b. if b then none else some closed) k) ∙ e))
      | inr k ↦
          subst IsSafe
            (some-injective closed t (sym (ap (λ b. if b then none else some closed) k) ∙ e)) safe
    ]

Step-IsSafe : {s t : State} → Step s t → IsSafe s → IsSafe t
Step-IsSafe {s} (registers node_id e) h = rw e (register_control-IsSafe node_id s h)
Step-IsSafe {s} (unregisters node_id e) h = rw e (
    unfold unregister_control in
    record { orderly = h.orderly; held = delete-All (length s.controls) node_id s.regs h.held })
Step-IsSafe {s} (kicks node_id e) h =
    rw e (unfold kick_node in kick_found-IsSafe node_id s (lookup node_id s.regs) h)
Step-IsSafe {s} (broadcasts from msg e) h = rw e (broadcast_all-IsSafe from msg s h)
Step-IsSafe {s} (chats node_id from msg e) h =
    rw e (
      unfold chat_node in
      chat_found-IsSafe node_id (chat_text from msg) s (lookup node_id s.regs) h)
Step-IsSafe {s} (receives nc e) h =
    rw e (unfold receive in updated-IsSafe s nc _ receive-IsOrderly h)
Step-IsSafe {s} {t} (finishes nc e) h =
    close_done-IsSafe nc s t (get_elem? s.controls nc) h (unfold finish in e)

-- Whatever sessions and callers do from the empty registry on, no channel holds more than 64 texts,
-- no connection is closed twice, and every registered pointer points to a handle.
pub Reach-IsSafe : (t : State) → Reach (record { controls = []; regs = [] }) t → IsSafe t
Reach-IsSafe t here = record { orderly = tt; held = tt }
Reach-IsSafe t (next {t = s} r step) = Step-IsSafe step (Reach-IsSafe s r)
