-- ===== src/Node/Samples.antt =====
-- The registry at concrete inputs.
use virt_bbs.Prelude.{◌≡◌, refl, none, some, [], ◌∷◌, codes, get_elem?, arith}
use virt_bbs.Prelude.Int.{pos}
use virt_bbs.Node.{
  State, here, next, registers, kicks, new_control, register_control, kick_node, chat_node,
  chat_text, lookup,
}
use virt_bbs.Node.Safety.{IsSafe, Reach-IsSafe}
use virt_bbs.Node.Chat.{chat_node-room}

abbrev empty : State
empty = record { controls = []; regs = [] }

abbrev one_node : State
one_node = (register_control (pos 1) empty).0

Reach-IsSafe_example : IsSafe (kick_node (pos 1) one_node).0
Reach-IsSafe_example =
    Reach-IsSafe (kick_node (pos 1) one_node).0
      (next (next here (registers (pos 1) refl)) (kicks (pos 1) refl))

abbrev two_nodes : State
two_nodes = record {
  controls = new_control ∷ record new_control { messages = codes "x" ∷ [] } ∷ [];
  regs = (pos 4, 1) ∷ (pos 3, 0) ∷ [];
}

chat_node-room_example :
    ((chat_node (pos 4) (codes "Ann") (codes "Hi") two_nodes).1 ≡ none)
    × (get_elem? (chat_node (pos 4) (codes "Ann") (codes "Hi") two_nodes).0.controls 1
        ≡ some (record new_control {
          messages = codes "x" ∷ chat_text (codes "Ann") (codes "Hi") ∷ [];
        }))
    × (get_elem? (chat_node (pos 4) (codes "Ann") (codes "Hi") two_nodes).0.controls 0
        ≡ some new_control)
    × ((chat_node (pos 4) (codes "Ann") (codes "Hi") two_nodes).0.regs ≡ two_nodes.regs)
chat_node-room_example =
    chat_node-room (pos 4) (codes "Ann") (codes "Hi") two_nodes 1 0
      (record new_control { messages = codes "x" ∷ [] }) (unfold lookup in refl) refl (omega arith)
      (omega arith)
