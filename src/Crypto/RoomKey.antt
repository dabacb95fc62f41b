-- ===== src/Crypto/RoomKey.antt =====
-- The room and the token are told apart by one colon only.
use tunshell_mcp_agents.Prelude.{◌≡◌, ◌++◌, ◌∷◌, append_assoc, refl}
use tunshell_mcp_agents.Safety.Words.{Text}
use tunshell_mcp_agents.Crypto.{Primitives, room_input, room_key}

-- A room whose name holds a colon shares its key with another room: the part of the name after the
-- colon may as well stand at the front of the token.
pub room_key-collides :
    (lib : Primitives) (r x t : Text) → room_key lib (r ++ 58 ∷ x) t ≡ room_key lib r (x ++ 58 ∷ t)
unfolding room_key room_input
room_key-collides lib r x t = rw (append_assoc r (58 ∷ x) (58 ∷ t)) refl
