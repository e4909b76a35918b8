-- ===== src/VConsole/Command/Framing.antt =====
-- The layout of a command payload.
use cs2remote_console.Base.{
  length, length-append, length-take, take_all, Bytes, codes, be16_bytes, be32_bytes, ℕ, ◌+◌, ◌≤◌,
  ◌<◌, min, ◌≡◌, [], ◌∷◌, ◌++◌, arith,
}
use cs2remote_console.VConsole.Command.{truncate, max_command_length, create_command_payload}

-- The body of the payload of a command.
abbrev pub command_body : Bytes → Bytes
command_body command = truncate max_command_length command ++ 0 ∷ []

length-truncate : (n : ℕ) (command : Bytes) → length (truncate n command) ≡ min n (length command)
unfolding truncate
length-truncate n command = length-take n command

-- A command that fits is sent whole.
pub truncate_all : (n : ℕ) (command : Bytes) → length command ≤ n → truncate n command ≡ command
unfolding truncate
truncate_all n command h = take_all n command h

pub length-command_body :
    (command : Bytes) → length (command_body command) ≡ min 65522 (length command) + 1
length-command_body command = omega (
  arith,
  length-append (truncate max_command_length command) (0 ∷ []),
  length-truncate max_command_length command,
)

-- The payload is the type "CMND", the version, the size of the whole payload in network order, a
-- handle of 0, and the command's first 65522 bytes with a terminating NUL.
pub create_command_payload_layout :
    (command : Bytes)
    → create_command_payload command
      ≡ codes "CMND"
        ++ (be32_bytes 0xD40000
            ++ (be16_bytes (12 + length (command_body command))
                ++ (be16_bytes 0 ++ command_body command)))
unfolding create_command_payload
create_command_payload_layout command =
    let size : length (command_body command) < 65524 = omega (arith, length-command_body command) in
    ground arith

pub create_command_payload_size :
    (command : Bytes)
    → (length (create_command_payload command) ≡ 12 + length (command_body command))
      × (length (create_command_payload command) ≤ 65535)
create_command_payload_size command =
    rw (create_command_payload_layout command) (omega (arith, length-command_body command))
