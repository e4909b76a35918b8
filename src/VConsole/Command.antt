-- ===== src/VConsole/Command.antt =====
-- createCommandPayload of libvconsole/src/vconsole.cpp, and the init_payload of
-- CS2RemoteConsole-client/src/constants.h.
pub mod Framing
use cs2remote_console.Base.{length, set, take, Bytes, ℕ, ◌-◌, ◌/◌, ◌%◌, [], ◌∷◌, ◌++◌}

-- 'C' 'M' 'N' 'D', the version 0x00D40000, a length and a handle of 0.
abbrev pub command_header : Bytes
command_header =
    b'C' ∷ b'M' ∷ b'N' ∷ b'D' ∷ 0x00 ∷ 0xD4 ∷ 0x00 ∷ 0x00 ∷ 0x00 ∷ 0x18 ∷ 0x00 ∷ 0x00 ∷ []

abbrev pub max_command_length : ℕ
max_command_length = 65535 - 12 - 1

-- command.substr(0, n)
unfoldable pub truncate : ℕ → Bytes → Bytes
truncate n command = take n command

-- payload[8] and payload[9] get the bytes of the size, as an unsigned short.
unfoldable pub put_length : Bytes → Bytes
put_length payload =
    let total_length = length payload % 65536 in
    set (set payload 8 (total_length / 256 % 256)) 9 (total_length % 256)

unfoldable pub create_command_payload : Bytes → Bytes
unfolding put_length
create_command_payload command =
    put_length ((command_header ++ truncate max_command_length command) ++ 0 ∷ [])

abbrev pub init_payload : Bytes
init_payload =
    b'V' ∷ b'F' ∷ b'C' ∷ b'S' ∷ 0x00 ∷ 0xD4 ∷ 0x00 ∷ 0x00 ∷ 0x00 ∷ 0x0D ∷ 0x00 ∷ 0x00 ∷ 0x01 ∷ []
