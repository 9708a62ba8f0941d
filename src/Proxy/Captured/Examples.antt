-- ===== src/Proxy/Captured/Examples.antt =====
-- The theorems on the files of captured packets at concrete inputs.
use pico_server_rs.Base.{ℕ, ◌==◌, ◌≡◌, refl, [], ◌∷◌, Option, some, if◌then◌else◌, arith}
use mathlib.Core.List.Perm
use pico_server_rs.Base.Words.{Bytes}
use pico_server_rs.Proxy.Captured.{play_name, captured_name, play_packets}
use pico_server_rs.Proxy.Captured.Names.{captured_name-play_name}
use pico_server_rs.Proxy.Captured.Order.{play_packets-Perm}

captured_name-play_name_example : captured_name (play_name 120 7 0x31) ≡ some (120, 0x31)
captured_name-play_name_example = captured_name-play_name 120 7 0x31 (omega arith) (omega arith)

abbrev login_file : Bytes × Option Bytes
login_file = (play_name 40 0 0x31, some (1 ∷ []))

abbrev late_file : Bytes × Option Bytes
late_file = (play_name 41 0 0x2c, some (2 ∷ []))

abbrev packet_at : ℕ → ℕ × Bytes
packet_at n = if n == 40 then (0x31, 1 ∷ []) else (0x2c, 2 ∷ [])

play_packets-Perm_example :
    play_packets (late_file ∷ login_file ∷ []) ≡ play_packets (login_file ∷ late_file ∷ [])
unfolding captured_name play_name
play_packets-Perm_example =
    play_packets-Perm packet_at (late_file ∷ login_file ∷ []) (login_file ∷ late_file ∷ [])
      (refl, (refl, tt)) (Perm.swap login_file late_file [])

-- The packets come by their numbers, and a file below the number 35 is left out.
in_order :
    play_packets (late_file ∷ login_file ∷ (play_name 34 0 0x10, some (3 ∷ [])) ∷ [])
    ≡ (0x31, 1 ∷ []) ∷ (0x2c, 2 ∷ []) ∷ []
unfolding captured_name play_name play_packets
in_order = refl
