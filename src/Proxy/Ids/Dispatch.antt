-- ===== src/Proxy/Ids/Dispatch.antt =====
-- The packet ids of packet_ids.rs among each other.
use pico_server_rs.Base.{ℕ, zero, suc, ◌≡◌, refl, List, [], ◌∷◌}
use pico_server_rs.Proxy.Ids.Clientbound.{clientbound_ids}
use pico_server_rs.Proxy.Ids.Serverbound.{serverbound_ids}

pub count_up : ℕ → ℕ → List ℕ
count_up zero i = []
count_up (suc n) i = i ∷ count_up n (suc i)

-- In each direction the ids are 0, 1, 2, … in the order of the source: no id is skipped, and no two
-- packets share one.
pub packet_ids_consecutive : (clientbound_ids ≡ count_up 141 0) × (serverbound_ids ≡ count_up 69 0)
unfolding count_up
packet_ids_consecutive = (refl, refl)
