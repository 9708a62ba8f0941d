-- ===== src/Proxy/LoginPacket/RoundTrip.antt =====
-- A reader that follows the layout of the login packet field by field.
use pico_server_rs.Base.{
  ℕ, ◌<◌, ◌^◌, ◌≡◌, refl, [], ◌∷◌, ◌++◌, Bool, true, false, Bool-cases, inl, inr, Option, none,
  some, ◌==◌, if◌then◌else◌, length, All, append_assoc, arith,
}
use pico_server_rs.Base.Words.{Bytes, IsU32, IsU64, be_bytes}
use pico_server_rs.Base.Read.{ok, Reader, pure, lift, get_be, ◌>>=◌}
use pico_server_rs.Base.Codec.{
  ◌▹◌, put_be, Codec, Codec-then, Codec-map, Codec-lift, Codec-be, read-write,
}
use pico_server_rs.Varint.{read_var_int, write_var_int}
use pico_server_rs.Varint.RoundTrip.{Codec-var_int}
use pico_server_rs.Proto.Error.{PacketError, var_int}
use pico_server_rs.Proto.Text.{read_string, write_string, IsText, Codec-string, text_bytes}
use pico_server_rs.Proto.Config.{get_bool, Codec-bool, read_counted, Codec-counted}
use pico_server_rs.Proxy.LoginPacket.{
  DeathLocation, LoginPacket, write_text, write_previous_game_type, write_death_location,
  write_login, login_bytes,
}

abbrev read_number : Reader PacketError ℕ
read_number = lift var_int read_var_int

abbrev read_position : Reader PacketError DeathLocation
read_position = do
  dimension ← read_string
  position ← get_be 8
  pure (record { dimension = dimension; position = position })

abbrev death_if : Bool → Reader PacketError (Option DeathLocation)
death_if false = pure none
death_if true = do dl ← read_position; pure (some dl)

abbrev read_death : Reader PacketError (Option DeathLocation)
read_death = get_bool >>= death_if

-- The layout of the packet, read from the front.
unfoldable pub read_login : Reader PacketError LoginPacket
read_login = do
  entity_id ← get_be 4
  hardcore ← get_bool
  dimensions ← read_counted read_string
  max_players ← read_number
  view_distance ← read_number
  sim_distance ← read_number
  reduced_debug_info ← get_bool
  enable_respawn_screen ← get_bool
  do_limited_crafting ← get_bool
  dimension_type ← read_string
  dimension_name ← read_string
  seed ← get_be 8
  game_type ← read_number
  previous_game_type ← read_number
  is_debug ← get_bool
  is_flat ← get_bool
  death_location ← read_death
  portal_cooldown ← read_number
  sea_level ← read_number
  envelope_follows ← get_bool
  pure (record {
    entity_id = entity_id;
    hardcore = hardcore;
    dimensions = dimensions;
    max_players = max_players;
    view_distance = view_distance;
    sim_distance = sim_distance;
    reduced_debug_info = reduced_debug_info;
    enable_respawn_screen = enable_respawn_screen;
    do_limited_crafting = do_limited_crafting;
    dimension_type = dimension_type;
    dimension_name = dimension_name;
    seed = seed;
    game_type = game_type;
    previous_game_type = previous_game_type;
    is_debug = is_debug;
    is_flat = is_flat;
    death_location = death_location;
    portal_cooldown = portal_cooldown;
    sea_level = sea_level;
    envelope_follows = envelope_follows;
  })

abbrev pub IsDeath : Option DeathLocation → Type 0
IsDeath none = Unit {0}
IsDeath (some dl) = IsText dl.dimension × IsU64 dl.position

-- The numbers fit their types, the strings are UTF-8, and the lengths fit an i32.
pub record IsLogin (p : LoginPacket) : Type 0 where
  pub entity_word : IsU32 p.entity_id
  pub few_dimensions : length p.dimensions < 2 ^ 31
  pub dimension_texts : All IsText p.dimensions
  pub players_word : IsU32 p.max_players
  pub view_word : IsU32 p.view_distance
  pub sim_word : IsU32 p.sim_distance
  pub type_text : IsText p.dimension_type
  pub name_text : IsText p.dimension_name
  pub seed_word : IsU64 p.seed
  pub game_word : IsU32 p.game_type
  pub previous_word : IsU32 p.previous_game_type
  pub death_valid : IsDeath p.death_location
  pub cooldown_word : IsU32 p.portal_cooldown
  pub sea_word : IsU32 p.sea_level

Codec-text : (s : Bytes) → IsText s → Codec (write_text s) read_string (text_bytes s) s
unfolding write_text write_string
Codec-text s t = Codec-string s t

Codec-number : (v : ℕ) → IsU32 v → Codec (write_var_int v) read_number (write_var_int v []) v
Codec-number v h = Codec-lift var_int (Codec-var_int v h)

abbrev previous_bytes : ℕ → Bytes
previous_bytes v = if v == 127 then 0xff ∷ 0x00 ∷ [] else write_var_int v []

-- The two bytes of 127 are read as 127.
Codec-long_127 : Codec (put_be 1 0xff ▹ put_be 1 0x00) read_number (0xff ∷ 0x00 ∷ []) 127
unfolding read_var_int be_bytes
Codec-long_127 = record {
  appends = λ buf. append_assoc buf (0xff ∷ []) (0x00 ∷ []);
  reads = λ rest. refl;
}

Codec-previous :
    (v : ℕ) → IsU32 v → Codec (write_previous_game_type v) read_number (previous_bytes v) v
unfolding write_previous_game_type
Codec-previous v h = elim (Bool-cases (v == 127)) [
  | inl t ↦ let same : v ≡ 127 = ground arith in rw same Codec-long_127
  | inr f ↦ rw f (Codec-number v h)
]

Codec-position :
    (dl : DeathLocation)
    → IsText dl.dimension
    → IsU64 dl.position
    → Codec
        (write_text dl.dimension ▹ put_be 8 dl.position)
        read_position
        (text_bytes dl.dimension ++ be_bytes 8 dl.position)
        dl
Codec-position dl t h =
    Codec-then _ (Codec-text dl.dimension t) (Codec-map _ (Codec-be 8 dl.position h) (λ rest. refl))

abbrev death_bytes : Option DeathLocation → Bytes
death_bytes none = be_bytes 1 0
death_bytes (some dl) = be_bytes 1 1 ++ (text_bytes dl.dimension ++ be_bytes 8 dl.position)

Codec-death :
    (o : Option DeathLocation)
    → IsDeath o
    → Codec (write_death_location o) read_death (death_bytes o) o
unfolding write_death_location
Codec-death none h = Codec-map death_if (Codec-bool false) (λ rest. refl)
Codec-death (some dl) (t, h) =
    Codec-then death_if (Codec-bool true) (Codec-map _ (Codec-position dl t h) (λ rest. refl))

-- The packet is read back field by field as it was written, in front of any further bytes, where its
-- numbers fit their types, its strings are UTF-8 and its lengths fit an i32; the padded encoding of the
-- previous game type 127 included.
pub read_login-login_bytes :
    (p : LoginPacket) (rest : Bytes) → IsLogin p → read_login (login_bytes p ++ rest) ≡ ok p rest
unfolding read_login login_bytes write_login
read_login-login_bytes p rest v =
    read-write
      (Codec-then _ (Codec-be 4 p.entity_id v.entity_word) (
        Codec-then _ (Codec-bool p.hardcore) (
          Codec-then _
            (Codec-counted IsText text_bytes write_text read_string Codec-text p.dimensions
              v.few_dimensions v.dimension_texts)
            (Codec-then _ (Codec-number p.max_players v.players_word) (
              Codec-then _ (Codec-number p.view_distance v.view_word) (
                Codec-then _ (Codec-number p.sim_distance v.sim_word) (
                  Codec-then _ (Codec-bool p.reduced_debug_info) (
                    Codec-then _ (Codec-bool p.enable_respawn_screen) (
                      Codec-then _ (Codec-bool p.do_limited_crafting) (
                        Codec-then _ (Codec-text p.dimension_type v.type_text) (
                          Codec-then _ (Codec-text p.dimension_name v.name_text) (
                            Codec-then _ (Codec-be 8 p.seed v.seed_word) (
                              Codec-then _ (Codec-number p.game_type v.game_word) (
                                Codec-then _ (Codec-previous p.previous_game_type v.previous_word) (
                                  Codec-then _ (Codec-bool p.is_debug) (
                                    Codec-then _ (Codec-bool p.is_flat) (
                                      Codec-then _ (Codec-death p.death_location v.death_valid) (
                                        Codec-then _
                                          (Codec-number p.portal_cooldown v.cooldown_word)
                                          (Codec-then _ (Codec-number p.sea_level v.sea_word) (
                                            Codec-map _ (Codec-bool p.envelope_follows)
                                              (λ r. refl)))))))))))))))))))))
      rest
