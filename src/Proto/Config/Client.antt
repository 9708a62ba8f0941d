-- ===== src/Proto/Config/Client.antt =====
-- The client's information and the two empty packets of crates/mc-proto/src/config.rs.
use pico_server_rs.Base.{ℕ, ◌≡◌, refl, [], append-nil, Bool}
use pico_server_rs.Base.Words.{Bytes, IsByte, IsU32}
use pico_server_rs.Base.Read.{ok, panic, Reader, pure, lift, get_be, ◌>>=◌}
use pico_server_rs.Base.Codec.{
  Writer, ◌▹◌, skip, put_be, Codec-then, Codec-map, Codec-lift, Codec-be, read-write,
}
use pico_server_rs.Varint.{read_var_int, write_var_int}
use pico_server_rs.Varint.RoundTrip.{Codec-var_int}
use pico_server_rs.Proto.Error.{PacketError, var_int}
use pico_server_rs.Proto.Packet.{Packet, RoundTrips}
use pico_server_rs.Proto.Text.{read_string, write_string, IsText, Codec-string}
use pico_server_rs.Proto.Config.{put_bool, get_bool, Codec-bool}

abbrev pub FinishConfiguration : Type 0
FinishConfiguration = Unit {0}

abbrev pub clientbound_finish_packet : Packet FinishConfiguration
clientbound_finish_packet = record { id = 0x03; write = λ p. skip; read = pure tt }

abbrev pub serverbound_finish_packet : Packet FinishConfiguration
serverbound_finish_packet = record { id = 0x03; write = λ p. skip; read = pure tt }

pub record ClientInformation : Type 0 where
  pub locale : Bytes
  pub view_distance : ℕ
  pub chat_mode : ℕ
  pub chat_colors : Bool
  pub displayed_skin_parts : ℕ
  pub main_hand : ℕ
  pub enable_text_filtering : Bool
  pub allow_server_listings : Bool

unfoldable pub write_client_information : ClientInformation → Writer
write_client_information p =
    write_string p.locale
    ▹ put_be 1 p.view_distance
    ▹ write_var_int p.chat_mode
    ▹ put_bool p.chat_colors
    ▹ put_be 1 p.displayed_skin_parts
    ▹ write_var_int p.main_hand
    ▹ put_bool p.enable_text_filtering
    ▹ put_bool p.allow_server_listings

-- The bytes between the numbers are read with no check of what remains.
unfoldable pub read_client_information : Reader PacketError ClientInformation
read_client_information = do
  locale ← read_string
  view_distance ← get_be 1
  chat_mode ← lift var_int read_var_int
  chat_colors ← get_bool
  displayed_skin_parts ← get_be 1
  main_hand ← lift var_int read_var_int
  enable_text_filtering ← get_bool
  allow_server_listings ← get_bool
  pure (record {
    locale = locale;
    view_distance = view_distance;
    chat_mode = chat_mode;
    chat_colors = chat_colors;
    displayed_skin_parts = displayed_skin_parts;
    main_hand = main_hand;
    enable_text_filtering = enable_text_filtering;
    allow_server_listings = allow_server_listings;
  })

abbrev pub client_information_packet : Packet ClientInformation
client_information_packet = record {
  id = 0x00;
  write = write_client_information;
  read = read_client_information;
}

pub record IsValid (p : ClientInformation) : Type 0 where
  pub locale_text : IsText p.locale
  pub distance_byte : IsByte p.view_distance
  pub mode_word : IsU32 p.chat_mode
  pub parts_byte : IsByte p.displayed_skin_parts
  pub hand_word : IsU32 p.main_hand

-- A client's information whose numbers fit their types and whose locale is a text is read back as
-- it was written.
pub ClientInformation-RoundTrips :
    (p : ClientInformation) → IsValid p → RoundTrips client_information_packet p
unfolding write_client_information read_client_information
ClientInformation-RoundTrips p v = read-write (
    Codec-then _ (Codec-string p.locale v.locale_text) (
      Codec-then _ (Codec-be 1 p.view_distance v.distance_byte) (
        Codec-then _ (Codec-lift var_int (Codec-var_int p.chat_mode v.mode_word)) (
          Codec-then _ (Codec-bool p.chat_colors) (
            Codec-then _ (Codec-be 1 p.displayed_skin_parts v.parts_byte) (
              Codec-then _ (Codec-lift var_int (Codec-var_int p.main_hand v.hand_word)) (
                Codec-then _ (Codec-bool p.enable_text_filtering)
                  (Codec-map _ (Codec-bool p.allow_server_listings) (λ rest. refl)))))))))

-- A locale that is a text, with nothing behind it, stops the reader with a panic, not with an
-- error.
pub read_client_information_short :
    (s : Bytes) → IsText s → read_client_information (write_string s []) ≡ panic
unfolding read_client_information
read_client_information_short s h =
    let locale : read_string (write_string s []) ≡ ok s [] =
      rw append-nil at (read-write (Codec-string s h) []) in
    rw locale
