-- ===== src/Proxy/Connection/Join.antt =====
-- `handle_connection` of crates/mc-proxy/src/server.rs on the packets of crates/mc-proto.
use pico_server_rs.Base.{ℕ, ◌≡◌, sym, List, [], ◌∷◌, ◌++◌, append-nil, length, arith}
use pico_server_rs.Base.Words.{Bytes, as_usize, as_i32}
use pico_server_rs.Base.Read.{ok, Reader, require, split_to, ◌>>=◌, ◌>>◌}
use pico_server_rs.Base.Codec.{
  put, Codec, Codec-then, Codec-map, Codec-lift, Codec-be, Codec-put, Codec-require, read-write,
}
use pico_server_rs.Varint.RoundTrip.{Codec-var_int}
use pico_server_rs.Proto.Handshake.{Handshake, write_handshake, IsValid}
use pico_server_rs.Proto.Login.{UuidCrate, LoginStart, write_login_start}
use pico_server_rs.Proto.State.{login, to_handshake_value}
use pico_server_rs.Proto.Text.{write_string, IsText, text_bytes, as_usize-as_i32}
use pico_server_rs.Proxy.Connection.{
  Packets, play, number, text, new_connection, read_next, read_login_start, login_answer,
  handle_frame, handle_frames,
}
use pico_server_rs.Proxy.Play.{TextError, length_error, too_short, checked_text, read_text}

-- The part of `read_string` behind the length.
abbrev text_behind : ℕ → Reader TextError Bytes
text_behind n = require n (λ _. too_short) >> (split_to n >>= checked_text)

Codec-text_behind :
    (n : ℕ) (s : Bytes) → length s ≡ n → IsText s → Codec (put s) (text_behind n) s s
Codec-text_behind n s e t =
    Codec-require n (λ _. too_short) s (omega arith)
      (Codec-map checked_text (Codec-put n s e) (λ rest. rw t.utf8))

Codec-read_text : (s : Bytes) → IsText s → Codec (write_string s) read_text (text_bytes s) s
unfolding write_string read_text
Codec-read_text s t =
    let n = length s in
    Codec-then (λ len. text_behind (as_usize len))
      (Codec-lift length_error (Codec-var_int (as_i32 n) (omega arith)))
      (Codec-text_behind (as_usize (as_i32 n)) s (sym (as_usize-as_i32 n t.short)) t)

read_next-write_handshake :
    (h : Handshake) → IsValid h → h.next_state ≡ login → read_next (write_handshake h []) ≡ ok 2 []
unfolding read_next write_handshake to_handshake_value
read_next-write_handshake h v e =
    rw (sym (append-nil (write_handshake h [])), e)
      (read-write
        (Codec-then _ (Codec-lift number (Codec-var_int h.protocol_version v.version_word)) (
          Codec-then _ (Codec-lift text (Codec-read_text h.server_address v.address_text)) (
            Codec-then _ (Codec-be 2 h.server_port v.port_word)
              (Codec-lift number (Codec-var_int 2 (omega arith))))))
        [])

module _ (crate : UuidCrate) (registry_packets : Packets) where
  open crate use {as_u128, as_u128-lt, from-as}

  read_login_start-write :
      (p : LoginStart crate)
      → IsText p.name
      → read_login_start crate registry_packets (write_login_start crate p [])
        ≡ ok (p.name, as_u128 p.uuid) []
  unfolding read_login_start write_login_start
  read_login_start-write p h = rw (sym (append-nil (write_login_start crate p []))) (
      read-write
        (Codec-then _ (Codec-lift text (Codec-read_text p.name h)) (
          Codec-map _ (Codec-be 16 (as_u128 p.uuid) (as_u128-lt p.uuid))
            (λ rest. rw (from-as p.uuid))))
        [])

  -- The frames of a client that joins: its handshake, its login start, and the two packets without a
  -- body that acknowledge the login and the configuration.
  abbrev pub joining : Handshake → LoginStart crate → ℕ → List (ℕ × (ℕ × Bytes))
  joining h p fresh =
      (fresh, (0x00, write_handshake h []))
      ∷ (fresh, (0x00, write_login_start crate p []))
      ∷ (fresh, (0x03, []))
      ∷ (fresh, (0x03, []))
      ∷ []

  -- A client that asks for the login state, and whose handshake and login start are valid and written
  -- as the packets of mc-proto are, enters the play phase under its own uuid; it has been sent the
  -- answers to its login and then the registry packets.
  pub handle_frames-join :
      (h : Handshake) (p : LoginStart crate) (fresh : ℕ)
      → IsValid h
      → h.next_state ≡ login
      → IsText p.name
      → handle_frames crate registry_packets (joining h p fresh) new_connection []
        ≡ play
            (as_u128 p.uuid)
            (login_answer crate registry_packets fresh p.name (as_u128 p.uuid) ++ registry_packets)
  unfolding handle_frames handle_frame
  handle_frames-join h p fresh v e t =
      rw (read_next-write_handshake h v e, read_login_start-write p t)
