-- ===== src/Proxy/Relay.antt =====
-- What crates/mc-proxy/src/relay.rs reads of the bytes that it passes on. The sockets, the files and
-- the printing are left out.
use pico_server_rs.Base.{
  ℕ, ◌≡◌, refl, sym, ap, ◌∙◌, [], ◌++◌, ◌==◌, if◌then◌else◌, length, arith, le→leb, length-append,
  drop-append, append-nil,
}
use pico_server_rs.Base.Words.{Bytes, as_usize, as_i32, be_bytes, length-be_bytes}
use pico_server_rs.Base.Read.{Read, ok, panic, Reader, advance, ◌>>=◌, ◌>>◌}
use pico_server_rs.Base.Codec.{put, Codec, Codec-then, read-write}
use pico_server_rs.Varint.{VarIntError, read_var_int, write_var_int}
use pico_server_rs.Varint.RoundTrip.{Codec-var_int}
use pico_server_rs.Proto.State.{to_handshake_value}
use pico_server_rs.Proto.Packet.{RoundTrips}
use pico_server_rs.Proto.Text.{write_string, as_usize-as_i32}
use pico_server_rs.Proto.Handshake.{
  Handshake, IsValid, write_handshake, handshake_packet, Handshake-RoundTrips,
  to_handshake_value-lt,
}

-- `parse_handshake_next`; `advance` panics past the end.
unfoldable pub parse_handshake_next : Reader VarIntError ℕ
parse_handshake_next = do
  _ ← read_var_int
  addr_len ← read_var_int
  advance (as_usize addr_len)
  advance 2
  read_var_int

-- The state of a relayed connection: only the first packet of a login changes it.
pub data RelayState : Type 0 where
  st_handshake st_login : RelayState

abbrev pub next_state : RelayState → Read VarIntError ℕ → RelayState
next_state state (ok next rest) = if next == 2 then st_login else state
next_state state other = state

-- The match on what was read: a panic is the panic of the task.
abbrev panics_or : Read VarIntError ℕ → Read ⊥ RelayState
panics_or panic = panic
panics_or r = ok (next_state st_handshake r) []

-- The part of the loop of `relay_c2s` that changes the state, on a frame of the client.
unfoldable pub on_client_frame : RelayState → ℕ × Bytes → Read ⊥ RelayState
unfolding parse_handshake_next
on_client_frame st_login (pid, body) = ok st_login []
on_client_frame st_handshake (pid, body) =
    if pid == 0 then panics_or (parse_handshake_next body) else ok st_handshake []

module _ {E : Type 0} where
  advance-append :
      (n : ℕ) (bs rest : Bytes) → length bs ≡ n → advance {E = E} n (bs ++ rest) ≡ ok tt rest
  advance-append n bs rest e =
      let room = le→leb n (length (bs ++ rest)) (omega (arith, length-append bs rest)) in
      rw (room, drop-append n bs rest e) refl

  Codec-skip : (n : ℕ) (bs : Bytes) → length bs ≡ n → Codec {E = E} (put bs) (advance n) bs tt
  Codec-skip n bs e = record { appends = λ buf. refl; reads = λ rest. advance-append n bs rest e }

Codec-handshake :
    (h : Handshake)
    → IsValid h
    → Codec
        (write_handshake h)
        parse_handshake_next
        (write_var_int h.protocol_version []
          ++ (write_var_int (as_i32 (length h.server_address)) []
              ++ (h.server_address
                  ++ (be_bytes 2 h.server_port
                      ++ write_var_int (to_handshake_value h.next_state) []))))
        (to_handshake_value h.next_state)
unfolding write_handshake write_string parse_handshake_next
Codec-handshake h v =
    let n = length h.server_address in
    let text = v.address_text in
    let value = to_handshake_value h.next_state in
    Codec-then _ (Codec-var_int h.protocol_version v.version_word) (
      Codec-then _ (Codec-var_int (as_i32 n) (omega arith)) (
        Codec-then _
          (Codec-skip (as_usize (as_i32 n)) h.server_address (sym (as_usize-as_i32 n text.short)))
          (Codec-then _ (Codec-skip 2 (be_bytes 2 h.server_port) (length-be_bytes 2 h.server_port))
            (Codec-var_int value (omega (arith, to_handshake_value-lt h.next_state))))))

-- A handshake that asks for the status or the login state, whose numbers fit their types and whose
-- address is a string of a length that fits an i32, is read back as it was written; the relay finds
-- the same next state in it, and takes a login to the login state and a status request to none.
pub handshake-Relayed :
    (h : Handshake)
    → IsValid h
    → RoundTrips handshake_packet h
      × (parse_handshake_next (write_handshake h []) ≡ ok (to_handshake_value h.next_state) [])
      × (on_client_frame st_handshake (0, write_handshake h [])
          ≡ ok (if to_handshake_value h.next_state == 2 then st_login else st_handshake) [])
unfolding on_client_frame
handshake-Relayed h v =
    let found : parse_handshake_next (write_handshake h [])
        ≡ ok (to_handshake_value h.next_state) [] =
      ap parse_handshake_next (sym (append-nil (write_handshake h [])))
      ∙ read-write (Codec-handshake h v) [] in
    (Handshake-RoundTrips h v, found, ap panics_or found)
