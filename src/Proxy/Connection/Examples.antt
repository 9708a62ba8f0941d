-- ===== src/Proxy/Connection/Examples.antt =====
-- A client that joins.
use pico_server_rs.Base.{ℕ, ◌≡◌, inr, refl, [], ◌∷◌, ◌++◌, Bool, true, false, ◌==◌, ◌<◌, ◌^◌, arith}
use pico_server_rs.Base.Words.{Bytes}
use pico_server_rs.Base.Utf8.{is_utf8}
use pico_server_rs.Proto.Handshake.{Handshake, IsValid}
use pico_server_rs.Proto.Login.{UuidCrate, LoginStart}
use pico_server_rs.Proto.State.{login}
use pico_server_rs.Proto.Text.{IsText}
use pico_server_rs.Proxy.Connection.{
  Packets, in_handshake, play, new_connection, login_answer, handle_frames,
}
use pico_server_rs.Proxy.Connection.Join.{joining, handle_frames-join}
use pico_server_rs.Proxy.Connection.Order.{Leads, ids_of, handle_frames-Leads}

-- A uuid that is nil or one.
abbrev nil_or_one : UuidCrate
nil_or_one = record {
  Uuid = Bool;
  from_u128 = λ v. v == 1;
  as_u128 = number;
  as_u128-lt = number-lt;
  from-as = same;
}
  where
    number : Bool → ℕ
    number true = 1
    number false = 0

    number-lt : (u : Bool) → number u < 2 ^ 128
    number-lt true = omega arith
    number-lt false = omega arith

    same : (u : Bool) → (number u == 1) ≡ u
    same true = refl
    same false = refl

-- "ab"
abbrev name : Bytes
name = 97 ∷ 98 ∷ []

name-IsText : IsText name
unfolding is_utf8
name-IsText = record { utf8 = refl; short = omega arith }

abbrev hello : Handshake
hello = record {
  protocol_version = 776;
  server_address = name;
  server_port = 25565;
  next_state = login;
}

hello-IsValid : IsValid hello
hello-IsValid = record {
  version_word = omega arith;
  address_text = name-IsText;
  port_word = omega arith;
  asks_for = inr refl;
}

abbrev start : LoginStart nil_or_one
start = record { name = name; uuid = true }

abbrev registries : Packets
registries = (0x03, []) ∷ []

handle_frames-join_example :
    handle_frames nil_or_one registries
      (joining nil_or_one registries hello start 5)
      new_connection
      []
    ≡ play 1 (login_answer nil_or_one registries 5 name 1 ++ registries)
handle_frames-join_example =
    handle_frames-join nil_or_one registries hello start 5 hello-IsValid refl name-IsText

joined :
    handle_frames nil_or_one registries
      (joining nil_or_one registries hello start 5)
      new_connection
      []
    ≡ play 1 (login_answer nil_or_one registries 5 name 1 ++ registries)
joined = handle_frames-join nil_or_one registries hello start 5 hello-IsValid refl name-IsText

handle_frames-Leads_example :
    Leads in_handshake (ids_of (joining nil_or_one registries hello start 5))
handle_frames-Leads_example =
    handle_frames-Leads nil_or_one registries (joining nil_or_one registries hello start 5) 1
      (login_answer nil_or_one registries 5 name 1 ++ registries) joined
