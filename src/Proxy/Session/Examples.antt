-- ===== src/Proxy/Session/Examples.antt =====
-- Concrete starts of the play phase, over the integers in place of f64.
use pico_server_rs.Base.{ℕ, ◌≡◌, refl, [], ◌∷◌, false, replicate, arith}
use pico_server_rs.Base.Words.{Bytes}
use pico_server_rs.Proxy.Play.{World, add_item_body}
use pico_server_rs.Proxy.Play.Examples.{whole}
use pico_server_rs.Proxy.Burst.{write_add_entity}
use pico_server_rs.Proxy.Session.{changes_step, here, after}
use pico_server_rs.Proxy.Session.Greeting.{IsSized}
use pico_server_rs.Proxy.Session.Start.{Started, enter_play-Started}
use pico_server_rs.Proxy.Session.Steps.{Ticks, enter_play-Ticks}

abbrev template : Bytes
template = replicate 8 0

whole-IsSized : IsSized whole
whole-IsSized = record { bits = λ v. omega arith; word = λ v. omega arith }

enter_play-Started_example : Started whole template 7 (5 ∷ [])
enter_play-Started_example =
    enter_play-Started whole template 7 (5 ∷ []) whole-IsSized (omega arith) (omega arith, tt)

abbrev started : Started whole template 7 (5 ∷ [])
started = enter_play-Started whole template 7 (5 ∷ []) whole-IsSized (omega arith) (omega arith, tt)

abbrev start : World whole
start = (started.server, 5 ∷ [])

-- Another connection mines a block while the client plays.
enter_play-Ticks_example : Ticks whole started.server
enter_play-Ticks_example =
    enter_play-Ticks whole template [] 7 (5 ∷ []) (6 ∷ 5 ∷ []) start started.server started.sent _
      started.returns
      (after start start (started.server, 6 ∷ 5 ∷ []) [] [] (here start)
        (changes_step started.server (5 ∷ []) (6 ∷ 5 ∷ [])))

-- The body that a broken block sends is the one of `write_add_entity`, which nothing calls.
add_entity-same :
    (eid uuid x y z : ℕ)
    → add_item_body whole eid uuid x y z ≡ write_add_entity whole eid uuid 71 x y z 0 0 0 0 false
unfolding write_add_entity
add_entity-same eid uuid x y z = refl
