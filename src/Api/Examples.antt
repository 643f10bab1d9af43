-- ===== src/Api/Examples.antt =====
-- The classes that a user sees, at small inputs.
use tcp_pubsub.Publisher
use tcp_pubsub.PublisherSession
use tcp_pubsub.Publisher.{Publisher}
use tcp_pubsub.Base.{◌≡◌, refl, true, some, List, [], ◌∷◌, arith}
use tcp_pubsub.Publisher.Message.{Payload, AllGiven}
use tcp_pubsub.Wire.Endian.{little_endian}
use tcp_pubsub.Api.{send_data, send_gathered}

-- Two pieces of memory.
abbrev pieces : List Payload
pieces =
    record { first = some (104 ∷ []); second = 1 }
    ∷ record { first = some (105 ∷ 33 ∷ []); second = 2 }
    ∷ []

pieces-AllGiven : AllGiven pieces (104 ∷ 105 ∷ 33 ∷ [])
pieces-AllGiven =
    AllGiven.cons {rest = 105 ∷ 33 ∷ []} (refl, refl) (AllGiven.cons (refl, refl) AllGiven.nil)

-- A publisher with one running session.
abbrev serving : Publisher
serving = record Publisher.new {
  is_running = true;
  next_id = 1;
  session = λ _. record PublisherSession.new { state = PublisherSession.running };
  publisher_sessions = 0 ∷ [];
}

send_gathered_example :
    Publisher.send little_endian [] pieces serving
    ≡ send_data little_endian (7 ∷ []) (some (104 ∷ 105 ∷ 33 ∷ [])) 3 serving
send_gathered_example =
    send_gathered little_endian [] (7 ∷ []) serving pieces-AllGiven (omega arith)
