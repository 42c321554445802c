-- ===== src/Tests/Discovery.antt =====
-- The messages and the two sides of internal/discovery/discovery.go at concrete values.
use mathlib.Core.List.{Memᴰ}
use star.Prelude.{ℕ, ◌≡◌, refl, true, false, some, none, List, [], ◌∷◌, ◌++◌, arith, replicate}
use star.Discovery.Wire.{v4, AddrPort, Request, Response, marshal_request}
use star.Discovery.Wire.Laws.{IsAddrPort}
use star.Discovery.Serve.{timeout, packet, Round, serve, answer}
use star.Discovery.Serve.Laws.{replies, serve-replies}
use star.Discovery.Bind
use star.Discovery.Bind.{Event, bound, bind}
use star.Discovery.Bind.Laws.{IsAnswer, AllIgnored, bind_sound, bind-answer}

abbrev server : AddrPort
server = record { addr = v4 (192 ∷ 0 ∷ 2 ∷ 1 ∷ []); port = 3478 }

abbrev client : AddrPort
client = record { addr = v4 (198 ∷ 51 ∷ 100 ∷ 7 ∷ []); port = 50123 }

client-IsAddrPort : IsAddrPort client
client-IsAddrPort = record { address = refl; port_range = omega arith }

abbrev request : Request
request = record { tx_id = replicate 16 7 }

abbrev response : Response
response = record { tx_id = replicate 16 7; addr = client }

-- A packet of a client, a timeout, and a closed server.
abbrev quiet : List Round
quiet =
    record {
      done = false;
      received = packet (marshal_request request) (some client);
      write_ok = true;
    }
    ∷ record { done = false; received = timeout; write_ok = true }
    ∷ []

abbrev closing : List Round
closing = record { done = true; received = timeout; write_ok = true } ∷ []

serve-replies_example :
    serve (quiet ++ closing) ≡ (replies quiet ++ (serve closing).0, (serve closing).1)
serve-replies_example = serve-replies quiet closing ((refl, refl, tt), ((refl, refl, tt), tt))

abbrev noise : List Event
noise = Bind.timeout false true ∷ Bind.packet (1 ∷ []) none ∷ []

noise-AllIgnored : AllIgnored server request.tx_id noise
unfolding Bind.accept
noise-AllIgnored = ((refl, refl), (refl, tt))

bind-answer_example :
    (data' : List ℕ) × (answer (marshal_request request) (some client) ≡ some (client, data'))
    × (bind server request.tx_id false true (noise ++ Bind.packet data' (some server) ∷ [])
        ≡ bound client)
bind-answer_example =
    bind-answer server client request noise [] refl client-IsAddrPort noise-AllIgnored

answered :
    (data' : List ℕ) × (answer (marshal_request request) (some client) ≡ some (client, data'))
    × (bind server request.tx_id false true (Bind.packet data' (some server) ∷ []) ≡ bound client)
answered = bind-answer server client request [] [] refl client-IsAddrPort tt

abbrev events : List Event
events = Bind.packet answered.0 (some server) ∷ []

bind_sound_example :
    (buf : List ℕ) × Memᴰ (Bind.packet buf (some server)) events
    × IsAnswer server request.tx_id buf client
bind_sound_example = bind_sound server request.tx_id false true events client answered.2
