-- ===== src/Tests/Streams.antt =====
-- parseCanvasSSE of frontend/src/api/canvas-api.ts on concrete streams.
use canvas_standalone.Prelude.{arith, ◌≡◌, refl, List, [], ◌∷◌, ◌++◌, codes, map}
use canvas_standalone.Streams.{Text, Message, parse, normalize, trim_text, trim_start}
use canvas_standalone.Streams.Chunks.{joined, parse-joined}
use canvas_standalone.Streams.Frames.{Sent, IsSendable, message, parse-print}

-- an event whose line ends are cut between the carriage return and the line feed
abbrev reads : List Text
reads = (codes "data: a" ++ 13 ∷ []) ∷ (10 ∷ 13 ∷ []) ∷ (10 ∷ codes "data: b") ∷ []

abbrev ending : Text
ending = 10 ∷ 10 ∷ codes "data: lost"

abbrev a_message : Message
a_message = record { event = codes "message"; payload = codes "a" }

abbrev b_message : Message
b_message = record { event = codes "message"; payload = codes "b" }

parsed_reads : parse reads ending ≡ a_message ∷ b_message ∷ []
unfolding parse
parsed_reads = refl

parse-joined_example : parse reads ending ≡ parse [] (joined reads ending)
parse-joined_example = parse-joined reads ending

abbrev update_sent : Sent
update_sent = record { name = codes "job"; first = codes "{"; more = codes "}" ∷ [] }

update_sent-IsSendable : IsSendable update_sent
unfolding trim_text trim_start
update_sent-IsSendable = record {
  name_line = omega arith;
  data_lines = omega arith;
  name_trimmed = refl;
  data_trimmed = (refl, (refl, tt));
}

abbrev update_reads : List Text
update_reads =
    (codes "event: job" ++ 13 ∷ 10 ∷ codes "data: {" ++ 13 ∷ [])
    ∷ (10 ∷ codes "data: }" ++ 10 ∷ [])
    ∷ []

-- The last line end of the stream is a single carriage return.
parse-print_example : parse update_reads (13 ∷ []) ≡ map message (update_sent ∷ [])
unfolding normalize
parse-print_example =
    parse-print (update_sent ∷ []) update_reads (13 ∷ []) (update_sent-IsSendable, tt) refl
