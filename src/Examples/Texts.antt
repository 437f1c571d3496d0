-- ===== src/Examples/Texts.antt =====
-- Handshakes, patterns and heartbeats on small texts.
use serverlink.Prelude.{◌≡◌, ◌↔◌, refl, arith, true, false, some, List, [], ◌∷◌, Bytes}
use serverlink.Glob.{Segment, star, literal, compile, match_impl}
use serverlink.Glob.Matches.{Matches, match_impl_iff}
use serverlink.Patterns.{PatternTrie, find_pattern}
use serverlink.Patterns.Counting.{IsValid}
use serverlink.Auth.{Options, pub_socket, sub, pair}
use serverlink.Auth.Parse.{einval, no_peer, parse_metadata}
use serverlink.Auth.Exchange.{encode, properties, take_all_of}
use serverlink.Auth.Compat.{parse_metadata-pair}
use serverlink.Auth.Null.{
  new_mechanism, command, next_handshake_command, process_handshake_command, process-next,
}

abbrev publisher : Options
publisher = record {
  socket_type = pub_socket;
  routing_id = [];
  app_metadata = [];
  recv_routing_id = false;
}

abbrev subscriber : Options
subscriber = record publisher { socket_type = sub }

abbrev pair_options : Options
pair_options = record publisher { socket_type = pair }

process-next_example :
    (bytes : Bytes) × (next_handshake_command publisher new_mechanism
      ≡ (command bytes, record new_mechanism { ready_command_sent = true }))
    × (process_handshake_command subscriber bytes new_mechanism ≡ (
      (take_all_of subscriber (properties publisher) new_mechanism.peer).0,
      record new_mechanism {
        ready_command_received = true;
        peer = (take_all_of subscriber (properties publisher) new_mechanism.peer).1;
      },
    ))
unfolding new_mechanism
process-next_example =
    process-next publisher subscriber new_mechanism new_mechanism (ground arith) refl refl refl refl

parse_metadata-pair_example :
    parse_metadata pair_options (encode (properties pair_options)) no_peer ≡ (einval, no_peer)
parse_metadata-pair_example =
    parse_metadata-pair pair_options pair_options no_peer (ground arith) refl

abbrev starred : List Segment
starred = literal 97 ∷ star ∷ literal 99 ∷ []

match_impl_iff_example :
    (match_impl starred (97 ∷ 98 ∷ 99 ∷ []) ≡ true) ↔ Matches starred (97 ∷ 98 ∷ 99 ∷ [])
match_impl_iff_example = match_impl_iff starred (97 ∷ 98 ∷ 99 ∷ [])

abbrev patterns : PatternTrie
patterns = record { pattern_str = 97 ∷ []; matcher = some (literal 97 ∷ []); refcount = 1 } ∷ []

patterns-IsValid : IsValid patterns
unfolding IsValid compile find_pattern
patterns-IsValid = (omega arith, omega arith, refl, refl, tt)
