-- ===== src/Tests/Reader.antt =====
-- A reader thread that accepts a connection and finds its session, and one that refuses it.
use openfix.Prelude.{ℕ, [], ◌∷◌, ◌++◌, ◌≡◌, refl, true, false, some, Bytes, codes, bytes_eq}
use openfix.LinkedHashMap.{find, put, erase}
use openfix.Dictionary.{find_key}
use openfix.Dictionary.Parse.{split_at}
use openfix.Network.Handler.{new_handler, set_connection}
use openfix.Network.Framing.{
  ReadEnd, read, read_chunks, extract, extract_loop, extract_one, frame, cut, find_text, strip,
  get_tag_value_view, from_chars_length,
}
use openfix.Network.Reader.{
  Reader, handler_of, sessions_of, accept, deliver, counterparty, candidate, adopt_unknown,
  add_connection, gives, close_fd, stepped, with_messages, process_read,
}
use openfix.Network.Reader.Linked.{reads, accepts, Reached, starts, goes_on, Reached-HasOneEach}

abbrev logon_text : Bytes
logon_text =
    codes "8=FIX.4.2"
    ++ 1 ∷ codes "9=18"
    ++ 1 ∷ codes "35=A"
    ++ 1 ∷ codes "49=YOU"
    ++ 1 ∷ codes "56=ME"
    ++ 1 ∷ codes "10=000"
    ++ 1 ∷ []

abbrev start : Reader
start = record {
  buffers = [];
  acceptor_sockets = (3, 0) ∷ [];
  unknown_connections = [];
  connections = [];
  sessions = (0, (codes "ME:YOU", 7) ∷ []) ∷ [];
  handlers = (7, new_handler) ∷ [];
}

abbrev adopted : Reader
adopted = record start {
  buffers = (5, codes "8=F") ∷ [];
  connections = (5, 7) ∷ [];
  handlers =
      (7, record { connection = some 5; valid = true; connected = true; stopped = false }) ∷ [];
}

accept-adopt_unknown :
    process_read 5 ((logon_text ++ codes "8=F") ∷ []) ReadEnd.would_block (accept 5 0 start)
    ≡ stepped adopted (gives 7 logon_text ∷ [])
unfolding process_read accept with_messages read read_chunks extract extract_loop extract_one frame
    cut find_text strip get_tag_value_view from_chars_length split_at adopt_unknown candidate
    counterparty find_key sessions_of handler_of add_connection set_connection deliver find put
    erase bytes_eq
accept-adopt_unknown = refl

-- A connection from the same counterparty is closed, and what it sent last stays under its number.
busy-refused :
    process_read 6 ((logon_text ++ codes "8=F") ∷ []) ReadEnd.would_block (accept 6 0 adopted)
    ≡ stepped
        (record adopted { buffers = (5, codes "8=F") ∷ (6, codes "8=F") ∷ [] })
        (close_fd 6 ∷ [])
unfolding process_read accept with_messages read read_chunks extract extract_loop extract_one frame
    cut find_text strip get_tag_value_view from_chars_length split_at adopt_unknown candidate
    counterparty find_key sessions_of handler_of find put erase bytes_eq
busy-refused = refl

adopted-Reached : Reached adopted
adopted-Reached = goes_on (goes_on (starts refl) (accepts 5 0)) (
    reads 5 ((logon_text ++ codes "8=F") ∷ []) ReadEnd.would_block (gives 7 logon_text ∷ [])
      accept-adopt_unknown)

Reached-HasOneEach_example :
    ((handler_of 7 adopted).connected ≡ true)
    × ((handler_of 7 adopted).connection ≡ some 5)
    × (◌≡◌ {A = ℕ} 5 5)
unfolding find
Reached-HasOneEach_example = Reached-HasOneEach adopted 5 5 7 adopted-Reached refl refl
