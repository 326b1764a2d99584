-- ===== src/SimpleSocket/EchoServer/Tests.antt =====
-- Two clients of the echo server in memory, and a client that has gone.
use iteso_codigos.Common.{ℕ, ◌≡◌, inr, refl, List, [], ◌∷◌, ◌++◌, arith, length, All}
use iteso_codigos.Common.Text.{Bytes, codes, same}
use iteso_codigos.Common.Run.{done, unfinished}
use iteso_codigos.Device.Memory.{Pipe, memory}
use iteso_codigos.Libc.Number.{strtol, signed_value, digits_value}
use iteso_codigos.Libc.Search.{string_of}
use iteso_codigos.SimpleSocket.Memory.{Talker, talking, talking-IsLockstep, two_clients}
use iteso_codigos.SimpleSocket.EchoServer.{quit_text, echo_session, cannot_accept, bad_port, main}
use iteso_codigos.SimpleSocket.EchoServer.Session.{IsOther, echo_session_closed}
use iteso_codigos.SimpleSocket.EchoServer.Clients.{Served, Talks, main-Served}

abbrev says : List Bytes
says = codes "hi\r\n" ∷ codes "QUIT" ∷ []

abbrev connected : ℕ → ℕ → Talker
connected i fd = record { to_say = says ++ quit_text ∷ []; heard = [] }

says-IsOther : All IsOther says
unfolding same string_of
says-IsOther = (((λ e. cc), omega arith, refl), (((λ e. cc), omega arith, refl), tt))

abbrev talks : (j : ℕ) → Talks two_clients talking talking-IsLockstep connected 9 says j
talks j = record {
  goes_on = says-IsOther;
  enough = omega arith;
  comes = λ fd. refl;
  fresh = λ fd. refl;
}

main-Served_example :
    (ss : List Talker) × (main two_clients talking connected 9 (codes "8080" ∷ []) 0
      ≡ done (cannot_accept ss))
    × (length ss ≡ 2)
    × Served talking talking-IsLockstep (λ j. says) 0 ss
unfolding strtol signed_value digits_value
main-Served_example =
    main-Served two_clients talking talking-IsLockstep connected 9 (λ j. says) (codes "8080") 8080 3
      2 0 refl (omega arith) (omega arith) refl refl refl
      ((4, record { ip = []; port = 0 }, refl), ((4, record { ip = []; port = 0 }, refl), refl))
      (omega arith) talks

main_bad_port : main two_clients talking connected 9 (codes "65536" ∷ []) 0 ≡ done bad_port
unfolding main strtol signed_value digits_value
main_bad_port = refl

-- A QUIT that comes in two pieces does not end the session, and is echoed.
quit_in_pieces :
    echo_session talking 5 (record { to_say = codes "QU" ∷ codes "IT\r\n" ∷ []; heard = [] })
    ≡ unfinished
unfolding echo_session same string_of
quit_in_pieces = refl

abbrev gone : Pipe
gone = record { pending = []; sent = codes "hi" }

echo_session_closed_example : echo_session (memory 9) 1000 gone ≡ unfinished
echo_session_closed_example =
    echo_session_closed (memory 9) 1000 (λ s. s.pending ≡ []) gone (λ t e. rw e (inr refl, refl))
      refl
