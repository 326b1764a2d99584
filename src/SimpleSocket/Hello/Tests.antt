-- ===== src/SimpleSocket/Hello/Tests.antt =====
-- A greeting in memory.
use iteso_codigos.Common.{ℕ, ◌≡◌, refl, ap, Option, List, [], ◌∷◌, ◌++◌, length, arith, replicate}
use iteso_codigos.Common.Text.{Bytes, codes, same}
use iteso_codigos.Common.Run.{Run, done}
use iteso_codigos.Libc.Number.{strtol, signed_value, digits_value}
use iteso_codigos.Netlib.Memory.{loopback}
use iteso_codigos.SimpleSocket.Memory.{Talker, talking, talking-IsLockstep, two_clients}
use iteso_codigos.SimpleSocket.Hello.{
  hello_text, goodbye_text, Exit, cannot_accept, missing_argument, talked, hello_loop, server, main,
}
use iteso_codigos.SimpleSocket.Hello.Talk.{Greeted, main-Greeted}

abbrev silent : ℕ → ℕ → Talker
silent i fd = record { to_say = []; heard = [] }

abbrev greeting : Option ℕ → Talker
greeting fd = record { to_say = hello_text ∷ []; heard = [] }

-- What the first connection has sent when the server has ended.
abbrev heard_first : Run (Exit Talker) → Bytes
heard_first (done (cannot_accept (s ∷ ss))) = s.heard
heard_first r = []

first_heard :
    (s : Talker) (ss : List Talker)
    → main two_clients talking silent greeting 9
        (replicate 255 7)
        (codes "-s" ∷ codes "8080" ∷ [])
        0
      ≡ done (cannot_accept (s ∷ ss))
    → hello_text ∷ [] ≡ s.heard ∷ []
unfolding main server hello_loop same strtol signed_value digits_value
first_heard s ss e = ap (λ (r : Run (Exit Talker)). heard_first r ∷ []) e

main-Greeted_example :
    ((ss : List Talker) × (main two_clients talking silent greeting 9
          (replicate 255 7)
          (codes "-s" ∷ codes "8080" ∷ [])
          0
        ≡ done (cannot_accept ss))
      × (length ss ≡ 2)
      × Greeted talking talking-IsLockstep ss)
    × ((s' : Talker) × (main loopback talking silent greeting 9
            (replicate 255 7)
            (codes "-c" ∷ codes "8080" ∷ codes "127.0.0.1" ∷ [])
            7
          ≡ done (talked (codes "HOLA!") s'))
        × (s'.heard ≡ [] ++ goodbye_text))
unfolding strtol signed_value digits_value
main-Greeted_example =
    main-Greeted two_clients loopback talking talking-IsLockstep silent greeting 9 (replicate 255 7)
      (codes "8080") (codes "127.0.0.1") [] 8080 2 3 7 0 7 [] refl (omega arith) (omega arith) refl
      refl refl
      ((4, record { ip = []; port = 0 }, refl), ((4, record { ip = []; port = 0 }, refl), refl))
      (omega arith) (λ j c. refl) refl refl (omega arith) first_heard

main_missing :
    main loopback talking silent greeting 9 [] (codes "-c" ∷ []) 7 ≡ done missing_argument
unfolding main
main_missing = refl
