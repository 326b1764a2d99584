-- ===== src/Bdcast/Tests.antt =====
-- Datagrams in memory.
use iteso_codigos.Common.{◌≡◌, refl, some, List, [], ◌∷◌, arith}
use iteso_codigos.Common.Text.{Bytes, codes}
use iteso_codigos.Common.Run.{done}
use iteso_codigos.UdpFileTransfer.Memory.{Mailbox, datagrams, datagrams-IsUdp}
use iteso_codigos.Bdcast.{listen}
use iteso_codigos.Bdcast.Heard.{listen-incoming}

abbrev arriving_texts : List Bytes
arriving_texts = codes "hola" ∷ codes "a" ∷ codes "hi" ∷ []

abbrev heard : Mailbox
heard = record { arriving = codes "hola" ∷ codes "a" ∷ codes "hi" ∷ codes "no" ∷ []; departed = [] }

listen-incoming_example : listen datagrams 3 (some heard) ≡ done (some arriving_texts)
listen-incoming_example =
    listen-incoming datagrams datagrams-IsUdp arriving_texts (codes "no" ∷ []) heard
      (
        (((λ z. cc), ((λ z. cc), ((λ z. cc), ((λ z. cc), tt)))), omega arith),
        ((((λ z. cc), tt), omega arith), ((((λ z. cc), ((λ z. cc), tt)), omega arith), tt)),
      )
      refl
