-- ===== src/FileTransfer/Arguments/Tests.antt =====
-- Command lines of the three programs.
use iteso_codigos.Common.{◌≡◌, refl, [], ◌∷◌}
use iteso_codigos.Common.Text.{codes, same}
use iteso_codigos.Libc.Search.{strstr}
use iteso_codigos.FileTransfer.Arguments.{
  helped, null_pointer, kind_of, read_options, server_arguments,
}

server_help :
    server_arguments (codes "-vv" ∷ codes "-h" ∷ codes "x" ∷ [])
    ≡ helped
        (record { port = 5001; directory = codes "./"; verbosity = 2 }, codes "-h" ∷ codes "x" ∷ [])
unfolding server_arguments read_options kind_of same strstr
server_help = refl

server_last_value : server_arguments (codes "-p" ∷ []) ≡ null_pointer
unfolding server_arguments read_options kind_of same
server_last_value = refl
