-- ===== src/Pulse/Env/Tests.antt =====
-- An environment with a runtime directory and a user.
use oxisound.Common.{◌≡◌, refl, ◌==◌, true, false, none, some, Bool, [], ◌∷◌, ◌++◌, ◌&&◌, ok}
use oxisound.Pulse.Env.{
  Text, xdg_runtime_dir, EnvProvider, native_socket_relative, unix_prefix, run_user, join, decimal,
  unix_path_from_server_entry, resolve_server_socket, search_socket,
}
use oxisound.Pulse.Env.Candidates.{Resolves, resolve_server_socket-Resolves}

-- /x
abbrev directory : Text
directory = 47 ∷ 120 ∷ []

-- Only the directory of the runtime is set, and user 1000 has a socket.
abbrev desktop : EnvProvider
desktop = record {
  var = λ key. elim key [ xdg_runtime_dir ↦ some directory | _ ↦ none ];
  home_dir = none;
  uid = some 1000;
  path_exists = same (join (run_user ++ 49 ∷ 48 ∷ 48 ∷ 48 ∷ []) native_socket_relative);
}
  where
    same : Text → Text → Bool
    same [] [] = true
    same [] (d ∷ ds) = false
    same (c ∷ cs) [] = false
    same (c ∷ cs) (d ∷ ds) = c == d && same cs ds

users_socket :
    resolve_server_socket desktop ≡ ok (run_user ++ 49 ∷ 48 ∷ 48 ∷ 48 ∷ 47 ∷ native_socket_relative)
unfolding resolve_server_socket search_socket join decimal
users_socket = refl

-- {7}unix:/x
entry_with_id :
    unix_path_from_server_entry (123 ∷ 55 ∷ 125 ∷ (unix_prefix ++ directory)) ≡ some directory
unfolding unix_path_from_server_entry
entry_with_id = refl

-- tcp:h is remote.
remote_entry : unix_path_from_server_entry (116 ∷ 99 ∷ 112 ∷ 58 ∷ 104 ∷ []) ≡ none
unfolding unix_path_from_server_entry
remote_entry = refl

resolve_server_socket-Resolves_example : Resolves desktop (resolve_server_socket desktop)
resolve_server_socket-Resolves_example = resolve_server_socket-Resolves desktop
