-- ===== src/Pulse/Env.antt =====
-- crates/oxisound-pulse/src/env.rs: where the server's socket and the cookie are looked for. A text is
-- the list of its characters here, which the source splits and trims by.
pub mod Candidates
mod Tests
use oxisound.Common.{
  ℕ, zero, suc, ◌+◌, ◌/◌, ◌%◌, ltb, leb, ◌==◌, if◌then◌else◌, Bool, true, false, ◌||◌, ◌&&◌, Option,
  none, some, List, [], ◌∷◌, ◌++◌, Outcome, ok, err, and_then,
}

abbrev pub Text : Type 0
Text = List ℕ

-- The keys that are looked up.
pub data EnvKey : Type 0 where
  pulse_server pulse_runtime_path xdg_runtime_dir pulse_cookie xdg_config_home : EnvKey

pub record EnvProvider : Type 0 where
  pub var : EnvKey → Option Text
  pub home_dir : Option Text
  pub uid : Option ℕ
  pub path_exists : Text → Bool

-- The messages, over what they print.
pub data EnvError : Type 0 where
  only_remote : (server : Text) → EnvError
  no_socket : (tried : List Text) → EnvError

-- native
abbrev pub native_name : Text
native_name = 110 ∷ 97 ∷ 116 ∷ 105 ∷ 118 ∷ 101 ∷ []

-- `PULSE_NATIVE_SOCKET_RELATIVE`: pulse/native
abbrev pub native_socket_relative : Text
native_socket_relative = 112 ∷ 117 ∷ 108 ∷ 115 ∷ 101 ∷ 47 ∷ 110 ∷ 97 ∷ 116 ∷ 105 ∷ 118 ∷ 101 ∷ []

-- unix:
abbrev pub unix_prefix : Text
unix_prefix = 117 ∷ 110 ∷ 105 ∷ 120 ∷ 58 ∷ []

-- /run/user/
abbrev pub run_user : Text
run_user = 47 ∷ 114 ∷ 117 ∷ 110 ∷ 47 ∷ 117 ∷ 115 ∷ 101 ∷ 114 ∷ 47 ∷ []

-- pulse/cookie
abbrev pub cookie_relative : Text
cookie_relative = 112 ∷ 117 ∷ 108 ∷ 115 ∷ 101 ∷ 47 ∷ 99 ∷ 111 ∷ 111 ∷ 107 ∷ 105 ∷ 101 ∷ []

-- .config/pulse/cookie
abbrev pub home_cookie : Text
home_cookie =
    46 ∷ 99 ∷ 111 ∷ 110 ∷ 102 ∷ 105 ∷ 103 ∷ 47 ∷ 112 ∷ 117 ∷ 108 ∷ 115 ∷ 101 ∷ 47 ∷ 99 ∷ 111 ∷ 111
    ∷ 107 ∷ 105 ∷ 101 ∷ []

-- .pulse-cookie
abbrev pub old_cookie : Text
old_cookie = 46 ∷ 112 ∷ 117 ∷ 108 ∷ 115 ∷ 101 ∷ 45 ∷ 99 ∷ 111 ∷ 111 ∷ 107 ∷ 105 ∷ 101 ∷ []

-- `char::is_whitespace`
abbrev pub is_whitespace : ℕ → Bool
is_whitespace c =
    leb 9 c && leb c 13
    || c == 32
    || c == 0x85
    || c == 0xa0
    || c == 0x1680
    || leb 0x2000 c && leb c 0x200a
    || c == 0x2028
    || c == 0x2029
    || c == 0x202f
    || c == 0x205f
    || c == 0x3000

abbrev pub no_text : Text → Bool
no_text [] = true
no_text (c ∷ cs) = false

unfoldable pub trim_start : Text → Text
trim_start [] = []
trim_start (c ∷ cs) = let rest = trim_start cs in if is_whitespace c then rest else c ∷ cs

unfoldable pub trim_end : Text → Text
trim_end [] = []
trim_end (c ∷ cs) =
    let rest = trim_end cs in if no_text rest && is_whitespace c then [] else c ∷ rest

-- A word, if it is one.
abbrev pub whole_word : Text → List Text
whole_word [] = []
whole_word (c ∷ cs) = (c ∷ cs) ∷ []

-- The words of the rest, of which the first has begun with `word`.
unfoldable pub split_from : Text → Text → List Text
split_from word [] = whole_word word
split_from word (c ∷ cs) =
    let next = split_from [] cs in
    let longer = split_from (word ++ c ∷ []) cs in
    if is_whitespace c then whole_word word ++ next else longer

unfoldable pub split_whitespace : Text → List Text
unfolding split_from
split_whitespace text = split_from [] text

unfoldable pub strip_prefix : Text → Text → Option Text
strip_prefix [] text = some text
strip_prefix (p ∷ prefix) [] = none
strip_prefix (p ∷ prefix) (c ∷ cs) =
    let rest = strip_prefix prefix cs in if p == c then rest else none

-- What follows the first closing brace, the second half of `split_once('}')`.
unfoldable pub after_brace : Text → Option Text
after_brace [] = none
after_brace (c ∷ cs) = let rest = after_brace cs in if c == 125 then some cs else rest

-- The entry without a machine id in braces.
unfoldable pub without_id : Text → Option Text
unfolding after_brace
without_id [] = some []
without_id (c ∷ cs) = if c == 123 then after_brace cs else some (c ∷ cs)

-- `None` for an empty path.
abbrev pub some_path : Text → Option Text
some_path [] = none
some_path (c ∷ cs) = some (c ∷ cs)

unfoldable pub unix_path_from_server_entry : Text → Option Text
unfolding trim_start trim_end without_id strip_prefix
unix_path_from_server_entry entry = elim (without_id (trim_end (trim_start entry))) [
  | none ↦ none
  | some rest ↦ elim (strip_prefix unix_prefix rest) [ none ↦ none | some path ↦ some_path path ]
]

-- `Path::join` with a relative path.
unfoldable pub join : Text → Text → Text
join [] path = path
join (c ∷ []) path = if c == 47 then c ∷ path else c ∷ 47 ∷ path
join (c ∷ d ∷ base) path = c ∷ join (d ∷ base) path

-- The decimal digits, in front of what follows, with so many to come at most.
unfoldable pub decimal : ℕ → ℕ → Text → Text
decimal zero n rest = rest
decimal (suc fuel) n rest =
    let more = decimal fuel (n / 10) ((n % 10 + 48) ∷ rest) in
    if ltb n 10 then (n + 48) ∷ rest else more

-- The loop over the entries of `PULSE_SERVER`.
unfoldable pub first_unix_path : List Text → Option Text
unfolding unix_path_from_server_entry
first_unix_path [] = none
first_unix_path (entry ∷ entries) =
    let later = first_unix_path entries in
    elim (unix_path_from_server_entry entry) [ some path ↦ some path | none ↦ later ]

-- Where the search stands: a path was returned, or those that were tried.
pub data Search : Type 0 where
  found : Text → Search
  tried : List Text → Search

module _ (env : EnvProvider) where
  -- A candidate that exists is returned, and another one is noted.
  abbrev pub probe : Text → Search → Search
  probe candidate (found path) = found path
  probe candidate (tried paths) =
      if env.path_exists candidate then found candidate else tried (paths ++ candidate ∷ [])

  unfoldable pub probe_runtime : Option Text → Search → Search
  unfolding join
  probe_runtime (some base) search =
      probe (join base native_socket_relative) (probe (join base native_name) search)
  probe_runtime none search = search

  unfoldable pub probe_xdg : Option Text → Search → Search
  unfolding join
  probe_xdg (some xdg) search = probe (join xdg native_socket_relative) search
  probe_xdg none search = search

  -- A u32 has ten digits at most.
  unfoldable pub probe_uid : Option ℕ → Search → Search
  unfolding join decimal
  probe_uid (some uid) search =
      probe (join (run_user ++ decimal 10 uid []) native_socket_relative) search
  probe_uid none search = search

  abbrev pub search_result : Search → Outcome EnvError Text
  search_result (found path) = ok path
  search_result (tried paths) = err (no_socket paths)

  unfoldable pub search_socket : Outcome EnvError Text
  unfolding probe_runtime probe_xdg probe_uid
  search_socket = search_result (
      probe_uid env.uid (
        probe_xdg (env.var xdg_runtime_dir)
          (probe_runtime (env.var pulse_runtime_path) (tried []))))

  -- By the entries of `PULSE_SERVER` and its text.
  unfoldable pub resolve_by : Text → List Text → Outcome EnvError Text
  unfolding first_unix_path search_socket
  resolve_by server [] = search_socket
  resolve_by server (entry ∷ entries) = elim (first_unix_path (entry ∷ entries)) [
    | some path ↦ ok path
    | none ↦ err (only_remote server)
  ]

  unfoldable pub resolve_server_socket : Outcome EnvError Text
  unfolding resolve_by split_whitespace
  resolve_server_socket = elim (env.var pulse_server) [
    | some server ↦ resolve_by server (split_whitespace server)
    | none ↦ search_socket
  ]

  abbrev pub joined : Option Text → Text → List Text
  joined (some base) path = join base path ∷ []
  joined none path = []

  abbrev pub given : Option Text → List Text
  given (some path) = path ∷ []
  given none = []

  -- `Iterator::find`
  unfoldable pub find_existing : List Text → Option Text
  find_existing [] = none
  find_existing (path ∷ paths) =
      let later = find_existing paths in if env.path_exists path then some path else later

  unfoldable pub resolve_cookie_path : Option Text
  unfolding find_existing join
  resolve_cookie_path = find_existing (
      given (env.var pulse_cookie)
      ++ joined (env.var xdg_config_home) cookie_relative
      ++ joined env.home_dir home_cookie
      ++ joined env.home_dir old_cookie)
