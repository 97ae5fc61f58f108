-- ===== src/Pulse/Env/Candidates.antt =====
-- Which socket is resolved.
use oxisound.Common.{
  ℕ, ◌≡◌, ◌≢◌, refl, sym, ap, ◌∙◌, if◌then◌else◌, Bool-cases, Option-cases, ◌⊎◌, inl, inr, Option,
  none, some, List, [], ◌∷◌, ◌++◌, append_assoc, append-nil, All, Outcome, ok, err,
}
use mathlib.Core.Path.{subst}
use oxisound.Pulse.Env.{
  Text, EnvProvider, pulse_server, pulse_runtime_path, xdg_runtime_dir, EnvError, only_remote,
  no_socket, native_name, native_socket_relative, run_user, split_whitespace, join, decimal,
  unix_path_from_server_entry, first_unix_path, Search, found, tried, probe, probe_runtime,
  probe_xdg, probe_uid, search_socket, resolve_by, resolve_server_socket,
}

-- The places of the socket without `PULSE_SERVER`, in the order of the source's documentation.
abbrev pub runtime_places : Option Text → List Text
runtime_places (some base) = join base native_name ∷ join base native_socket_relative ∷ []
runtime_places none = []

abbrev pub xdg_places : Option Text → List Text
xdg_places (some base) = join base native_socket_relative ∷ []
xdg_places none = []

abbrev pub uid_places : Option ℕ → List Text
uid_places (some uid) = join (run_user ++ decimal 10 uid []) native_socket_relative ∷ []
uid_places none = []

abbrev pub places : EnvProvider → List Text
places env =
    runtime_places (env.var pulse_runtime_path)
    ++ xdg_places (env.var xdg_runtime_dir)
    ++ uid_places env.uid

-- The entries of `PULSE_SERVER`.
abbrev pub entries : Option Text → List Text
entries (some server) = split_whitespace server
entries none = []

-- The first of the items for which `f` has a value.
pub record First {A B : Type 0} (f : A → Option B) (items : List A) (b : B) : Type 0 where
  pub before : List A
  pub item : A
  pub after : List A
  pub split : items ≡ before ++ item ∷ after
  pub skipped : All (λ a. f a ≡ none) before
  pub hit : f item ≡ some b

module _ {A B : Type 0} (f : A → Option B) where
  First-head : (a : A) (items : List A) (b : B) → f a ≡ some b → First f (a ∷ items) b
  First-head a items b e = record {
    before = [];
    item = a;
    after = items;
    split = refl;
    skipped = tt;
    hit = e;
  }

  First-later :
      (a : A) (items : List A) (b : B) → f a ≡ none → First f items b → First f (a ∷ items) b
  First-later a items b e first = record {
    before = a ∷ first.before;
    item = first.item;
    after = first.after;
    split = ap (λ l. a ∷ l) first.split;
    skipped = (e, first.skipped);
    hit = first.hit;
  }

first_unix_path_lem :
    (l : List Text)
    → ((path : Text) × First unix_path_from_server_entry l path × (first_unix_path l ≡ some path))
      ⊎ (All (λ e. unix_path_from_server_entry e ≡ none) l × (first_unix_path l ≡ none))
unfolding first_unix_path
first_unix_path_lem [] = inr (tt, refl)
first_unix_path_lem (e ∷ l) = elim (Option-cases (unix_path_from_server_entry e)) [
  | inr (path, hit) ↦
      inl
        (path, First-head unix_path_from_server_entry e l path hit, rw (first_unix_path, hit) refl)
  | inl miss ↦ elim (first_unix_path_lem l) [
    | inl (path, first, same) ↦ inl (
      path,
      First-later unix_path_from_server_entry e l path miss first,
      rw (first_unix_path, miss) same,
    )
    | inr (all_miss, same) ↦ inr ((miss, all_miss), rw (first_unix_path, miss) same)
  ]
]

module _ (env : EnvProvider) where
  -- The path, if it is there.
  abbrev pub existing : Text → Option Text
  existing path = if env.path_exists path then some path else none

  abbrev probe_all : List Text → Search → Search
  probe_all [] search = search
  probe_all (c ∷ cs) search = probe_all cs (probe env c search)

  probe_all-found : (cs : List Text) (path : Text) → probe_all cs (found path) ≡ found path
  probe_all-found [] path = refl
  probe_all-found (c ∷ cs) path = probe_all-found cs path

  probe_all_lem :
      (ts cs : List Text)
      → ((path : Text) × First existing cs path × (probe_all cs (tried ts) ≡ found path))
        ⊎ (All (λ c. existing c ≡ none) cs × (probe_all cs (tried ts) ≡ tried (ts ++ cs)))
  probe_all_lem ts [] = inr (tt, ap tried (sym (append-nil ts)))
  probe_all_lem ts (c ∷ cs) = elim (Bool-cases (env.path_exists c)) [
    | inl here ↦ inl (c, First-head existing c cs c (rw here refl), rw here (probe_all-found cs c))
    | inr absent ↦
        let miss : existing c ≡ none = rw absent refl in
        elim (probe_all_lem (ts ++ c ∷ []) cs) [
          | inl (path, first, same) ↦
              inl (path, First-later existing c cs path miss first, rw absent same)
          | inr (all_miss, same) ↦
              inr ((miss, all_miss), rw absent (same ∙ ap tried (append_assoc ts (c ∷ []) cs)))
        ]
  ]

  probes_lem :
      (r x : Option Text) (u : Option ℕ) (s : Search)
      → probe_uid env u (probe_xdg env x (probe_runtime env r s))
        ≡ probe_all (runtime_places r ++ xdg_places x ++ uid_places u) s
  unfolding probe_uid probe_xdg probe_runtime
  probes_lem none none none s = refl
  probes_lem none none (some u) s = refl
  probes_lem none (some x) none s = refl
  probes_lem none (some x) (some u) s = refl
  probes_lem (some r) none none s = refl
  probes_lem (some r) none (some u) s = refl
  probes_lem (some r) (some x) none s = refl
  probes_lem (some r) (some x) (some u) s = refl

  -- What the documentation says of the result.
  pub data Resolves : Outcome EnvError Text → Type 0 where
    chosen :
        {path : Text}
        → First unix_path_from_server_entry (entries (env.var pulse_server)) path
        → Resolves (ok path)
    remote :
        {server : Text}
        → env.var pulse_server ≡ some server
        → split_whitespace server ≢ []
        → All (λ e. unix_path_from_server_entry e ≡ none) (split_whitespace server)
        → Resolves (err (only_remote server))
    exists :
        {path : Text}
        → entries (env.var pulse_server) ≡ []
        → First existing (places env) path
        → Resolves (ok path)
    missing :
        entries (env.var pulse_server) ≡ []
        → All (λ c. existing c ≡ none) (places env)
        → Resolves (err (no_socket (places env)))

  search_socket-Resolves : entries (env.var pulse_server) ≡ [] → Resolves (search_socket env)
  unfolding search_socket
  search_socket-Resolves none_given =
      let places_probed =
        probes_lem (env.var pulse_runtime_path) (env.var xdg_runtime_dir) env.uid (tried []) in
      elim (probe_all_lem [] (places env)) [
        | inl (path, first, same) ↦ rw (places_probed, same) (exists none_given first)
        | inr (all_miss, same) ↦ rw (places_probed, same) (missing none_given all_miss)
      ]

  resolve_by-Resolves :
      (server : Text) (l : List Text)
      → env.var pulse_server ≡ some server
      → split_whitespace server ≡ l
      → Resolves (resolve_by env server l)
  unfolding resolve_by
  resolve_by-Resolves server [] set split = search_socket-Resolves (ap entries set ∙ split)
  resolve_by-Resolves server (e ∷ l) set split =
      let given : entries (env.var pulse_server) ≡ e ∷ l = ap entries set ∙ split in
      elim (first_unix_path_lem (e ∷ l)) [
        | inl (path, first, same) ↦
            rw (resolve_by, same)
              (chosen (subst (λ k. First unix_path_from_server_entry k path) (sym given) first))
        | inr (all_miss, same) ↦
            rw (resolve_by, same)
              (remote set (λ z. (let clash : [] ≡ e ∷ l = sym z ∙ split in cc))
                (subst (All (λ k. unix_path_from_server_entry k ≡ none)) (sym split) all_miss))
      ]

  -- The first entry of `PULSE_SERVER` that names a unix socket is the result, whether it exists or
  -- not; entries of which none does are an error. Without entries it is the first that exists of
  -- `native` and `pulse/native` in `PULSE_RUNTIME_PATH`, `pulse/native` in `XDG_RUNTIME_DIR`, and that
  -- of the user's directory in `/run/user`; if there is none of them, an error with all of them.
  pub resolve_server_socket-Resolves : Resolves (resolve_server_socket env)
  unfolding resolve_server_socket
  resolve_server_socket-Resolves = elim (Option-cases (env.var pulse_server)) [
    | inl unset ↦ rw (resolve_server_socket, unset) (search_socket-Resolves (ap entries unset))
    | inr (server, set) ↦
        rw (resolve_server_socket, set)
          (resolve_by-Resolves server (split_whitespace server) set refl)
  ]
